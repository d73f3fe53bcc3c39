-- ===== src/Device/Start.antt =====
-- `main` (examples/ws-discovery/main.cpp): the log of a daemon, and the run of the device.
use onvifxx.Base.{
  ℕ, ◌≡◌, ◌≢◌, refl, ap, ◌∙◌, Bool, true, false, not, Option, none, map, some, List, [], ◌∷◌, ◌++◌,
  ◌==◌, if◌then◌else◌, take, arith, Bool-cases, inl, inr,
}
use onvifxx.Base.Chars.{Text, codes, text_eq, text_eq_iff, Free}
use onvifxx.Base.Outcome.{Outcome, ok, fault, assertion, wrong_cast, null_pointer, ◌>>=◌}
use onvifxx.Device.Log
use onvifxx.Device.Log.{Log, Stream, c_str, standard, to_log}
use onvifxx.Device.Log.Lines.{AreBytes, line_feed, write_line-sent, write_line-cast}
use onvifxx.Device.Main.{base_name, sighup, Round, round_notes, exec}
use onvifxx.Device.Main.Runs.{
  base_name_lem, retry, signalled, retry_notes, after_signal, exec_signal,
}
use onvifxx.Device.Notes.{Note, log_at, info, error}
use onvifxx.Device.Reports.{create}

-- `LOG_DAEMON`
abbrev pub log_daemon : ℕ
log_daemon = 24

-- `argc == 2 && argv[1] == std::string("-D")`, for the arguments behind the path
pub is_debug : List Text → Bool
is_debug (a ∷ []) = text_eq a (codes "-D")
is_debug _ = false

-- `daemonize`, and `std::clog` once `Wsdd()` is made. Without a path, `baseName` reads a null pointer.
pub started : (ℕ → Text) → List Text → Outcome (Bool × Stream)
unfolding is_debug
started place [] = fault null_pointer
started place (path ∷ args) = do
  let daemonize = not (is_debug args)
  let buffer = if daemonize then to_log (Log.create (base_name path) log_daemon) else standard
  s ← create place buffer
  ok (daemonize, s)

-- `~Wsdd()` writes its line unless the program was aborted.
abbrev pub exits : Option (List Note × Outcome ℕ) → Option (List Note × Outcome ℕ)
exits none = none
exits (some (notes, ok code)) = some (notes ++ log_at info 34 (codes "exit") ∷ [], ok code)
exits (some (notes, fault r)) = some (notes, fault r)

-- `main`, for the error of `daemon`, if it fails, and the rounds of the loop in `exec`, with what the main
-- thread writes behind the line of `Wsdd()`
pub main : (ℕ → Text) → List Text → Option Text → List Round → Option (List Note × Outcome ℕ)
unfolding started
main place argv daemon_fails rounds = elim (started place argv) [
  | fault r ↦ some ([], fault r)
  | ok (daemonize, s) ↦ exits (exec daemonize daemon_fails rounds)
]

module _ (place : ℕ → Text) where
  is_debug-other : (args : List Text) → args ≢ codes "-D" ∷ [] → is_debug args ≡ false
  unfolding is_debug
  is_debug-other [] other = refl
  is_debug-other (a ∷ []) other = elim (Bool-cases (text_eq a (codes "-D"))) [
    | inl same ↦ absurd (other (ap (λ a. a ∷ []) ((text_eq_iff a (codes "-D")).0 same)))
    | inr no_ ↦ no_
  ]
  is_debug-other (a ∷ b ∷ args) other = refl

  -- The log of a daemon that is called `name`, with its first message.
  abbrev pub first_log : Text → Log
  first_log name = record (Log.create name log_daemon) {
    sent = (info, c_str ((place 15 ++ codes "start") ++ line_feed ∷ [])) ∷ [];
  }

  started_daemon :
      (path : Text) (args : List Text)
      → args ≢ codes "-D" ∷ []
      → AreBytes (place 15)
      → started place (path ∷ args) ≡ ok (true, to_log (first_log (base_name path)))
  unfolding started create Log.create
  started_daemon path args other bytes =
      ap
        (λ b.
          create place (if not b then to_log (Log.create (base_name path) log_daemon) else standard)
          >>= λ s. ok (not b, s))
        (is_debug-other args other)
      ∙ ap (λ o. o >>= λ s. ok (true, s))
          (write_line-sent _ (Log.create (base_name path) log_daemon) (bytes, ground arith)
            (refl, refl))

  started_debug : (path : Text) → started place (path ∷ codes "-D" ∷ []) ≡ fault wrong_cast
  unfolding started create is_debug text_eq
  started_debug path = ap (λ o. o >>= λ s. ok (false, s)) (write_line-cast _ info refl)

  -- The notes of a main thread that a signal ends, and of one that cannot become a daemon.
  abbrev pub end_of : List Text → ℕ → List Note × Outcome ℕ
  end_of whats signal =
      let notes = retry_notes whats ++ round_notes (some signal ∷ []) in
      if signal == sighup
      then (notes, fault assertion)
      else (notes ++ log_at info 34 (codes "exit") ∷ [], ok 0)

  abbrev pub no_daemon : Text → List Note
  no_daemon text =
      log_at error 40 (codes "Could not daemonize - " ++ text) ∷ log_at info 34 (codes "exit") ∷ []

  signal_exits :
      (whats : List Text) (signal : ℕ)
      → exits (some (retry_notes whats ++ round_notes (some signal ∷ []), after_signal signal))
        ≡ some (end_of whats signal)
  signal_exits whats signal = elim (Bool-cases (signal == sighup)) [
    | inl hup ↦ rw (hup) refl
    | inr other ↦ rw (other) refl
  ]

  pub main_ends :
      (dir name : Text) (args whats : List Text) (signal : ℕ) (later : List Round) (text : Text)
      → Free b'/' name
      → AreBytes (place 15)
      → let path = dir ++ b'/' ∷ name in
        let rounds = map retry whats ++ signalled signal ∷ later in
        (main place (path ∷ codes "-D" ∷ []) none rounds ≡ some ([], fault wrong_cast))
        × (args ≢ codes "-D" ∷ []
            → (started place (path ∷ args) ≡ ok (true, to_log (first_log name)))
              × ((first_log name).ident ≡ take 49 name)
              × (main place (path ∷ args) none rounds ≡ some (end_of whats signal))
              × (main place (path ∷ args) (some text) rounds ≡ some (no_daemon text, ok 1)))
  unfolding main Log.create
  main_ends dir name args whats signal later text free bytes =
      let path = dir ++ b'/' ∷ name in
      let rounds = map retry whats ++ signalled signal ∷ later in
      let goes : Option Text → Outcome (Bool × Stream) → Option (List Note × Outcome ℕ) =
        (λ fails o. elim o [
          | fault r ↦ some ([], fault r)
          | ok (daemonize, s) ↦ exits (exec daemonize fails rounds)
        ]) in
      let (ends, fails) = exec_signal true whats signal later text in
      (
        ap (goes none) (started_debug path),
        λ other.
            let begun = started_daemon path args other bytes in
            (
              begun
                  ∙ ap (λ name. ok (true, to_log (first_log name))) (base_name_lem dir name free).1,
              refl,
              ap (goes none) begun ∙ ap exits ends ∙ signal_exits whats signal,
              ap (goes (some text)) begun ∙ ap exits fails,
            ),
      )
