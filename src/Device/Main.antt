-- ===== src/Device/Main.antt =====
-- examples/ws-discovery/main.cpp, and the main loop of wsdd.cpp.
pub mod Runs
pub mod Logged
use onvifxx.Base.{
  ℕ, Bool, true, false, not, ◌&&◌, Option, none, some, List, [], ◌∷◌, ◌++◌, ◌==◌, if◌then◌else◌,
}
use onvifxx.Base.Chars.{Text, codes, print_nat}
use onvifxx.Device.Notes.{Note, log, log_at, warning, error}
use onvifxx.Base.Outcome.{Outcome, ok, ◌>>=◌, ◌>>◌, assert}

-- The loop of `baseName`, with what `rv` holds.
pub base_from : Text → Text → Text
base_from rv [] = rv
base_from rv (c ∷ path) =
    let cleared = base_from [] path in
    let longer = base_from (rv ++ c ∷ []) path in if c == b'/' then cleared else longer

-- `baseName`, for the bytes before the terminating zero
pub base_name : Text → Text
unfolding base_from
base_name path = base_from [] path

-- `SIGHUP`
abbrev pub sighup : ℕ
sighup = 1

-- `stopped_` after `signalHandler`: `none` is a call with an error
unfoldable pub signal_handler : Option ℕ → Bool → Bool
signal_handler none stopped = stopped
signal_handler (some signal) stopped = not (signal == sighup)

-- What it writes. An `int` has ten digits at most.
unfoldable pub handler_notes : Option ℕ → List Note
unfolding print_nat
handler_notes none = []
handler_notes (some signal) =
    log 188 (codes "A signal occurred " ++ print_nat 10 signal)
    ∷ log 198 (codes "Waiting for finish of service")
    ∷ []

-- A round of the loop in `exec`: the calls of the handler while `ios_.run()` runs, and what it throws,
-- if it throws.
pub record Round : Type 0 where
  pub signals : List (Option ℕ)
  pub throws : Option Text

unfoldable pub handle_all : List (Option ℕ) → Bool → Bool
unfolding signal_handler
handle_all [] stopped = stopped
handle_all (s ∷ ss) stopped = handle_all ss (signal_handler s stopped)

unfoldable pub all_handler_notes : List (Option ℕ) → List Note
all_handler_notes [] = []
all_handler_notes (s ∷ ss) = handler_notes s ++ all_handler_notes ss

-- `LOG_W` without `std::endl`
abbrev pub wrong_note : Text → Note
wrong_note what = record {
  line = 54;
  priority = some warning;
  text = codes "Something wrong - " ++ what;
  ends = false;
}

-- What is written in a round, if nothing is thrown, and if something is.
abbrev pub round_notes : List (Option ℕ) → List Note
round_notes signals =
    log 48 (codes "Running service")
    ∷ (all_handler_notes signals ++ log 51 (codes "Service stopped") ∷ [])

abbrev pub thrown_notes : List (Option ℕ) → Text → List Note
thrown_notes signals what =
    log 48 (codes "Running service") ∷ (all_handler_notes signals ++ wrong_note what ∷ [])

-- The rest of the loop, behind a round that wrote `notes`.
abbrev pub behind : List Note → Option (List Note × Outcome ℕ) → Option (List Note × Outcome ℕ)
behind notes none = none
behind notes (some (later, end)) = some (notes ++ later, end)

-- The loop, with what it writes: `none` where the rounds end and the loop does not.
unfoldable pub exec_loop : List Round → Bool → Option (List Note × Outcome ℕ)
unfolding handle_all all_handler_notes
exec_loop [] stopped = none
exec_loop (r ∷ rs) stopped =
    let stopped' = handle_all r.signals stopped in
    let rest = exec_loop rs stopped' in
    let checked = (do assert stopped'; ok 0) in
    elim r.throws [
      | none ↦ some (round_notes r.signals, checked)
      | some what ↦
          let notes = thrown_notes r.signals what in
          if stopped' then some (notes, ok 0) else behind notes rest
    ]

-- `exec`; `daemon_fails` is the text of the error that `daemon` returns, if it does
unfoldable pub exec : Bool → Option Text → List Round → Option (List Note × Outcome ℕ)
unfolding exec_loop
exec daemonize daemon_fails rounds = elim (if daemonize then daemon_fails else none) [
  | none ↦ exec_loop rounds false
  | some text ↦ some (log_at error 40 (codes "Could not daemonize - " ++ text) ∷ [], ok 1)
]
