-- ===== src/Device/Main/Runs.antt =====
-- How the example ends.
use onvifxx.Base.{
  ℕ, ◌≡◌, refl, sym, ◌∙◌, Bool, true, false, some, List, [], ◌∷◌, ◌++◌, ◌==◌, if◌then◌else◌, arith,
  none, map, ap, append_assoc, append-nil, Bool-cases, inl, inr,
}
use onvifxx.Base.Chars.{Text, Free, codes}
use onvifxx.Base.Outcome.{Outcome, ok, fault, assertion}
use onvifxx.Device.Main.{
  base_from, base_name, sighup, Round, thrown_notes, round_notes, behind, exec_loop, exec,
}
use onvifxx.Device.Notes.{Note, log_at, error}

base_from-Free : (rv path : Text) → Free b'/' path → base_from rv path ≡ rv ++ path
unfolding base_from
base_from-Free rv [] free = sym (append-nil rv)
base_from-Free rv (c ∷ path) free = ground (
  arith,
  base_from-Free [] path free.1,
  base_from-Free (rv ++ c ∷ []) path free.1 ∙ append_assoc rv (c ∷ []) path,
)

base_from-slash : (rv dir name : Text) → base_from rv (dir ++ b'/' ∷ name) ≡ base_from [] name
unfolding base_from
base_from-slash rv [] name = refl
base_from-slash rv (c ∷ dir) name =
    ground (arith, base_from-slash [] dir name, base_from-slash (rv ++ c ∷ []) dir name)

-- A path without a slash is its own base name, and that of any other is what stands behind its last
-- slash.
pub base_name_lem :
    (dir name : Text)
    → Free b'/' name
    → (base_name name ≡ name) × (base_name (dir ++ b'/' ∷ name) ≡ name)
unfolding base_name
base_name_lem dir name free =
    (base_from-Free [] name free, base_from-slash [] dir name ∙ base_from-Free [] name free)

-- A round in which no signal comes and an exception is thrown.
abbrev pub retry : Text → Round
retry what = record { signals = []; throws = some what }

-- A round that one signal ends.
abbrev pub signalled : ℕ → Round
signalled signal = record { signals = some signal ∷ []; throws = none }

-- What rounds that only throw write.
abbrev pub retry_notes : List Text → List Note
retry_notes [] = []
retry_notes (what ∷ whats) = thrown_notes [] what ++ retry_notes whats

-- The value of `exec` behind a round with a signal.
abbrev pub after_signal : ℕ → Outcome ℕ
after_signal signal = if signal == sighup then fault assertion else ok 0

loop_signal :
    (whats : List Text) (signal : ℕ) (later : List Round)
    → exec_loop (map retry whats ++ signalled signal ∷ later) false
      ≡ some (retry_notes whats ++ round_notes (some signal ∷ []), after_signal signal)
unfolding exec_loop
loop_signal [] signal later = elim (Bool-cases (signal == sighup)) [
  | inl hup ↦ ground (arith, hup)
  | inr other ↦ ground (arith, other)
]
loop_signal (what ∷ whats) signal later =
    ap (behind (thrown_notes [] what)) (loop_signal whats signal later)

-- Where the program starts, as a daemon or not: after any rounds that only throw, a round in which one
-- signal comes and nothing is thrown ends it, with 0, or for SIGHUP with a failed assertion. If
-- becoming a daemon fails, the program ends with 1 at once.
pub exec_signal :
    (daemonize : Bool) (whats : List Text) (signal : ℕ) (later : List Round) (text : Text)
    → let rounds = map retry whats ++ signalled signal ∷ later in
      (exec daemonize none rounds
        ≡ some (retry_notes whats ++ round_notes (some signal ∷ []), after_signal signal))
      × (exec true (some text) rounds
          ≡ some (log_at error 40 (codes "Could not daemonize - " ++ text) ∷ [], ok 1))
unfolding exec
exec_signal true whats signal later text = (loop_signal whats signal later, refl)
exec_signal false whats signal later text = (loop_signal whats signal later, refl)
