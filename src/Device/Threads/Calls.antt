-- ===== src/Device/Threads/Calls.antt =====
-- How often the signal handler is called in a run of the threads (examples/ws-discovery/wsdd.cpp).
use onvifxx.Base.{
  ℕ, ◌≡◌, refl, sym, ap, subst, inl, inr, Bool, true, false, Option, none, some, List, [], ◌∷◌,
  ◌++◌, append-nil,
}
use onvifxx.Device.Serving.{Action}
use onvifxx.Device.Threads.{
  System, Step, signal, signal_error, run_stopped, run_idle, join, checked, failed, hello_sent,
  hello_failed, go_on, leave, accept_failed, accepted, served, bye, release,
}
use onvifxx.Device.Threads.Invariant.{Reach-IsSafe}
use onvifxx.Device.Threads.Runs.Exec.{Run-stopped}
use onvifxx.Device.Threads.Ending.{HasEnded}
use onvifxx.Device.Threads.Runs.{Run, begin, next, signals}

-- The handler has not been called while it waits, and once when it does not.
IsOnce : Bool → List (Option ℕ) → Type 0
IsOnce true ss = ss ≡ []
IsOnce false ss = (call : Option ℕ) × (ss ≡ call ∷ [])

once :
    {b : Bool} (call : Option ℕ) (ss : List (Option ℕ))
    → b ≡ true
    → IsOnce b ss
    → IsOnce false (ss ++ call ∷ [])
unfolding IsOnce
once call ss armed is =
    let none_yet : ss ≡ [] = subst (λ b. IsOnce b ss) armed is in
    (call, ap (λ ss. ss ++ call ∷ []) none_yet)

kept : (b : Bool) (ss : List (Option ℕ)) → IsOnce b ss → IsOnce b (ss ++ [])
kept b ss = subst (IsOnce b) (sym (append-nil ss))

Step-IsOnce :
    {s t : System} (ss : List (Option ℕ)) (st : Step s t)
    → IsOnce s.armed ss
    → IsOnce t.armed (ss ++ signals st)
unfolding signals
Step-IsOnce ss (signal n among m a) is = once (some n) ss a is
Step-IsOnce ss (signal_error m a) is = once none ss a is
Step-IsOnce ss (run_stopped m h) is = kept _ ss is
Step-IsOnce ss (run_idle m a w) is = kept _ ss is
Step-IsOnce ss (join m d) is = kept _ ss is
Step-IsOnce ss (checked m b) is = kept _ ss is
Step-IsOnce ss (failed m b) is = kept _ ss is
Step-IsOnce ss (hello_sent e) is = kept _ ss is
Step-IsOnce ss (hello_failed what e) is = kept _ ss is
Step-IsOnce ss (go_on e n) is = kept _ ss is
Step-IsOnce ss (leave e n) is = kept _ ss is
Step-IsOnce ss (accept_failed e) is = kept _ ss is
Step-IsOnce ss (accepted e) is = kept _ ss is
Step-IsOnce ss (served calls r e) is = kept _ ss is
Step-IsOnce ss (bye ends e) is = kept _ ss is
Step-IsOnce ss (release e) is = kept _ ss is

Run-IsOnce :
    {s : System} {acts : List Action} {ss : List (Option ℕ)} → Run s acts ss → IsOnce s.armed ss
unfolding IsOnce
Run-IsOnce begin = refl
Run-IsOnce {s} (next {ss} r st _ same) =
    subst (IsOnce s.armed) (sym same) (Step-IsOnce ss st (Run-IsOnce r))

-- Where the main thread has ended, the handler does not wait.
HasEnded-armed :
    {s : System} {acts : List Action} {ss : List (Option ℕ)}
    → Run s acts ss
    → HasEnded s
    → s.armed ≡ false
HasEnded-armed {s} r over =
    let safe = Reach-IsSafe (Run-stopped r).1 in
    elim (safe.left (λ e. elim over [ inl m ↦ cc | inr m ↦ cc ])) [
      | inl halted ↦ safe.halts halted
      | inr (a, _) ↦ a
    ]

pub HasEnded-once :
    {s : System} {acts : List Action} {ss : List (Option ℕ)}
    → Run s acts ss
    → HasEnded s
    → (call : Option ℕ) × (ss ≡ call ∷ [])
unfolding IsOnce
HasEnded-once {ss = ss} r over = subst (λ b. IsOnce b ss) (HasEnded-armed r over) (Run-IsOnce r)
