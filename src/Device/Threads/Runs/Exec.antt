-- ===== src/Device/Threads/Runs/Exec.antt =====
-- What the main thread does, against `exec` (examples/ws-discovery/wsdd.cpp).
use onvifxx.Base.{
  ℕ, ◌≡◌, refl, sym, ap, subst, ◌∙◌, Bool, true, false, Option, none, some, List, [], ◌∷◌, ◌++◌,
  inl, inr, append-nil, if◌then◌else◌,
}
use onvifxx.Base.Outcome.{Outcome, ok, fault, assertion, assert, ◌>>◌}
use onvifxx.Device.Main.{Round, round_notes, handle_all, signal_handler, exec, exec_loop}
use onvifxx.Device.Serving.{Action}
use onvifxx.Device.Threads.{
  done, ended, aborted, System, Step, signal, signal_error, run_stopped, run_idle, join, checked,
  failed, hello_sent, hello_failed, go_on, leave, accept_failed, accepted, served, bye, release,
  Reach, start, later,
}
use onvifxx.Device.Threads.Invariant.{Reach-IsSafe, has_joined}
use onvifxx.Device.Threads.Ending.{HasEnded}
use onvifxx.Device.Threads.Runs.{Run, begin, next, signals}

-- The calls of the handler and `stopped_`.
handle_all-append :
    (ss : List (Option ℕ)) (call : Option ℕ) (stopped : Bool)
    → handle_all (ss ++ call ∷ []) stopped ≡ signal_handler call (handle_all ss stopped)
unfolding handle_all
handle_all-append [] call stopped = refl
handle_all-append (s ∷ ss) call stopped = handle_all-append ss call (signal_handler s stopped)

called :
    {before after : Bool} (ss : List (Option ℕ)) (call : Option ℕ)
    → before ≡ handle_all ss false
    → after ≡ signal_handler call before
    → after ≡ handle_all (ss ++ call ∷ []) false
called ss call same e = e ∙ ap (signal_handler call) same ∙ sym (handle_all-append ss call false)

uncalled :
    {b : Bool} (ss : List (Option ℕ)) → b ≡ handle_all ss false → b ≡ handle_all (ss ++ []) false
uncalled {b} ss = subst (λ ss. b ≡ handle_all ss false) (sym (append-nil ss))

Step-stopped :
    {s t : System} (ss : List (Option ℕ)) (st : Step s t)
    → s.stopped ≡ handle_all ss false
    → t.stopped ≡ handle_all (ss ++ signals st) false
unfolding signals signal_handler
Step-stopped ss (signal n among m a) same = called ss (some n) same refl
Step-stopped ss (signal_error m a) same = called ss none same refl
Step-stopped ss (run_stopped m h) same = uncalled ss same
Step-stopped ss (run_idle m a w) same = uncalled ss same
Step-stopped ss (join m d) same = uncalled ss same
Step-stopped ss (checked m b) same = uncalled ss same
Step-stopped ss (failed m b) same = uncalled ss same
Step-stopped ss (hello_sent e) same = uncalled ss same
Step-stopped ss (hello_failed what e) same = uncalled ss same
Step-stopped ss (go_on e n) same = uncalled ss same
Step-stopped ss (leave e n) same = uncalled ss same
Step-stopped ss (accept_failed e) same = uncalled ss same
Step-stopped ss (accepted e) same = uncalled ss same
Step-stopped ss (served calls r e) same = uncalled ss same
Step-stopped ss (bye ends e) same = uncalled ss same
Step-stopped ss (release e) same = uncalled ss same

pub Run-stopped :
    {s : System} {acts : List Action} {ss : List (Option ℕ)}
    → Run s acts ss
    → (s.stopped ≡ handle_all ss false) × Reach s
unfolding handle_all
Run-stopped begin = (refl, start)
Run-stopped {s} (next {ss} r st _ same) =
    let (stopped, reached) = Run-stopped r in
    (
      subst (λ ss. s.stopped ≡ handle_all ss false) (sym same) (Step-stopped ss st stopped),
      later reached st,
    )

-- The only round of the loop in `exec`: `ios_.run()` returns.
abbrev pub round_of : List (Option ℕ) → Round
round_of ss = record { signals = ss; throws = none }

-- `BOOST_ASSERT(stopped_)` and the end.
abbrev checked_end : Bool → Outcome ℕ
checked_end b = do assert b; ok 0

after_check : (b : Bool) → checked_end b ≡ (if b then ok 0 else fault assertion)
after_check true = refl
after_check false = refl

exec-stopped :
    (d b : Bool) (ss : List (Option ℕ))
    → b ≡ handle_all ss false
    → exec d none (round_of ss ∷ []) ≡ some (round_notes ss, if b then ok 0 else fault assertion)
unfolding exec exec_loop
exec-stopped true b ss same =
    ap (λ o. some (round_notes ss, o))
      (after_check _ ∙ ap (λ b. if b then ok 0 else fault assertion) (sym same))
exec-stopped false b ss same =
    ap (λ o. some (round_notes ss, o))
      (after_check _ ∙ ap (λ b. if b then ok 0 else fault assertion) (sym same))

pub Run-exec :
    {s : System} {acts : List Action} {ss : List (Option ℕ)}
    → Run s acts ss
    → (d : Bool)
    → (s.main ≡ ended → exec d none (round_of ss ∷ []) ≡ some (round_notes ss, ok 0))
      × (s.main ≡ aborted → exec d none (round_of ss ∷ []) ≡ some (round_notes ss, fault assertion))
Run-exec {s} {ss = ss} r d =
    let (same, reached) = Run-stopped r in
    let safe = Reach-IsSafe reached in
    let runs = exec-stopped d s.stopped ss same in
    (
      λ e.
          runs ∙ ap (λ b. some (round_notes ss, if b then ok 0 else fault assertion)) (safe.ends e),
      λ e.
          runs
          ∙ ap (λ b. some (round_notes ss, if b then ok 0 else fault assertion)) (safe.aborts e),
    )

-- Past the join, the thread of the service is done.
pub HasEnded-done :
    {s : System} {acts : List Action} {ss : List (Option ℕ)}
    → Run s acts ss
    → HasEnded s
    → s.thread ≡ done
HasEnded-done r over =
    let safe = Reach-IsSafe (Run-stopped r).1 in
    elim over [ inl e ↦ safe.joined (ap has_joined e) | inr e ↦ safe.joined (ap has_joined e) ]
