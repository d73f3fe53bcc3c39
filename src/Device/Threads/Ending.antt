-- ===== src/Device/Threads/Ending.antt =====
-- How the threads come to an end.
use onvifxx.Base.{
  ℕ, ◌+◌, ◌≤◌, ◌<◌, ◌≡◌, ◌⊎◌, inl, inr, refl, sym, ◌∙◌, zero, suc, true, false, Bool-cases, arith,
}
use onvifxx.Base.{[]}
use onvifxx.Base.Outcome.{returned}
use onvifxx.Device.Serving.{Served}
use onvifxx.Device.Threads.{
  Main, running, joining, checking, ended, aborted, Thread, starting, testing, accepting, serving,
  leaving, releasing, done, System, Step, signal, signal_error, run_stopped, run_idle, join,
  checked, failed, hello_sent, hello_failed, go_on, leave, accept_failed, accepted, served, bye,
  release, Reach, later,
}
use onvifxx.Device.Threads.Invariant.{IsSafe, Reach-IsSafe}

-- Steps that are left once the loop is stopped.
abbrev main_rest : Main → ℕ
main_rest running = 3
main_rest joining = 2
main_rest checking = 1
main_rest ended = 0
main_rest aborted = 0

abbrev thread_rest : Thread → ℕ
thread_rest starting = 4
thread_rest testing = 3
thread_rest accepting = 5
thread_rest serving = 4
thread_rest leaving = 2
thread_rest releasing = 1
thread_rest done = 0

abbrev rest : System → ℕ
rest s = main_rest s.main + thread_rest s.thread

-- A step after the loop was stopped.
halted_step :
    {s t : System}
    → IsSafe s
    → s.halted ≡ true
    → Step s t
    → (t.halted ≡ true) × (t.stopped ≡ s.stopped) × (rest t < rest s)
halted_step i h (signal n among m a) = ground arith
halted_step i h (signal_error m a) = ground arith
halted_step i h (run_stopped m e) = ground arith
halted_step i h (run_idle m a w) = ground arith
halted_step i h (join m d) = ground arith
halted_step i h (checked m b) = ground arith
halted_step i h (failed m b) = ground arith
halted_step i h (hello_sent e) = ground arith
halted_step i h (hello_failed what e) = ground arith
halted_step i h (go_on e n) = ground arith
halted_step i h (leave e n) = ground arith
halted_step i h (accept_failed e) = ground arith
halted_step i h (accepted e) = ground arith
halted_step i h (served calls r e) = ground arith
halted_step i h (bye ends e) = ground arith
halted_step i h (release e) = ground arith

-- The thread can go on until it is done.
thread_step :
    (s : System) (at : Thread) → s.thread ≡ at → (s.thread ≡ done) ⊎ ((t : System) × Step s t)
thread_step s starting e = inr (_, hello_sent e)
thread_step s testing e = elim (Bool-cases s.halted) [
  | inl h ↦ inr (_, leave e h)
  | inr h ↦ inr (_, go_on e h)
]
thread_step s accepting e = inr (_, accepted e)
thread_step s serving e = inr (_, served [] Served.served e)
thread_step s leaving e = inr (_, bye (returned tt) e)
thread_step s releasing e = inr (_, release e)
thread_step s done e = inl e

abbrev pub HasEnded : System → Type 0
HasEnded s = (s.main ≡ ended) ⊎ (s.main ≡ aborted)

-- Some step is possible until the main thread has ended.
progress :
    (s : System) (at : Main) → s.main ≡ at → IsSafe s → HasEnded s ⊎ ((t : System) × Step s t)
progress s running e i = elim (thread_step s s.thread refl) [
  | inr more ↦ inr more
  | inl over ↦ elim (Bool-cases s.armed) [
    | inl a ↦ inr (_, signal_error e a)
    | inr a ↦ inr (_, run_idle e a (i.works.1 over))
  ]
]
progress s joining e i = elim (thread_step s s.thread refl) [
  | inr more ↦ inr more
  | inl over ↦ inr (_, join e over)
]
progress s checking e i = elim (Bool-cases s.stopped) [
  | inl b ↦ inr (_, checked e b)
  | inr b ↦ inr (_, failed e b)
]
progress s ended e i = inl (inl e)
progress s aborted e i = inl (inr e)

-- `n` steps.
pub data Steps : ℕ → System → System → Type 0 where
  no_steps : {s : System} → Steps 0 s s
  one_more : {n : ℕ} {s t u : System} → Step s t → Steps n t u → Steps (suc n) s u

still_halted :
    {n : ℕ} {s t : System}
    → Reach s
    → s.halted ≡ true
    → Steps n s t
    → Reach t × (t.halted ≡ true) × (t.stopped ≡ s.stopped) × (rest t + n ≤ rest s)
still_halted r h no_steps = (r, h, refl, omega arith)
still_halted r h (one_more st more) =
    let (h', same, less) = halted_step (Reach-IsSafe r) h st in
    let (r', h'', same', less') = still_halted (later r st) h' more in
    (r', h'', same' ∙ same, omega arith)

-- What a run from a state with a stopped loop ends in, with so much fuel as steps are left.
run_out :
    (fuel : ℕ) (s : System)
    → rest s ≤ fuel
    → Reach s
    → s.halted ≡ true
    → (n : ℕ) × (t : System) × Steps n s t × HasEnded t
run_out zero s few r h = elim (progress s s.main refl (Reach-IsSafe r)) [
  | inl over ↦ (0, s, no_steps, over)
  | inr (t, st) ↦ let (_, _, less) = halted_step (Reach-IsSafe r) h st in absurd (omega arith)
]
run_out (suc fuel) s few r h = elim (progress s s.main refl (Reach-IsSafe r)) [
  | inl over ↦ (0, s, no_steps, over)
  | inr (t, st) ↦
      let (h', _, less) = halted_step (Reach-IsSafe r) h st in
      let (n, u, more, over) = run_out fuel t (omega arith) (later r st) h' in
      (suc n, u, one_more st more, over)
]

rest-le : (m : Main) (t : Thread) → main_rest m + thread_rest t ≤ 8
rest-le m t = ground arith

-- From every state that the threads reach, however they are interleaved: until the main thread has
-- ended, some step is possible, of a thread or of a signal. Once the loop was stopped, at most eight
-- steps are left, whichever are taken, and some lead to the end; the end is a return of 0 only where the
-- handler has set `stopped_`, and the failed assertion only where it has not.
pub threads_end :
    (s : System)
    → Reach s
    → (HasEnded s ⊎ ((t : System) × Step s t))
      × (s.halted ≡ true
          → ((n : ℕ) (t : System)
              → Steps n s t
              → (n ≤ 8)
                × (t.main ≡ ended → s.stopped ≡ true)
                × (t.main ≡ aborted → s.stopped ≡ false))
            × ((n : ℕ) × (t : System) × Steps n s t × HasEnded t))
threads_end s r = (
  progress s s.main refl (Reach-IsSafe r),
  λ h. (
    λ n t more.
        let (r', _, same, few) = still_halted r h more in
        let safe = Reach-IsSafe r' in
        (
          omega (arith, few, rest-le s.main s.thread),
          (λ e. sym same ∙ safe.ends e),
          λ e. sym same ∙ safe.aborts e,
        ),
    run_out (rest s) s (omega arith) r h,
  ),
)
