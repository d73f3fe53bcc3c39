-- ===== src/Device/Threads/Runs/Realised.antt =====
-- Every run of `runService` (examples/ws-discovery/wsdd.cpp) among those of the two threads.
use mathlib.Core.List.Memᴰ
use mathlib.Core.Option.{some-injective}
use onvifxx.Base.{
  ℕ, ◌≡◌, refl, sym, ap, subst, ◌∙◌, Bool, true, false, Option, none, some, List, [], ◌∷◌, ◌++◌,
  append_assoc, append-nil, if◌then◌else◌, Bool-cases, inl, inr, ◌↔◌,
}
use onvifxx.Base.Outcome.{ok, fault, assertion, returned, thrown}
use onvifxx.Base.Chars.{codes}
use onvifxx.Base.Outcome.{Ended}
use onvifxx.Device.Main.{round_notes, exec}
use onvifxx.Device.Notes.{log}
use onvifxx.Device.Serving
use onvifxx.Device.Serving.{
  Action, accept, tell, Turn, accept_note, requested, greeting, parting, service_loop, run_service,
}
use onvifxx.Device.Threads.{
  running, ended, aborted, Thread, testing, leaving, done, System, init, signal, hello_sent,
  hello_failed, go_on, leave, accept_failed, accepted, served, bye, release,
}
use onvifxx.Device.Threads.Runs.{Run, begin, next, actions, signals, IsRun, Did, Run-Did}
use onvifxx.Device.Threads.Runs.Exec.{round_of, Run-exec}

if-true : {b : Bool} (o p : Option (List Action)) → b ≡ true → (if b then o else p) ≡ o
if-true o p e = ap (λ b. if b then o else p) e

if-false : {b : Bool} (o p : Option (List Action)) → b ≡ false → (if b then o else p) ≡ p
if-false o p e = ap (λ b. if b then o else p) e

-- The main thread waits, and the handler may be called.
record IsOpen (s : System) : Type 0 where
  main : s.main ≡ running
  armed : s.armed ≡ true
  halted : s.halted ≡ false

-- A run that ends at a place of the thread.
abbrev pub RunsTo : Thread → List Action → Type 0
RunsTo at acts = (s : System) × (ss : List (Option ℕ)) × Run s acts ss × (s.thread ≡ at)

-- Where the loop ends with `out`, so may the thread.
loop_runs :
    (ts : List Turn) (s : System) (acts out : List Action) (ss : List (Option ℕ))
    → Run s acts ss
    → s.thread ≡ testing
    → IsOpen s
    → service_loop ts acts ≡ some out
    → RunsTo leaving out
unfolding service_loop actions signals requested
loop_runs [] s acts out ss r at free q = cc
loop_runs (turn ∷ ts) s acts out ss r at free q = elim (Bool-cases turn.stopped) [
  | inl end ↦
      let same : acts ≡ out = some-injective _ _ (sym (if-true _ _ end) ∙ q) in
      let halted_run =
        next r (signal 2 (Memᴰ.tail (Memᴰ.head refl)) free.main free.armed) (sym (append-nil acts))
          refl in
      (_, _, next halted_run (leave at refl) (sym same ∙ sym (append-nil acts)) refl, refl)
  | inr more ↦
      let q' = sym (if-false _ _ more) ∙ q in
      let begun = next r (go_on at free.halted) refl refl in
      elim (Bool-cases turn.accept_fails) [
        | inl fails ↦
            loop_runs ts _ _ out _
              (next begun (accept_failed refl) (sym (append_assoc acts (tell accept_note ∷ []) _))
                refl)
              refl (record { main = free.main; armed = free.armed; halted = free.halted })
              (sym (if-true _ _ fails) ∙ q')
        | inr accepts ↦
            loop_runs ts _ _ out _
              (next
                (next begun (accepted refl) (sym (append_assoc acts (tell accept_note ∷ []) _))
                  refl)
                (served turn.heard turn.serves refl)
                (sym (
                  append_assoc acts
                    (tell accept_note ∷ accept ∷ tell (log 157 (codes "Serve")) ∷ []) _))
                refl)
              refl (record { main = free.main; armed = free.armed; halted = free.halted })
              (sym (if-false _ _ accepts) ∙ q')
      ]
]

-- The bye and the release behind the loop.
ends_run :
    (ends : Ended (Unit {0})) (ts : List Turn) (o : Option (List Action)) (acts : List Action)
    → service_loop ts greeting ≡ o
    → (elim o as (λ _. Option (List Action)) [
      | none ↦ none
      | some log ↦ some (log ++ (parting ends ++ Serving.release))
    ])
      ≡ some acts
    → RunsTo done acts
unfolding actions signals
ends_run ends ts none acts looped q = cc
ends_run ends ts (some log) acts looped q =
    let begun : Run (record init { thread = testing }) greeting [] =
      next begin (hello_sent refl) refl refl in
    let free : IsOpen (record init { thread = testing }) = record {
      main = refl;
      armed = refl;
      halted = refl;
    } in
    let (s, ss, r, at) = loop_runs ts _ _ log [] begun refl free looped in
    (
      _,
      _,
      next (next r (bye ends at) refl refl) (release refl)
          (sym (some-injective _ _ q) ∙ sym (append_assoc log (parting ends) Serving.release)) refl,
      refl,
    )

run-realised : (acts : List Action) → IsRun acts → RunsTo done acts
unfolding run_service actions signals
run-realised acts (thrown e, b, ts, q) = (
  _,
  _,
  next (next begin (hello_failed e refl) refl refl) (release refl) (sym (some-injective _ _ q))
      refl,
  refl,
)
run-realised acts (returned u, b, ts, q) = ends_run b ts _ acts refl q

pub Run-done :
    {s : System} {acts : List Action} {ss : List (Option ℕ)}
    → Run s acts ss
    → s.thread ≡ done
    → IsRun acts
Run-done {acts = acts} r over = subst (λ at. Did at acts) over (Run-Did r)

-- The actions of the service's thread, in the runs of the two threads that it is done in, are exactly
-- those of the runs of `runService`: whatever the main thread and the handler do meanwhile, it does
-- nothing else, and any run of its own may come about, what is written to the log included. And where the
-- main thread has ended, it has ended as `exec` does with the calls of the handler: with 0, or with the
-- failed assertion, and with the lines that `exec` and the handler write.
pub threads_refine :
    (acts : List Action)
    → (IsRun acts ↔ RunsTo done acts)
      × ((s : System) (ss : List (Option ℕ)) (d : Bool)
          → Run s acts ss
          → (s.main ≡ ended → exec d none (round_of ss ∷ []) ≡ some (round_notes ss, ok 0))
            × (s.main ≡ aborted
                → exec d none (round_of ss ∷ []) ≡ some (round_notes ss, fault assertion)))
threads_refine acts =
    ((run-realised acts, λ (s, ss, r, over). Run-done r over), λ s ss d r. Run-exec r d)
