-- ===== src/Device/Threads/Runs.antt =====
-- What the thread of the service does, against `runService` (examples/ws-discovery/wsdd.cpp).
pub mod Exec
pub mod Realised
use onvifxx.Base.{
  ℕ, ◌≡◌, refl, sym, ap, subst, ◌∙◌, Bool, true, false, Option, none, some, List, [], ◌∷◌, ◌++◌,
  append_assoc, append-nil, if◌then◌else◌, ◌&&◌,
}
use onvifxx.Base.Outcome.{Outcome, ok, fault, assertion, Ended, returned, thrown}
use onvifxx.Device.Main.{Round, handle_all, signal_handler, exec, exec_loop}
use onvifxx.Device.Notes.{log, log_at, warning}
use onvifxx.Device.Serving
use onvifxx.Device.Serving.{
  Action, bind, accept, serve, tell, Turn, Served, after_serve, accept_note, refused, requested,
  greeting, failed_greeting, parting, service_loop, run_service, announced,
}
use onvifxx.Base.Chars.{codes}
use onvifxx.Device.Threads.{
  Main, running, joining, checking, ended, aborted, Thread, starting, testing, accepting, serving,
  leaving, releasing, done, System, init, Step, signal, signal_error, run_stopped, run_idle, join,
  checked, failed, hello_sent, hello_failed, go_on, leave, accept_failed, accepted, served, bye,
  release, Reach, start, later,
}
use onvifxx.Device.Threads.Invariant.{Reach-IsSafe}

-- What the thread of the service does in a step.
unfoldable pub actions : {s t : System} → Step s t → List Action
actions (hello_sent e) = greeting
actions (hello_failed what e) = failed_greeting what
actions (go_on e n) = tell accept_note ∷ []
actions (accept_failed e) = accept ∷ tell (log_at warning 153 (codes "Accept failed")) ∷ []
actions (accepted e) = accept ∷ tell (log 157 (codes "Serve")) ∷ []
actions (served calls r e) = serve calls ∷ after_serve r
actions (bye ends e) = parting ends
actions (release e) = Serving.release
actions _ = []

-- The calls of the signal handler in a step.
unfoldable pub signals : {s t : System} → Step s t → List (Option ℕ)
signals (signal n among m a) = some n ∷ []
signals (signal_error m a) = none ∷ []
signals _ = []

-- Steps from the start to a state, with what was done on the way.
pub data Run : System → List Action → List (Option ℕ) → Type 0 where
  begin : Run init [] []
  next :
      {s t : System} {acts acts' : List Action} {ss ss' : List (Option ℕ)}
      → Run s acts ss
      → (st : Step s t) → acts' ≡ acts ++ actions st
      → ss' ≡ ss ++ signals st
      → Run t acts' ss'

-- Some turns of the loop lead to `acts`.
abbrev pub Looped : List Action → Type 0
Looped acts =
    (ts : List Turn) × ((more : List Turn)
      → service_loop (ts ++ more) greeting ≡ service_loop more acts)

abbrev pub IsRun : List Action → Type 0
IsRun acts =
    (hello_ends bye_ends : Ended (Unit {0})) × (ts : List Turn) × (run_service hello_ends bye_ends
        ts
      ≡ some acts)

-- From the test of the loop to `serve`.
abbrev asked : List Action
asked = tell accept_note ∷ accept ∷ tell (log 157 (codes "Serve")) ∷ []

-- What the thread has done, by where it stands.
abbrev pub Did : Thread → List Action → Type 0
Did starting acts = acts ≡ []
Did testing acts = Looped acts
Did accepting acts =
    (before : List Action) × Looped before × (acts ≡ before ++ tell accept_note ∷ [])
Did serving acts = (before : List Action) × Looped before × (acts ≡ before ++ asked)
Did leaving acts = (ts : List Turn) × (service_loop ts greeting ≡ some acts)
Did releasing acts = IsRun (acts ++ Serving.release)
Did done acts = IsRun acts

-- One more turn.
another :
    (turn : Turn) (acts acts' : List Action)
    → ((more : List Turn) → service_loop (turn ∷ more) acts ≡ service_loop more acts')
    → Looped acts
    → Looped acts'
another turn acts acts' goes (ts, looped) = (
  ts ++ turn ∷ [],
  λ more.
      ap (λ l. service_loop l greeting) (append_assoc ts (turn ∷ []) more)
      ∙ looped (turn ∷ more)
      ∙ goes more,
)

-- A step in which the thread does nothing, and one from a place that is known.
stays : (at : Thread) (acts : List Action) → Did at acts → Did at (acts ++ [])
stays at acts = subst (Did at) (sym (append-nil acts))

moved : {at here : Thread} (acts : List Action) → at ≡ here → Did at acts → Did here acts
moved acts = subst (λ at. Did at acts)

-- More behind what was done from a point on.
continued :
    (before begun more acts : List Action)
    → acts ≡ before ++ begun
    → before ++ (begun ++ more) ≡ acts ++ more
continued before begun more acts same =
    sym (append_assoc before begun more) ∙ ap (λ l. l ++ more) (sym same)

Step-Did :
    {s t : System} (acts : List Action) (st : Step s t)
    → Did s.thread acts
    → Did t.thread (acts ++ actions st)
unfolding actions service_loop run_service requested
Step-Did {s} acts (signal n among m a) did = stays s.thread acts did
Step-Did {s} acts (signal_error m a) did = stays s.thread acts did
Step-Did {s} acts (run_stopped m h) did = stays s.thread acts did
Step-Did {s} acts (run_idle m a w) did = stays s.thread acts did
Step-Did {s} acts (join m d) did = stays s.thread acts did
Step-Did {s} acts (checked m b) did = stays s.thread acts did
Step-Did {s} acts (failed m b) did = stays s.thread acts did
Step-Did acts (hello_sent e) did =
    let nothing : acts ≡ [] = moved acts e did in
    subst Looped (ap (λ l. l ++ greeting) (sym nothing)) ([], λ more. refl)
Step-Did acts (hello_failed what e) did =
    let nothing : acts ≡ [] = moved acts e did in
    (
      thrown what,
      returned tt,
      [],
      ap (λ l. some ((l ++ failed_greeting what) ++ Serving.release)) (sym nothing),
    )
Step-Did acts (go_on e n) did = (acts, moved acts e did, refl)
Step-Did acts (leave e n) did =
    let (ts, looped) : Looped acts = moved acts e did in
    (
      ts
          ++ record { stopped = true; accept_fails = false; heard = []; serves = Served.served }
            ∷ [],
      looped _ ∙ ap some (sym (append-nil acts)),
    )
Step-Did acts (accept_failed e) did =
    let (before, looped, same) : Did accepting acts = moved acts e did in
    let fails : Turn = record {
      stopped = false;
      accept_fails = true;
      heard = [];
      serves = Served.served;
    } in
    subst Looped (continued before _ _ _ same)
      (another fails before (before ++ refused) (λ more. refl) looped)
Step-Did acts (accepted e) did =
    let (before, looped, same) : Did accepting acts = moved acts e did in
    (before, looped, sym (continued before _ _ _ same))
Step-Did acts (served calls r e) did =
    let (before, looped, same) : Did serving acts = moved acts e did in
    let serves : Turn = record {
      stopped = false;
      accept_fails = false;
      heard = calls;
      serves = r;
    } in
    subst Looped (continued before _ _ _ same)
      (another serves before (before ++ requested calls r) (λ more. refl) looped)
Step-Did acts (bye ends e) did =
    let (ts, looped) : Did leaving acts = moved acts e did in
    (
      returned tt,
      ends,
      ts,
      ap
            (λ o. elim o as (λ _. Option (List Action)) [
              | none ↦ none
              | some acts ↦ some (acts ++ (parting ends ++ Serving.release))
            ])
            looped
          ∙ ap some (sym (append_assoc acts (parting ends) Serving.release)),
    )
Step-Did acts (release e) did = moved acts e did

pub Run-Did :
    {s : System} {acts : List Action} {ss : List (Option ℕ)} → Run s acts ss → Did s.thread acts
Run-Did begin = refl
Run-Did {s} (next {acts} r st same _) =
    subst (Did s.thread) (sym same) (Step-Did acts st (Run-Did r))
