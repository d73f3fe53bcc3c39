-- ===== src/Device/Serving/Turns.antt =====
-- What the thread of the service does in a whole run.
use onvifxx.Base.{
  sym, ◌≡◌, refl, ap, ◌∙◌, Bool, true, false, Option, none, some, List, [], ◌∷◌, ◌++◌,
  if◌then◌else◌, append_assoc, append-nil, All, Bool-cases, inl, inr,
}
use onvifxx.Base.Chars.{Text, codes}
use onvifxx.Device.Notes.{log, log_at, warning}
use onvifxx.Device.Serving.Action.{hello, bye}
use onvifxx.Base.Outcome.{Ended, returned, thrown}
use onvifxx.Device.Serving.{
  told, heard_notes, Action, tell, bind, accept, describe, destroy, drop_service, reset_work, serve,
  Heard, Served, served, no_request, failed, after_serve, Turn, requested, refused, greeting,
  parting, release, service_loop, run_service, announced,
}

-- The actions of a turn of a loop that has not been stopped.
abbrev pub turn : Turn → List Action
turn t = if t.accept_fails then refused else requested t.heard t.serves

unfoldable pub all_turns : List Turn → List Action
all_turns [] = []
all_turns (t ∷ ts) = turn t ++ all_turns ts

abbrev pub IsRunning : Turn → Type 0
IsRunning t = t.stopped ≡ false

service_loop_lem :
    (turns : List Turn) (last : Turn) (later : List Turn) (before : List Action)
    → All IsRunning turns
    → last.stopped ≡ true
    → service_loop (turns ++ last ∷ later) before ≡ some (before ++ all_turns turns)
unfolding service_loop all_turns
service_loop_lem [] last later before running stop = rw (stop, service_loop) (simp append-nil)
service_loop_lem (t ∷ turns) last later before (now, rest) stop = elim (Bool-cases t.accept_fails) [
  | inl fails ↦
      rw (now, service_loop)
        (rw (fails, service_loop)
          (service_loop_lem turns last later (before ++ refused) rest stop
            ∙ ap some (append_assoc before refused _)))
  | inr works ↦
      let acts = requested t.heard t.serves in
      rw (now, service_loop)
        (rw (works, service_loop)
          (service_loop_lem turns last later (before ++ acts) rest stop
            ∙ ap some (append_assoc before acts _)))
]

-- A run that says hello and is stopped after any turns, and one whose hello throws.
pub run_service_turns :
    (turns : List Turn) (last : Turn) (later : List Turn) (bye_ends : Ended (Unit {0}))
    (text : Text)
    → All IsRunning turns
    → last.stopped ≡ true
    → (run_service (returned tt) bye_ends (turns ++ last ∷ later)
        ≡ some (greeting ++ all_turns turns ++ (parting bye_ends ++ release)))
      × (run_service (thrown text) bye_ends (turns ++ last ∷ later)
          ≡ some (
              tell (log 126 (codes "Sending hello"))
              ∷ hello announced
              ∷ tell (log_at warning 176 text)
              ∷ release))
unfolding run_service
run_service_turns turns last later bye_ends text running stop = (
  ap
      (λ o. elim o as (λ _. Option (List Action)) [
        | none ↦ none
        | some acts ↦ some (acts ++ (parting bye_ends ++ release))
      ])
      (service_loop_lem turns last later greeting running stop),
  refl,
)

-- What a turn of the loop does, by what `accept` and `serve` return.
abbrev pub turn_actions : Bool → List Heard → Served → List Action
turn_actions true _ _ =
    tell (log 151 (codes "Accept"))
    ∷ accept
    ∷ tell (log_at warning 153 (codes "Accept failed"))
    ∷ []
turn_actions false calls served =
    tell (log 151 (codes "Accept"))
    ∷ accept
    ∷ tell (log 157 (codes "Serve"))
    ∷ serve calls
    ∷ tell (log 168 (codes "Clear"))
    ∷ destroy
    ∷ []
turn_actions false calls no_request =
    tell (log 151 (codes "Accept"))
    ∷ accept
    ∷ tell (log 157 (codes "Serve"))
    ∷ serve calls
    ∷ tell (log 164 (codes "."))
    ∷ []
turn_actions false calls (failed what) =
    tell (log 151 (codes "Accept"))
    ∷ accept
    ∷ tell (log 157 (codes "Serve"))
    ∷ serve calls
    ∷ describe
    ∷ tell (log_at warning 161 (codes "Serve failed :" ++ what))
    ∷ tell (log 164 (codes "."))
    ∷ []

abbrev pub all_turn_actions : List Turn → List Action
all_turn_actions [] = []
all_turn_actions (t ∷ ts) = turn_actions t.accept_fails t.heard t.serves ++ all_turn_actions ts

-- What follows the last turn, by how `bye` of the proxy ends.
abbrev pub last_actions : Ended (Unit {0}) → List Action
last_actions (returned u) =
    drop_service
    ∷ bye announced
    ∷ tell (log 179 (codes "The service loop stopped"))
    ∷ reset_work
    ∷ []
last_actions (thrown what) =
    drop_service
    ∷ bye announced
    ∷ tell (log_at warning 176 what)
    ∷ tell (log 179 (codes "The service loop stopped"))
    ∷ reset_work
    ∷ []

turn-turn_actions :
    (fails : Bool) (calls : List Heard) (serves : Served)
    → (if fails then refused else requested calls serves) ≡ turn_actions fails calls serves
unfolding requested after_serve
turn-turn_actions true calls _ = refl
turn-turn_actions false calls served = refl
turn-turn_actions false calls no_request = refl
turn-turn_actions false calls (failed what) = refl

all_turns-all_turn_actions : (turns : List Turn) → all_turns turns ≡ all_turn_actions turns
unfolding all_turns
all_turns-all_turn_actions [] = refl
all_turns-all_turn_actions (t ∷ ts) =
    ap (λ l. l ++ all_turns ts) (turn-turn_actions t.accept_fails t.heard t.serves)
    ∙ ap (λ l. turn_actions t.accept_fails t.heard t.serves ++ l) (all_turns-all_turn_actions ts)

last-last_actions : (ends : Ended (Unit {0})) → parting ends ++ release ≡ last_actions ends
last-last_actions (returned u) = refl
last-last_actions (thrown what) = refl

-- A run that says hello and is stopped after any turns: "Sending hello", hello with what the device is,
-- "Starting the service loop" and bind; then the turns in order; then the service is dropped, bye is
-- said with the same, what bye throws is written as a warning, and with "The service loop stopped" the
-- main loop is released. In a turn comes "Accept" and accept; if that fails, a warning; else "Serve"
-- and serve, and then "Clear" and destroy, or a dot, before which an error that is not -1 is described
-- in a warning. If hello throws, that is written as a warning, and the main loop is released: nothing
-- is bound, and no bye is said.
pub run_service_lem :
    (turns : List Turn) (last : Turn) (later : List Turn) (bye_ends : Ended (Unit {0}))
    (text : Text)
    → All IsRunning turns
    → last.stopped ≡ true
    → (run_service (returned tt) bye_ends (turns ++ last ∷ later)
        ≡ some (
            tell (log 126 (codes "Sending hello"))
            ∷ hello announced
            ∷ tell (log 146 (codes "Starting the service loop"))
            ∷ bind
            ∷ (all_turn_actions turns ++ last_actions bye_ends)))
      × (run_service (thrown text) bye_ends (turns ++ last ∷ later)
          ≡ some (
              tell (log 126 (codes "Sending hello"))
              ∷ hello announced
              ∷ tell (log_at warning 176 text)
              ∷ tell (log 179 (codes "The service loop stopped"))
              ∷ reset_work
              ∷ []))
run_service_lem turns last later bye_ends text running stop =
    let (whole, thrown_first) = run_service_turns turns last later bye_ends text running stop in
    (
      whole
          ∙ ap (λ l. some (greeting ++ l ++ (parting bye_ends ++ release)))
              (all_turns-all_turn_actions turns)
          ∙ ap (λ l. some (greeting ++ all_turn_actions turns ++ l)) (last-last_actions bye_ends),
      thrown_first,
    )

pub told-append : (xs ys : List Action) → told (xs ++ ys) ≡ told xs ++ told ys
unfolding told
told-append [] ys = refl
told-append (Action.tell n ∷ xs) ys = ap (λ l. n ∷ l) (told-append xs ys)
told-append (Action.serve calls ∷ xs) ys =
    ap (λ l. heard_notes calls ++ l) (told-append xs ys)
    ∙ sym (append_assoc (heard_notes calls) (told xs) (told ys))
told-append (Action.hello a ∷ xs) ys = told-append xs ys
told-append (Action.bye a ∷ xs) ys = told-append xs ys
told-append (Action.bind ∷ xs) ys = told-append xs ys
told-append (Action.accept ∷ xs) ys = told-append xs ys
told-append (Action.describe ∷ xs) ys = told-append xs ys
told-append (Action.destroy ∷ xs) ys = told-append xs ys
told-append (Action.drop_service ∷ xs) ys = told-append xs ys
told-append (Action.reset_work ∷ xs) ys = told-append xs ys
