-- ===== src/Device/Threads/Told.antt =====
-- What the thread of the service writes to the log (examples/ws-discovery/wsdd.cpp): whole lines.
use onvifxx.Base.{ℕ, ◌≡◌, refl, sym, subst, true, Option, List, [], ◌∷◌, All, All-append}
use onvifxx.Base.Outcome.{Ended}
use onvifxx.Device.Notes.{Note}
use onvifxx.Device.Serving.Turns.{told-append}
use onvifxx.Device.Serving.{Action, Heard, heard_notes, Served, told, after_serve}
use onvifxx.Device.Threads.{
  System, Step, signal, signal_error, run_stopped, run_idle, join, checked, failed, hello_sent,
  hello_failed, go_on, leave, accept_failed, accepted, served, bye, release,
}
use onvifxx.Device.Threads.Runs.{Run, begin, next, actions}

-- Whole lines.
abbrev pub IsEnded : Note → Type 0
IsEnded n = n.ends ≡ true

heard-IsEnded : (calls : List Heard) → All IsEnded (heard_notes calls)
heard-IsEnded [] = tt
heard-IsEnded (Heard.hello arg ∷ calls) = (refl, heard-IsEnded calls)
heard-IsEnded (Heard.bye arg ∷ calls) = (refl, heard-IsEnded calls)
heard-IsEnded (Heard.probe arg ∷ calls) = (refl, heard-IsEnded calls)

after_serve-IsEnded : (r : Served) → All IsEnded (told (after_serve r))
unfolding told after_serve
after_serve-IsEnded Served.served = (refl, tt)
after_serve-IsEnded Served.no_request = (refl, tt)
after_serve-IsEnded (Served.failed what) = (refl, (refl, tt))

-- Each note of the thread is a whole line.
Step-IsEnded : {s t : System} (st : Step s t) → All IsEnded (told (actions st))
unfolding actions told
Step-IsEnded (signal n among m a) = tt
Step-IsEnded (signal_error m a) = tt
Step-IsEnded (run_stopped m h) = tt
Step-IsEnded (run_idle m a w) = tt
Step-IsEnded (join m d) = tt
Step-IsEnded (checked m b) = tt
Step-IsEnded (failed m b) = tt
Step-IsEnded (hello_sent e) = (refl, (refl, tt))
Step-IsEnded (hello_failed what e) = (refl, (refl, tt))
Step-IsEnded (go_on e n) = (refl, tt)
Step-IsEnded (leave e n) = tt
Step-IsEnded (accept_failed e) = (refl, tt)
Step-IsEnded (accepted e) = (refl, tt)
Step-IsEnded (served calls r e) =
    All-append IsEnded (heard_notes calls) (told (after_serve r)) (heard-IsEnded calls)
      (after_serve-IsEnded r)
Step-IsEnded (bye (Ended.returned u) e) = tt
Step-IsEnded (bye (Ended.thrown what) e) = (refl, tt)
Step-IsEnded (release e) = (refl, tt)

pub told-IsEnded :
    {s : System} {acts : List Action} {ss : List (Option ℕ)}
    → Run s acts ss
    → All IsEnded (told acts)
unfolding told
told-IsEnded begin = tt
told-IsEnded (next {acts} r st same _) =
    subst (λ acts. All IsEnded (told acts)) (sym same)
      (subst (All IsEnded) (sym (told-append acts (actions st)))
        (All-append IsEnded (told acts) (told (actions st)) (told-IsEnded r) (Step-IsEnded st)))
