-- ===== src/Exchange/Device/Logged.antt =====
-- What the example device writes to its log (examples/ws-discovery/wsdd.cpp) for what its service
-- receives from the proxies of another process.
use onvifxx.Base.{
  ℕ, ◌≡◌, refl, ap, ◌∙◌, none, some, List, [], ◌∷◌, ◌++◌, map, All, append_assoc, append-nil,
}
use onvifxx.Base.Chars.{Text, codes}
use onvifxx.Base.Outcome.{Outcome, ok, ◌>>=◌}
use onvifxx.Device.Log.{Log, Stream, to_log}
use onvifxx.Device.Log.Lines.{Line, IsLine, IsIdle, message, write_line-sent}
use onvifxx.Device.Reports
use onvifxx.Device.Reports.{hello_line, bye_line}
use onvifxx.Device.Serving.{announced}
use onvifxx.Wsdd.Gsoap.{Header, Runtime, ClearsPointers}
use onvifxx.Wsdd.Proxy.{Message}
use onvifxx.Wsdd.Service.{Service, Event, called_hello, called_bye, called_probe, World}
use onvifxx.Exchange.Receiving.{receive_all}
use onvifxx.Exchange.Delivery
use onvifxx.Exchange.Delivery.{heard_all, announcements_heard}
use onvifxx.Exchange.Device.{device}
use onvifxx.Exchange.Process.{Process, Announcement, hello, bye, Call, run}

module _ (split : Text → List Text) (place : ℕ → Text) where
  -- The device's part in what happens at its service.
  pub reports : List Event → Stream → Outcome Stream
  reports [] s = ok s
  reports (called_hello a ∷ es) s = do s' ← Reports.hello place a s; reports es s'
  reports (called_bye a ∷ es) s = do s' ← Reports.bye place a s; reports es s'
  reports (called_probe a ∷ es) s = do
    r ← Reports.probe place split a (announced ∷ []) s
    reports es r.1
  reports (_ ∷ es) s = reports es s

  -- A hello with its addresses, types and scopes; a bye with none.
  abbrev pub said_line : Announcement → Line
  said_line (hello arg) = hello_line place arg
  said_line (bye arg) = record { place = place 71; priority = none; text = codes "bye(, , )" }

  reports_lem :
      (said : List Announcement) (l : Log)
      → All (λ a. IsLine (said_line a)) said
      → IsIdle l
      → reports (heard_all (device split) said) (to_log l)
        ≡ ok (to_log (record l { sent = l.sent ++ map (λ a. message (said_line a)) said }))
  unfolding reports device Reports.hello Reports.bye
  reports_lem [] l is idle = simp append-nil
  reports_lem (hello arg ∷ said) l (first, rest) idle =
      ap (λ o. o >>= reports (heard_all (device split) said)) (write_line-sent _ l first idle)
      ∙ reports_lem said (record l { sent = l.sent ++ message (said_line (hello arg)) ∷ [] }) rest
          idle
      ∙ ap (λ s. ok (to_log (record l { sent = s }))) (append_assoc l.sent _ _)
  reports_lem (bye arg ∷ said) l (first, rest) idle =
      ap (λ o. o >>= reports (heard_all (device split) said)) (write_line-sent _ l first idle)
      ∙ reports_lem said (record l { sent = l.sent ++ message (said_line (bye arg)) ∷ [] }) rest
          idle
      ∙ ap (λ s. ok (to_log (record l { sent = s }))) (append_assoc l.sent _ _)

  pub announcements_logged :
      (rt : Runtime) (clears : ClearsPointers rt) (fresh : Header)
      → rt.new_header ≡ some fresh
      → (env : World) (cs : List Call) (w : Process) (s : Service) (l : Log)
      → s.p ≡ some (device split)
      → IsIdle l
      → All (λ a. IsLine (said_line a)) (Delivery.announced cs)
      → (w' : Process) × (ms : List Message) × (s' : Service) × (es : List Event) × (run rt cs w
          ≡ ok w')
        × (w'.sent ≡ w.sent ++ ms)
        × (receive_all rt env ms s ≡ ok s')
        × (s'.events ≡ s.events ++ es)
        × (reports es (to_log l)
            ≡ ok (
                to_log (record l {
                  sent = l.sent ++ map (λ a. message (said_line a)) (Delivery.announced cs);
                })))
  announcements_logged rt clears fresh memory env cs w s l bound idle is =
      let (w', ms, ran, more, _, _, served) =
        announcements_heard rt clears fresh memory env (device split) cs w s bound in
      (w', ms, _, _, ran, more, served, refl, reports_lem (Delivery.announced cs) l is idle)
