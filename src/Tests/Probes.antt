-- ===== src/Tests/Probes.antt =====
-- A probe on its way, and its answer.
use onvifxx.Base.{◌≡◌, refl, true, none, some, [], ◌∷◌, ◌++◌, All}
use onvifxx.Base.Chars.{codes}
use onvifxx.Base.Outcome.{ok, fault, dangling, missing_return, returned}
use onvifxx.Exchange.Receiving.{received}
use onvifxx.Exchange.Device.{Wants, device, device_answers}
use onvifxx.Exchange.Question.{probe_exchange}
use onvifxx.Wsdd.Gsoap.{Header, WsdProbe}
use onvifxx.Wsdd.Matches.{Vector, empty_vector}
use onvifxx.Wsdd.Matches.Lifetime.{IsPlain}
use onvifxx.Wsdd.Messages.{Probe, ProbeMatch}
use onvifxx.Wsdd.Proxy
use onvifxx.Wsdd.Proxy.{Proxy, Body, Message, namespace_wsd}
use onvifxx.Wsdd.Proxy.Announce.{question}
use onvifxx.Wsdd.Service.{Handler, called_probe, probe, probe_arg}
use onvifxx.Wsdd.Service.Dispatch.{deliver}
use onvifxx.Wsdd.Service.Handlers.{bodies, responded, response_header-IsAnswer}
use onvifxx.Wsdd.Uuid.{first_seed, rand_uuid}
use onvifxx.Wsdd.Wsa.{State, anonymous_uri}
use onvifxx.Tests.Data.{rt, clears, random, header, with_header, item}
use onvifxx.Tests.Network.{at, handler, env, service, whole}

-- A probe for the scopes of a place, and a match with nothing that a pointer would lead to.
abbrev asked : Probe
asked = record {
  types = none;
  scopes =
      some (record { item = codes "onvif://www.onvif.org/location/Anywhere"; match_by = none });
}

abbrev found : ProbeMatch
found = record item { endpoint = none }

abbrev finder : Handler
finder = record handler { probe = λ arg. returned (found ∷ []) }

abbrev client : Proxy
client = record { wsa = with_header none; sent = [] }

probe_exchange_example :
    let m = question rt (at 100) asked header (with_header none) in
    ((st : State) × (Proxy.probe rt (at 100) asked client ≡ fault missing_return))
    × (w : State) × (answer : Header) × (w.header ≡ some answer)
    × (answer.relates_to ≡ some (record { item = (rand_uuid first_seed random).0 }))
    × (answer.to ≡ anonymous_uri)
    × (answer.action ≡ namespace_wsd ++ codes "/ProbeMatches")
    × (w.sequence ≡ record { instance_id = 100; sequence_id = none; message_number = 1 })
    × (All (IsPlain rt env.grow) (found ∷ [])
        → (v : Vector) × (deliver rt env m.body (received m (service finder))
            ≡ ok (
                responded rt env
                  (record (service finder) { wsa = w; events = called_probe asked ∷ [] })
                  v
                  (bodies rt env (found ∷ [])))))
    × (¬ All (IsPlain rt env.grow) (found ∷ [])
        → deliver rt env m.body (received m (service finder)) ≡ fault dangling)
probe_exchange_example =
    probe_exchange rt clears (at 100) client header refl env (service finder) finder asked
      (found ∷ []) refl refl refl

abbrev message : WsdProbe
message = record { types = none; scopes = none }

abbrev answered : State
answered = (response_header-IsAnswer rt env (with_header (some header)) header refl λ e. cc).0

device_says :
    (Wants whole (probe_arg message)
      → probe rt env (some message) true (service (device whole)) ≡ fault dangling)
    × (¬ Wants whole (probe_arg message)
        → probe rt env (some message) true (service (device whole))
          ≡ ok (
              responded rt env
                (record (service (device whole)) {
                  wsa = answered;
                  events = called_probe (probe_arg message) ∷ [];
                })
                empty_vector
                []))
device_says =
    device_answers whole rt env message (service (device whole)) answered refl refl
      (response_header-IsAnswer rt env (with_header (some header)) header refl λ e. cc).1
