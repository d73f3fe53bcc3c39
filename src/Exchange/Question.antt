-- ===== src/Exchange/Question.antt =====
-- A probe on its way from a proxy to a service, and the header of the answer
-- (wsdd/remotediscovery_proxy.cpp, wsdd/remotediscovery_service.cpp).
use onvifxx.Base.{
  ◌≡◌, ◌≢◌, ◌+◌, ◌%◌, ◌^◌, none, refl, ap, subst, ◌∙◌, some, List, [], ◌∷◌, ◌++◌, All, arith,
  if◌then◌else◌,
}
use onvifxx.Base.Chars.{codes}
use onvifxx.Base.Outcome.{ok, fault, dangling, missing_return, returned, thrown}
use onvifxx.Exceptions.{soap_exception, what}
use onvifxx.Wsdd.Gsoap.{Header, Runtime, ClearsPointers, is_ok}
use onvifxx.Wsdd.Matches.{Vector, empty_vector}
use onvifxx.Wsdd.Matches.Lifetime.{IsPlain}
use onvifxx.Wsdd.Messages.{Probe, ProbeMatch}
use onvifxx.Wsdd.Proxy
use onvifxx.Wsdd.Proxy.{Proxy, Message, probe_of, namespace_wsd}
use onvifxx.Wsdd.Proxy.Announce.{question, probe_sent}
use onvifxx.Wsdd.Service
use onvifxx.Wsdd.Service.{Service, Handler, called_probe, probe_arg}
use onvifxx.Wsdd.Service.Dispatch.{deliver}
use onvifxx.Wsdd.Service.Handlers.{response_header-IsAnswer, responded, bodies, probe_answered}
use onvifxx.Exchange.Receiving.{received}
use onvifxx.Wsdd.Uuid.{Random, rand_uuid, uuid_text}
use onvifxx.Wsdd.Wsa.{State, anonymous_uri}
use onvifxx.Wsdd.Wsa.Requests.{available}
use onvifxx.Wsdd.Wsa.Sequence.{instance_at}

pub rand_uuid-named : (k : _) (random : Random) → (rand_uuid k random).0 ≢ []
unfolding rand_uuid uuid_text
rand_uuid-named k random e = cc

pub probe_arg-probe_of :
    (rt : Runtime) → ClearsPointers rt → (arg : Probe) → probe_arg (probe_of rt arg) ≡ arg
unfolding probe_arg probe_of
probe_arg-probe_of rt clears arg = ground (arith, clears.probe_scopes)

-- A probe of a proxy that has a header or memory for one, and the first that a service gets, which is
-- bound to `obj`: the proxy sends a message and does not return matches, and the service asks `obj`
-- once for what the proxy was asked, where `soap_default` clears pointers. The header of its answer
-- relates to the id that the proxy has drawn, goes to the anonymous address, has the action
-- `ProbeMatches` and takes the next number of the service, under its instance. If no item has scopes or an endpoint, the answer is written with every item; if one
-- has, it is written from memory that is no longer alive.
pub probe_exchange :
    (rt : Runtime) (clears : ClearsPointers rt) (client : Proxy.World) (p : Proxy) (h : Header)
    → available rt p.wsa ≡ some h
    → (env : Service.World) (s : Service) (obj : Handler) (arg : Probe) (items : List ProbeMatch)
    → s.p ≡ some obj
    → s.matches ≡ empty_vector
    → obj.probe arg ≡ returned items
    → let m = question rt client arg h p.wsa in
      ((st : State) × (Proxy.probe rt client arg p ≡ (
          if is_ok (client.sends m)
          then fault missing_return
          else ok (
            thrown (what (soap_exception (some client.soap))),
            record { wsa = st; sent = p.sent ++ m ∷ [] },
          ))))
      × (w : State) × (answer : Header) × (w.header ≡ some answer)
      × (answer.relates_to ≡ some (record { item = (rand_uuid p.wsa.seed client.random).0 }))
      × (answer.to ≡ anonymous_uri)
      × (answer.action ≡ namespace_wsd ++ codes "/ProbeMatches")
      × (w.sequence ≡ record {
        instance_id = instance_at env.clock s.wsa;
        sequence_id = none;
        message_number = (s.wsa.message_rv + 1) % 2 ^ 32;
      })
      × (All (IsPlain rt env.grow) items
          → (v : Vector) × (deliver rt env m.body (received m s)
              ≡ ok (
                  responded rt env
                    (record s { wsa = w; events = s.events ++ called_probe arg ∷ [] })
                    v
                    (bodies rt env items))))
      × (¬ All (IsPlain rt env.grow) items → deliver rt env m.body (received m s) ≡ fault dangling)
probe_exchange rt clears client p h there env s obj arg items bound fresh asks =
    let m = question rt client arg h p.wsa in
    let same = probe_arg-probe_of rt clears arg in
    let (w, headed, answer) =
      response_header-IsAnswer rt env (received m s).wsa _ refl
        (rand_uuid-named p.wsa.seed client.random) in
    let (plain, odd) =
      probe_answered rt env (probe_of rt arg) (received m s) obj items w bound fresh headed
        (ap obj.probe same ∙ asks) in
    (
      probe_sent rt client arg p h there,
      w,
      _,
      answer.header,
      refl,
      refl,
      refl,
      answer.sequence,
      λ all.
          subst
            (λ a.
              (v : Vector) × (deliver rt env m.body (received m s)
                ≡ ok (
                    responded rt env
                      (record s { wsa = w; events = s.events ++ called_probe a ∷ [] }) v
                      (bodies rt env items))))
            same (plain all),
      odd,
    )
