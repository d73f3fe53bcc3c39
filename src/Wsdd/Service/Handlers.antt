-- ===== src/Wsdd/Service/Handlers.antt =====
-- What a service answers to a probe.
use onvifxx.Base.{
  ℕ, ◌+◌, ◌%◌, ◌^◌, ◌≡◌, ◌≢◌, refl, ap, ◌∙◌, true, none, some, List, [], ◌∷◌, ◌++◌, map, arith,
  if◌then◌else◌, length, All,
}
use onvifxx.Base.Chars.{codes}
use onvifxx.Base.Outcome.{Outcome, ok, fault, dangling, Ended, returned, thrown, ◌>>=◌, deref}
use onvifxx.Wsdd.Gsoap.{Code, soap_user_error, Header, WsdMatch, WsdProbe, Runtime}
use onvifxx.Wsdd.Matches.{Vector, empty_vector, reserve, fill, serialize}
use onvifxx.Wsdd.Matches.Lifetime.{IsPlain, filled, first_response}
use onvifxx.Wsdd.Messages.{ProbeMatch, request_of}
use onvifxx.Wsdd.Proxy.{namespace_wsd}
use onvifxx.Wsdd.Service.Output.{write_response}
use onvifxx.Wsdd.Service.{
  Service, Handler, called_probe, wrote, World, probe_arg, response_header, respond, probe,
}
use onvifxx.Wsdd.Uuid.{rand_uuid}
use onvifxx.Wsdd.Wsa.{State, anonymous_uri, request, add_relates_to, add_app_sequence}
use onvifxx.Wsdd.Wsa.Addressing.{add_relates_to_lem}
use onvifxx.Wsdd.Wsa.Requests.{request-IsRequested}
use onvifxx.Wsdd.Wsa.Sequence.{instance_at, add_app_sequence-after}

module _ (rt : Runtime) (env : World) where
  -- The header that answers a message with header `h`.
  pub record IsAnswer (h : Header) (s s' : State) : Type 0 where
    pub header :
        s'.header
        ≡ some (record {
          message_id = (rand_uuid s.seed env.random).0;
          relates_to = some (record { item = h.message_id });
          from = none;
          reply_to = none;
          fault_to = none;
          to = anonymous_uri;
          action = namespace_wsd ++ codes "/ProbeMatches";
          app_sequence = true;
        })
    pub sequence : s'.sequence ≡ record {
      instance_id = instance_at env.clock s;
      sequence_id = none;
      message_number = (s.message_rv + 1) % 2 ^ 32;
    }
    pub number : s'.message_rv ≡ (s.message_rv + 1) % 2 ^ 32
    pub instance' : s'.instance_rv ≡ some (instance_at env.clock s)

  -- Where the probe came with a header that has a message id, the header of the response relates to
  -- that id, goes to the anonymous address under a new id, and carries the next number.
  pub response_header-IsAnswer :
      (s : State) (h : Header)
      → s.header ≡ some h
      → h.message_id ≢ []
      → (s' : State) × (response_header rt env s ≡ ok s') × IsAnswer h s s'
  unfolding response_header
  response_header-IsAnswer s h e named =
      let (r, asked, filled, _) =
        request-IsRequested rt env.random [] (namespace_wsd ++ codes "/ProbeMatches") s h
          (ground (arith, e)) in
      let related = add_relates_to_lem rt r.1 _ h.message_id filled.header named in
      let number = (λ (w : State). add_app_sequence env.clock none w) in
      let relate =
        (λ (h : Header) (w : State). add_relates_to rt h.message_id w >>= λ r. number r.1) in
      let added =
        add_app_sequence-after env.clock none _
          (record (r.1) {
            header = some (record {
              message_id = (rand_uuid s.seed env.random).0;
              relates_to = some (record { item = h.message_id });
              from = none;
              reply_to = none;
              fault_to = none;
              to = anonymous_uri;
              action = namespace_wsd ++ codes "/ProbeMatches";
              app_sequence = h.app_sequence;
            });
          })
          refl in
      (
        _,
        ap
              (λ o. deref o >>= λ h.
                request rt env.random [] (namespace_wsd ++ codes "/ProbeMatches") s >>= λ r.
                relate h r.1)
              e
            ∙ ap (λ o. o >>= λ r. relate h r.1) asked
            ∙ ap (λ o. o >>= λ r. number r.1) related
            ∙ added,
        record {
          header = refl;
          sequence = λ i. record {
            instance_id = elim (filled.instance' i) [ none ↦ env.clock % 2 ^ 32 | some i ↦ i ];
            sequence_id = none;
            message_number = (filled.number i + 1) % 2 ^ 32;
          };
          number = λ i. (filled.number i + 1) % 2 ^ 32;
          instance' =
              λ i. some (elim (filled.instance' i) [ none ↦ env.clock % 2 ^ 32 | some i ↦ i ]);
        },
      )

  -- What is left of a probe once its response was read as `body`.
  abbrev pub responded : Service → Vector → List (WsdMatch × ℕ) → Ended Code × Service
  responded s v body =
      let (done, calls) = write_response env.fails env.counts_length in
      (
        returned (if done then soap_user_error else env.output_error),
        record s { matches = v; events = s.events ++ wrote calls body ∷ [] },
      )

  abbrev pub bodies : List ProbeMatch → List (WsdMatch × ℕ)
  bodies items = map (λ item. (request_of rt item, item.version)) items

  respond_first :
      (items : List ProbeMatch) (s : Service)
      → s.matches ≡ empty_vector
      → (All (IsPlain rt env.grow) items
          → respond rt env items s ≡ ok (responded s (filled rt env.grow items).0 (bodies items)))
        × (¬ All (IsPlain rt env.grow) items → respond rt env items s ≡ fault dangling)
  unfolding respond
  respond_first items s fresh =
      let end = (λ (v : Vector) (o : Outcome (List (WsdMatch × ℕ))).
        o >>= λ body. ok (responded s v body)) in
      let (_, _, plain, odd) = first_response rt env.grow items in
      let written =
        ap
          (λ m.
            let r = fill rt env.grow items (reserve (length items) m) [] in
            end r.0 (serialize r.0 r.1))
          fresh in
      (
        λ all. written ∙ ap (end (filled rt env.grow items).0) (plain all),
        λ other. written ∙ ap (end (filled rt env.grow items).0) (odd other),
      )

  -- The vector behind the first probe is that of the items alone.
  pub probe-filled :
      (m : WsdProbe) (s : Service) (obj : Handler) (items : List ProbeMatch) (w : State)
      → s.p ≡ some obj
      → s.matches ≡ empty_vector
      → response_header rt env s.wsa ≡ ok w
      → obj.probe (probe_arg m) ≡ returned items
      → (All (IsPlain rt env.grow) items
          → probe rt env (some m) true s
            ≡ ok (
                responded
                  (record s { wsa = w; events = s.events ++ called_probe (probe_arg m) ∷ [] })
                  (filled rt env.grow items).0
                  (bodies items)))
        × (¬ All (IsPlain rt env.grow) items → probe rt env (some m) true s ≡ fault dangling)
  unfolding probe
  probe-filled m s obj items w bound fresh answered asked =
      let called = record s { wsa = w; events = s.events ++ called_probe (probe_arg m) ∷ [] } in
      let (plain, odd) = respond_first items called fresh in
      let reply : Service → Ended (List ProbeMatch) → Outcome (Ended Code × Service) = (λ called e.
        elim e [
          | thrown e ↦ ok (thrown e, called)
          | returned items ↦ respond rt env items called
        ]) in
      let ask : Handler → Outcome State → Outcome (Ended Code × Service) = (λ obj o. o >>= λ w.
      reply (record s { wsa = w; events = s.events ++ called_probe (probe_arg m) ∷ [] })
        (obj.probe (probe_arg m))) in
      let run : probe rt env (some m) true s ≡ respond rt env items called =
        ap
          (λ p. elim p [
            | none ↦ ok (returned soap_user_error, s)
            | some obj ↦ ask obj (response_header rt env s.wsa)
          ])
          bound
        ∙ ap (ask obj) answered
        ∙ ap (reply called) asked in
      (λ all. run ∙ plain all, λ other. run ∙ odd other)

  -- The first probe of a service that is bound to `obj`, where its header is answered and `obj`
  -- returns items. The handler is asked once, with the types and scopes of the probe. If no item has
  -- scopes or an endpoint, the response that is written holds every item, and the result is that of
  -- writing it; if an item has one, the response is written from memory that is no longer alive.
  pub probe_answered :
      (m : WsdProbe) (s : Service) (obj : Handler) (items : List ProbeMatch) (w : State)
      → s.p ≡ some obj
      → s.matches ≡ empty_vector
      → response_header rt env s.wsa ≡ ok w
      → obj.probe (probe_arg m) ≡ returned items
      → (All (IsPlain rt env.grow) items
          → (v : Vector) × (probe rt env (some m) true s
              ≡ ok (
                  responded
                    (record s { wsa = w; events = s.events ++ called_probe (probe_arg m) ∷ [] })
                    v
                    (bodies items))))
        × (¬ All (IsPlain rt env.grow) items → probe rt env (some m) true s ≡ fault dangling)
  probe_answered m s obj items w bound fresh answered asked =
      let (plain, odd) = probe-filled m s obj items w bound fresh answered asked in
      (λ all. (_, plain all), odd)
