-- ===== src/Wsdd/Service/Dispatch.antt =====
-- From a message that a proxy sent to the handler, and back to the transport.
use onvifxx.Base.{
  ◌≡◌, refl, ap, ◌∙◌, ◌↔◌, ◌⊎◌, inl, inr, true, none, some, [], ◌∷◌, ◌++◌, arith, append_assoc,
}
use onvifxx.Base.Chars.{Text}
use onvifxx.Base.Outcome.{ok, Ended, returned, thrown, ◌>>=◌}
use onvifxx.Wsdd.Gsoap.{Code, soap_ok, soap_fault, soap_user_error, Runtime, ClearsPointers}
use onvifxx.Wsdd.Messages.{ProbeMatch, request_of, arg_of}
use onvifxx.Wsdd.Messages.RoundTrip.{seen, arg_of-seen, arg_of-bare}
use onvifxx.Wsdd.Proxy.{Body, hello_body, bye_body, probe_body, bye_of}
use onvifxx.Wsdd.Service.{
  Service, Handler, Event, called_hello, called_bye, closed_socket, sender_fault, World, Method,
  log, hello, bye, probe, dispatch, answer, after_base,
}

module _ (env : World) where
  -- The events that `dispatch` adds to those of the generated one, and its result.
  pub record IsDispatched (base r : Ended Code × Service) : Type 0 where
    pub never_throws : (r.0 ≡ returned soap_ok) ⊎ (r.0 ≡ returned soap_fault)
    pub success :
        (r.0 ≡ returned soap_ok)
        ↔ ((base.0 ≡ returned soap_ok) ⊎ (base.0 ≡ returned soap_user_error))
    pub closes :
        base.0 ≡ returned soap_user_error → r.1.events ≡ base.1.events ++ closed_socket ∷ []
    pub keeps : base.0 ≡ returned soap_ok → r.1 ≡ base.1
    pub reports :
        r.0 ≡ returned soap_fault
        → (text : Text) × (r.1.events ≡ base.1.events ++ sender_fault text ∷ [])

  after_base-IsDispatched : (base : Ended Code × Service) → IsDispatched base (after_base env base)
  unfolding after_base
  after_base-IsDispatched (thrown e, s) = record {
    never_throws = inr refl;
    success = ((λ q. cc), λ q. ground arith);
    closes = λ q. cc;
    keeps = λ q. cc;
    reports = λ _. (e, refl);
  }
  after_base-IsDispatched (returned soap_ok, s) = record {
    never_throws = inl refl;
    success = ((λ _. inl refl), λ _. refl);
    closes = λ q. cc;
    keeps = λ _. refl;
    reports = λ q. cc;
  }
  after_base-IsDispatched (returned soap_user_error, s) = record {
    never_throws = inl refl;
    success = ((λ _. inr refl), λ _. refl);
    closes = λ _. refl;
    keeps = λ q. cc;
    reports = λ q. cc;
  }
  after_base-IsDispatched (returned _, s) = record {
    never_throws = inr refl;
    success = ((λ q. cc), λ q. ground arith);
    closes = λ q. cc;
    keeps = λ q. cc;
    reports = λ _. (_, refl);
  }

  -- Where the generated dispatch returns or throws at all, `dispatch` returns `SOAP_OK` or
  -- `SOAP_FAULT` and throws nothing. It returns `SOAP_OK` exactly if the generated one did or returned
  -- `SOAP_USER_ERROR`, in which case it closes the socket; after `SOAP_OK` it does nothing more, and
  -- behind `SOAP_FAULT` stands a fault that was reported to the sender.
  pub dispatch-IsDispatched :
      (base : Method) (s : Service) (b : Ended Code × Service)
      → base s ≡ ok b
      → (r : Ended Code × Service) × (dispatch env base s ≡ ok r) × IsDispatched b r
  unfolding dispatch
  dispatch-IsDispatched base s b e =
      (after_base env b, ap (λ o. o >>= λ r. ok (after_base env r)) e, after_base-IsDispatched b)

  -- How a handler's call ends: the socket is closed, or the sender gets the exception's text.
  abbrev pub handled : Ended (Unit {0}) → Event → Service → Ended Code × Service
  handled (returned u) event s = (returned soap_ok, log s (event ∷ closed_socket ∷ []))
  handled (thrown e) event s = (returned soap_fault, log s (event ∷ sender_fault e ∷ []))

  answer-handled :
      (r : Ended (Unit {0})) (event : Event) (s : Service)
      → after_base env (answer r, log s (event ∷ [])) ≡ handled r event s
  unfolding after_base answer
  answer-handled (returned u) event s = simp append_assoc
  answer-handled (thrown e) event s = simp append_assoc

  called :
      (method : Handler → ProbeMatch → Ended (Unit {0})) (event : ProbeMatch → Event) (s : Service)
      (obj : Handler) {arg arg' : ProbeMatch}
      → s.p ≡ some obj
      → arg ≡ arg'
      → ok (
          after_base env (elim s.p [
            | none ↦ (returned soap_user_error, s)
            | some obj ↦ (answer (method obj arg), log s (event arg ∷ []))
          ]))
        ≡ ok (handled (method obj arg') (event arg') s)
  called method event s obj {arg} {arg'} e same =
      ap
        (λ p. ok (
          after_base env (elim p [
            | none ↦ (returned soap_user_error, s)
            | some obj ↦ (answer (method obj arg), log s (event arg ∷ []))
          ])))
        e
      ∙ ap (λ arg. ok (after_base env (answer (method obj arg), log s (event arg ∷ [])))) same
      ∙ ap ok (answer-handled (method obj arg') (event arg') s)

-- What arrives of a `bye`: the endpoint alone, at version 0.
abbrev pub seen_bye : ProbeMatch → ProbeMatch
seen_bye a = record (seen a) { types = none; scopes = none; xaddrs = none; version = 0 }

module _ (rt : Runtime) (env : World) where
  -- The generated dispatch hands a message to the method for its element, with a fresh response.
  abbrev pub deliver : Body → Method
  deliver (hello_body m version) = hello (some (m, version)) true
  deliver (bye_body m version) = bye (some (m, version)) true
  deliver (probe_body m) = probe rt env (some m) true

  arg_of-seen_bye :
      ClearsPointers rt
      → (a : ProbeMatch)
      → arg_of (bye_of rt a) (elim rt.default_bye_version [ none ↦ 0 | some v ↦ v ]) ≡ seen_bye a
  unfolding bye_of
  arg_of-seen_bye clears a = arg_of-bare (request_of rt a) _ a.version ∙ λ i.
      record (arg_of-seen rt clears a i) {
        types = none;
        scopes = none;
        xaddrs = none;
        version = elim (clears.bye_version i) [ none ↦ 0 | some v ↦ v ];
      }

  -- A hello or a bye that a proxy sent, delivered to a service that is bound to `obj`: where
  -- `soap_default` clears pointers, the handler is called once, with what the proxy was given as it is
  -- seen on the other side (a bye without types, scopes, addresses and version). If the handler
  -- returns, the socket is closed and `dispatch` returns `SOAP_OK`; if it throws, the sender gets a
  -- fault with the text of the exception and `dispatch` returns `SOAP_FAULT`.
  pub hello_bye_delivered :
      ClearsPointers rt
      → (a : ProbeMatch) (s : Service) (obj : Handler) → s.p ≡ some obj
      → (dispatch env (deliver (hello_body (request_of rt a) a.version)) s
          ≡ ok (handled env (obj.hello (seen a)) (called_hello (seen a)) s))
        × (dispatch env (deliver (bye_body (bye_of rt a) rt.default_bye_version)) s
            ≡ ok (handled env (obj.bye (seen_bye a)) (called_bye (seen_bye a)) s))
  unfolding dispatch hello bye
  hello_bye_delivered clears a s obj e = (
    called env (λ obj. obj.hello) called_hello s obj e (arg_of-seen rt clears a),
    called env (λ obj. obj.bye) called_bye s obj e (arg_of-seen_bye clears a),
  )
