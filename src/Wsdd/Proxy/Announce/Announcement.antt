-- ===== src/Wsdd/Proxy/Announce/Announcement.antt =====
-- The message that an announcement of the proxy (wsdd/remotediscovery_proxy.cpp) is, and how it is sent.
use onvifxx.Base.{
  ◌+◌, ◌%◌, ◌^◌, ◌≡◌, ap, ◌∙◌, true, none, some, [], ◌∷◌, ◌++◌, if◌then◌else◌, arith,
}
use onvifxx.Base.Chars.{Text}
use onvifxx.Base.Outcome.{ok, Ended, returned, thrown, ◌>>=◌}
use onvifxx.Exceptions.{soap_exception, what}
use onvifxx.Wsdd.Gsoap.{is_ok, Header, Runtime}
use onvifxx.Wsdd.Uuid.{rand_uuid}
use onvifxx.Wsdd.Wsa.{State, add_app_sequence}
use onvifxx.Wsdd.Wsa.Requests.{available, request-IsRequested}
use onvifxx.Wsdd.Wsa.Sequence.{instance_at, add_app_sequence-after}
use onvifxx.Wsdd.Proxy.{Proxy, World, Message, Body, post, announce, to_ts_url}

module _ (rt : Runtime) (env : World) where
  -- A message to the discovery address with a new id, the next number, and no optional field.
  abbrev pub announcement : Text → Body → State → Message
  announcement action body s = record {
    body = body;
    header = some (record {
      message_id = (rand_uuid s.seed env.random).0;
      relates_to = none;
      from = none;
      reply_to = none;
      fault_to = none;
      to = to_ts_url;
      action = action;
      app_sequence = true;
    });
    sequence = record {
      instance_id = instance_at env.clock s;
      sequence_id = none;
      message_number = (s.message_rv + 1) % 2 ^ 32;
    };
  }

  -- How a call ends that sends `m`.
  abbrev pub ending : Message → Ended (Unit {0})
  ending m =
      if is_ok (env.sends m) then returned tt else thrown (what (soap_exception (some env.soap)))

  abbrev pub message : Body → State → Message
  message body s = record { body = body; header = s.header; sequence = s.sequence }

  pub post-sent :
      (body : Body) (p : Proxy)
      → post env body p
        ≡ (ending (message body p.wsa), record p { sent = p.sent ++ message body p.wsa ∷ [] })
  unfolding post
  post-sent body p = ground arith

  -- The counters behind an announcement that began at `s`.
  pub record IsCounted (s s' : State) : Type 0 where
    pub number : s'.message_rv ≡ (s.message_rv + 1) % 2 ^ 32
    pub instance' : s'.instance_rv ≡ some (instance_at env.clock s)

  pub announce-message :
      (action : Text) (s : State) (h : Header)
      → available rt s ≡ some h
      → (s' : State) × (announce rt env action s ≡ ok s')
        × ((body : Body) → message body s' ≡ announcement action body s)
        × IsCounted s s'
  unfolding announce
  announce-message action s h e =
      let (r, asked, filled, _) = request-IsRequested rt env.random to_ts_url action s h e in
      let added = add_app_sequence-after env.clock none _ r.1 filled.header in
      (
        _,
        ap (λ o. o >>= λ r. add_app_sequence env.clock none r.1) asked ∙ added,
        λ body i. record {
          body = body;
          header = some (record {
            message_id = (rand_uuid s.seed env.random).0;
            relates_to = none;
            from = none;
            reply_to = none;
            fault_to = none;
            to = to_ts_url;
            action = action;
            app_sequence = true;
          });
          sequence = record {
            instance_id = elim (filled.instance' i) [ none ↦ env.clock % 2 ^ 32 | some i ↦ i ];
            sequence_id = none;
            message_number = (filled.number i + 1) % 2 ^ 32;
          };
        },
        record {
          number = λ i. (filled.number i + 1) % 2 ^ 32;
          instance' =
              λ i. some (elim (filled.instance' i) [ none ↦ env.clock % 2 ^ 32 | some i ↦ i ]);
        },
      )
