-- ===== src/Wsdd/Proxy/Announce.antt =====
-- The messages that the proxy sends.
pub mod Announcement
use onvifxx.Base.{
  ◌+◌, ◌%◌, ◌^◌, ◌≡◌, ap, ◌∙◌, true, none, some, [], ◌∷◌, ◌++◌, if◌then◌else◌, arith, is_some,
  Option-cases, inl, inr,
}
use onvifxx.Base.Chars.{Text, codes}
use onvifxx.Base.Outcome.{
  Outcome, ok, fault, null_pointer, missing_return, Ended, returned, thrown, ◌>>=◌,
}
use onvifxx.Exceptions.{soap_exception, what}
use onvifxx.Wsdd.Gsoap.{is_ok, Header, Runtime}
use onvifxx.Wsdd.Messages.{ProbeMatch, Probe, request_of}
use onvifxx.Wsdd.Uuid.{rand_uuid}
use onvifxx.Wsdd.Wsa.{State, add_app_sequence}
use onvifxx.Wsdd.Wsa.Requests.{available, request-IsRequested, request_exhausted}
use onvifxx.Wsdd.Wsa.Sequence.{instance_at, add_app_sequence-after, add_app_sequence-fault}
use onvifxx.Wsdd.Proxy.{
  Proxy, World, Message, Body, hello_body, bye_body, probe_body, post, announce, hello, bye, bye_of,
  probe, probe_of, to_ts_url, namespace_wsd, finish_probe,
}
use onvifxx.Wsdd.Proxy.Announce.Announcement.{
  announcement, ending, message, post-sent, IsCounted, announce-message,
}

module _ (rt : Runtime) (env : World) where
  module _ (p : Proxy) (h : Header) (found : available rt p.wsa ≡ some h) where
    -- An announcement, whatever its body.
    announced :
        (action : Text) (body : Body)
        → let m = announcement rt env action body p.wsa in
          (s : State) × ((do
            s ← announce rt env action p.wsa
            ok (post env body (record p { wsa = s })))
            ≡ ok (ending rt env m, record { wsa = s; sent = p.sent ++ m ∷ [] }))
          × IsCounted rt env p.wsa s
    announced action body =
        let (s, headed, same, counted) = announce-message rt env action p.wsa h found in
        (
          s,
          ap (λ o. o >>= λ s. ok (post env body (record p { wsa = s }))) headed
              ∙ ap ok (post-sent rt env body (record p { wsa = s }))
              ∙ ap (λ m. ok (ending rt env m, record p { wsa = s; sent = p.sent ++ m ∷ [] }))
                  (same body),
          counted,
        )

    pub hello_sent :
        (arg : ProbeMatch)
        → let m =
            announcement rt env
              (namespace_wsd ++ codes "/Hello")
              (hello_body (request_of rt arg) arg.version)
              p.wsa in
          (s : State) × (hello rt env arg p
            ≡ ok (ending rt env m, record { wsa = s; sent = p.sent ++ m ∷ [] }))
          × IsCounted rt env p.wsa s
    unfolding hello
    hello_sent arg =
        announced (namespace_wsd ++ codes "/Hello") (hello_body (request_of rt arg) arg.version)

    pub bye_sent :
        (arg : ProbeMatch)
        → let m =
            announcement rt env
              (namespace_wsd ++ codes "/Bye")
              (bye_body (bye_of rt arg) rt.default_bye_version)
              p.wsa in
          (s : State) × (bye rt env arg p
            ≡ ok (ending rt env m, record { wsa = s; sent = p.sent ++ m ∷ [] }))
          × IsCounted rt env p.wsa s
    unfolding bye
    bye_sent arg =
        announced (namespace_wsd ++ codes "/Bye") (bye_body (bye_of rt arg) rt.default_bye_version)

    -- What `hello` and `bye` do where there is a header or memory for one: each sends one message,
    -- an announcement under its own action, and returns or throws as sending it succeeds or fails.
    -- A hello carries every member of the argument, a bye only the endpoint.
    hello_bye_sent :
        (arg : ProbeMatch)
        → let m =
            announcement rt env
              (namespace_wsd ++ codes "/Hello")
              (hello_body (request_of rt arg) arg.version)
              p.wsa in
          let n =
            announcement rt env
              (namespace_wsd ++ codes "/Bye")
              (bye_body (bye_of rt arg) rt.default_bye_version)
              p.wsa in
          ((s : State) × (hello rt env arg p
              ≡ ok (ending rt env m, record { wsa = s; sent = p.sent ++ m ∷ [] })))
          × ((s : State) × (bye rt env arg p
                ≡ ok (ending rt env n, record { wsa = s; sent = p.sent ++ n ∷ [] })))
    hello_bye_sent arg =
        let (s, said, _) = hello_sent arg in
        let (s', left, _) = bye_sent arg in ((s, said), (s', left))

  -- With no header and no memory for one, `hello` and `bye` ignore the error that `request` returns
  -- and write the sequence through a null pointer.
  hello_bye_exhausted :
      (p : Proxy) (arg : ProbeMatch)
      → available rt p.wsa ≡ none
      → (hello rt env arg p ≡ fault null_pointer) × (bye rt env arg p ≡ fault null_pointer)
  unfolding hello bye
  hello_bye_exhausted p arg e = (faults _ _, faults _ _)
    where
      no_header : (s : State) → available rt s ≡ none → s.header ≡ none
      no_header s e = ground arith

      faults :
          (action : Text) (k : State → Outcome (Ended (Unit {0}) × Proxy))
          → (announce rt env action p.wsa >>= k) ≡ fault null_pointer
      faults action k =
          ap (λ o. (o >>= λ r. add_app_sequence env.clock none r.1) >>= k)
            (request_exhausted rt env.random to_ts_url action p.wsa e)
          ∙ ap (λ o. o >>= k) (add_app_sequence-fault env.clock none _ (no_header p.wsa e))

  pub hello_bye_total :
      (p : Proxy) (arg : ProbeMatch)
      → let m =
          announcement rt env
            (namespace_wsd ++ codes "/Hello")
            (hello_body (request_of rt arg) arg.version)
            p.wsa in
        let n =
          announcement rt env
            (namespace_wsd ++ codes "/Bye")
            (bye_body (bye_of rt arg) rt.default_bye_version)
            p.wsa in
        ((s : State) × (hello rt env arg p ≡ (
            if is_some (available rt p.wsa)
            then ok (ending rt env m, record { wsa = s; sent = p.sent ++ m ∷ [] })
            else fault null_pointer)))
        × ((s : State) × (bye rt env arg p ≡ (
              if is_some (available rt p.wsa)
              then ok (ending rt env n, record { wsa = s; sent = p.sent ++ n ∷ [] })
              else fault null_pointer)))
  hello_bye_total p arg = elim (Option-cases (available rt p.wsa)) [
    | inl e ↦
        let (said, left) = hello_bye_exhausted p arg e in
        ((p.wsa, rw (e) said), (p.wsa, rw (e) left))
    | inr (h, e) ↦
        let ((s, said), (s', left)) = hello_bye_sent p h e arg in
        ((s, rw (e) said), (s', rw (e) left))
  ]

  -- The message of a probe: the pointer to the sequence, and the sequence, are what was there.
  abbrev pub question : Probe → Header → State → Message
  question arg h s = record {
    body = probe_body (probe_of rt arg);
    header = some (record {
      message_id = (rand_uuid s.seed env.random).0;
      relates_to = none;
      from = none;
      reply_to = none;
      fault_to = none;
      to = to_ts_url;
      action = namespace_wsd ++ codes "/Probe";
      app_sequence = h.app_sequence;
    });
    sequence = s.sequence;
  }

  -- A probe takes no number and sets no instance.
  pub probe_uncounted :
      (arg : Probe) (p : Proxy) (h : Header)
      → available rt p.wsa ≡ some h
      → let m = question arg h p.wsa in
        (s : State) × (probe rt env arg p ≡ (
          if is_ok (env.sends m)
          then fault missing_return
          else ok (
            thrown (what (soap_exception (some env.soap))),
            record { wsa = s; sent = p.sent ++ m ∷ [] },
          )))
        × (s.message_rv ≡ p.wsa.message_rv)
        × (s.instance_rv ≡ p.wsa.instance_rv)
        × (s.sequence ≡ p.wsa.sequence)
  unfolding probe finish_probe
  probe_uncounted arg p h e =
      let (r, asked, filled, _) =
        request-IsRequested rt env.random to_ts_url (namespace_wsd ++ codes "/Probe") p.wsa h e in
      let body = probe_body (probe_of rt arg) in
      let q = question arg h p.wsa in
      let same : message rt env body r.1 ≡ q =
        λ i. record { body = body; header = filled.header i; sequence = filled.sequence i } in
      (
        r.1,
        ap (λ o. o >>= λ r. finish_probe (post env body (record p { wsa = r.1 }))) asked
            ∙ ap finish_probe (post-sent rt env body (record p { wsa = r.1 }))
            ∙ ap
                (λ m.
                  finish_probe (ending rt env m, record p { wsa = r.1; sent = p.sent ++ m ∷ [] }))
                same
            ∙ ground arith,
        filled.number,
        filled.instance',
        filled.sequence,
      )

  -- Where there is a header or memory for one, `probe` sends one message, under a new id but with the
  -- pointer to the sequence and the number of an earlier announcement, if there was one. Where sending
  -- fails it throws; where it succeeds, it reaches the end of a function that returns a vector and has
  -- no `return`, so it never returns matches.
  pub probe_sent :
      (arg : Probe) (p : Proxy) (h : Header)
      → available rt p.wsa ≡ some h
      → let m = question arg h p.wsa in
        (s : State) × (probe rt env arg p ≡ (
          if is_ok (env.sends m)
          then fault missing_return
          else ok (
            thrown (what (soap_exception (some env.soap))),
            record { wsa = s; sent = p.sent ++ m ∷ [] },
          )))
  probe_sent arg p h e = let (s, sent, _, _, _) = probe_uncounted arg p h e in (s, sent)
