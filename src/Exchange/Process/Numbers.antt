-- ===== src/Exchange/Process/Numbers.antt =====
-- What the proxies of a process send.
use onvifxx.Base.{
  ℕ, ◌+◌, ◌%◌, ◌^◌, ◌≡◌, refl, sym, ap, subst₂, ◌∙◌, Option, none, some, List, [], ◌∷◌, ◌++◌,
  append_assoc, append-nil, if◌then◌else◌, ◌==◌,
}
use onvifxx.Base.Outcome.{Outcome, ok, Ended, ◌>>=◌}
use onvifxx.Wsdd.Gsoap.{Header, Runtime}
use onvifxx.Wsdd.Messages.{request_of}
use onvifxx.Wsdd.Proxy
use onvifxx.Wsdd.Proxy.{Proxy, World, Message, Body, hello_body, bye_body, bye_of}
use onvifxx.Wsdd.Proxy.Announce.Announcement.{IsCounted}
use onvifxx.Wsdd.Proxy.Announce.{hello_sent, bye_sent}
use onvifxx.Wsdd.Wsa.{State}
use onvifxx.Wsdd.Wsa.Requests.{available}
use onvifxx.Wsdd.Wsa.Sequence.{instance_at}
use onvifxx.Exchange.Process.{
  Process, Announcement, hello, bye, Call, step, run, statics_of, with_statics,
}

module _ (rt : Runtime) where
  abbrev pub body_of : Announcement → Body
  body_of (hello arg) = hello_body (request_of rt arg) arg.version
  body_of (bye arg) = bye_body (bye_of rt arg) rt.default_bye_version

  -- One message for each call, in order, with what the call announces, under one instance, with numbers
  -- that count on from `number`.
  pub data AreSent (instance' : ℕ) : ℕ → List Call → List Message → Type 0 where
    none_sent : {n : ℕ} → AreSent instance' n [] []
    one_sent :
        {n : ℕ} {cs : List Call} {ms : List Message} (c : Call) (m : Message)
        → m.body ≡ body_of c.what
        → m.sequence ≡ record {
          instance_id = instance';
          sequence_id = none;
          message_number = (n + 1) % 2 ^ 32;
        }
        → AreSent instance' ((n + 1) % 2 ^ 32) cs ms
        → AreSent instance' n (c ∷ cs) (m ∷ ms)

  -- Memory for a header.
  module _ (fresh : Header) (memory : rt.new_header ≡ some fresh) where
    pub found : (s : State) → (h : Header) × (available rt s ≡ some h)
    found s =
        elim s.header
          as (λ o. (h : Header) × ((elim o [ none ↦ rt.new_header | some h ↦ some h ]) ≡ some h)) [
            | none ↦ (fresh, memory)
            | some h ↦ (h, refl)
          ]

    -- A message that announces `a`, counted from the state `s`.
    pub record IsAnnounced (a : Announcement) (clock : ℕ) (s : State) (m : Message) : Type 0 where
      pub body : m.body ≡ body_of a
      pub sequence : m.sequence ≡ record {
        instance_id = instance_at clock s;
        sequence_id = none;
        message_number = (s.message_rv + 1) % 2 ^ 32;
      }

    pub announce_sent :
        (env : World) (a : Announcement) (p : Proxy)
        → (ended : Ended (Unit {0})) × (m : Message) × (s : State) × ((elim a
              as (λ _. Outcome (Ended (Unit {0}) × Proxy)) [
                | hello arg ↦ Proxy.hello rt env arg p
                | bye arg ↦ Proxy.bye rt env arg p
              ])
            ≡ ok (ended, record { wsa = s; sent = p.sent ++ m ∷ [] }))
          × IsAnnounced a env.clock p.wsa m
          × IsCounted rt env p.wsa s
    announce_sent env (hello arg) p =
        let (h, there) = found p.wsa in
        let (s, said, counted) = hello_sent rt env p h there arg in
        (_, _, s, said, record { body = refl; sequence = refl }, counted)
    announce_sent env (bye arg) p =
        let (h, there) = found p.wsa in
        let (s, said, counted) = bye_sent rt env p h there arg in
        (_, _, s, said, record { body = refl; sequence = refl }, counted)

    -- The instance of the first call, or the one that was set before it.
    abbrev pub instance_from : List Call → Option ℕ → ℕ
    instance_from [] rv = elim rv [ none ↦ 0 | some i ↦ i ]
    instance_from (c ∷ cs) rv = elim rv [ none ↦ c.env.clock % 2 ^ 32 | some i ↦ i ]

    instance_from-some : (cs : List Call) (i : ℕ) → instance_from cs (some i) ≡ i
    instance_from-some [] i = refl
    instance_from-some (c ∷ cs) i = refl

    step_sent :
        (c : Call) (w : Process)
        → (w' : Process) × (m : Message) × (step rt c w ≡ ok w')
          × (w'.sent ≡ w.sent ++ m ∷ [])
          × (m.body ≡ body_of c.what)
          × (m.sequence ≡ record {
            instance_id = instance_from (c ∷ []) w.statics.instance_rv;
            sequence_id = none;
            message_number = (w.statics.message_rv + 1) % 2 ^ 32;
          })
          × (w'.statics.message_rv ≡ (w.statics.message_rv + 1) % 2 ^ 32)
          × (w'.statics.instance_rv ≡ some (instance_from (c ∷ []) w.statics.instance_rv))
    unfolding step with_statics statics_of
    step_sent c w =
        let (ended, m, s, said, announced, counted) =
          announce_sent c.env c.what
            (record { wsa = with_statics w.statics (w.proxies c.who); sent = w.sent }) in
        (
          _,
          m,
          ap
              (λ o. o >>= λ (r : Ended (Unit {0}) × Proxy). ok (record {
                statics = statics_of (r.1.wsa);
                proxies = λ i. if i == c.who then r.1.wsa else w.proxies i;
                sent = r.1.sent;
              }))
              said,
          refl,
          announced.body,
          announced.sequence,
          counted.number,
          counted.instance',
        )

    -- Where there is memory for a header, any calls of any proxies of a process return. They send one
    -- message each, in order, with what the call announces, whichever proxy makes it; all carry the
    -- instance that was set, or the time of the first call, and their numbers count on from the number
    -- of messages before, modulo 2^32.
    pub run-AreSent :
        (cs : List Call) (w : Process)
        → (w' : Process) × (ms : List Message) × (run rt cs w ≡ ok w')
          × (w'.sent ≡ w.sent ++ ms)
          × AreSent (instance_from cs w.statics.instance_rv) w.statics.message_rv cs ms
    unfolding run
    run-AreSent [] w = (w, [], refl, sym (append-nil w.sent), none_sent)
    run-AreSent (c ∷ cs) w =
        let (v, m, once, one, body, sequence, number, rv) = step_sent c w in
        let (w', ms, rest, more, sent) = run-AreSent cs v in
        let same : instance_from cs v.statics.instance_rv
            ≡ instance_from (c ∷ []) w.statics.instance_rv =
          ap (instance_from cs) rv ∙ instance_from-some cs _ in
        (
          w',
          m ∷ ms,
          ap (λ o. o >>= run rt cs) once ∙ rest,
          more ∙ ap (λ l. l ++ ms) one ∙ append_assoc w.sent (m ∷ []) ms,
          one_sent c m body sequence (subst₂ (λ i n. AreSent i n cs ms) same number sent),
        )
