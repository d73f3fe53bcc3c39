-- ===== src/Exchange/Node/Numbers.antt =====
-- The sequences of the messages that leave a process.
use onvifxx.Base.{
  ℕ, ◌+◌, ◌%◌, ◌^◌, ◌≡◌, refl, sym, ap, ◌∙◌, some, List, [], ◌∷◌, ◌++◌, append_assoc, append-nil,
  All, map, ◌<◌, length, get_elem?, arith, if◌then◌else◌, false,
}
use onvifxx.Base.Outcome.{Outcome, ok, fault, missing_return, Ended, thrown, ◌>>=◌}
use onvifxx.Exchange.Node.{Act, calls, asks, answers, Node, left, act, act_all}
use onvifxx.Exchange.Process.{statics_of, with_statics, announce}
use onvifxx.Exchange.Process.Numbers.{announce_sent, found}
use onvifxx.Wsdd.Gsoap.{AppSequence, Header, Runtime, is_ok}
use onvifxx.Wsdd.Proxy.{Proxy, World, Message}
use onvifxx.Wsdd.Proxy.Announce.{question, probe_uncounted}
use onvifxx.Wsdd.Messages.{Probe}
use onvifxx.Exceptions.{soap_exception, what}
use onvifxx.Wsdd.Service.Handlers.{response_header-IsAnswer}
use onvifxx.Exchange.Node.Stamps.{
  stamp, counted, stamps_from, instance_of, IsNamed, instance_of-some, length-stamps_from,
  get_elem-stamps_from,
}

module _ (rt : Runtime) (fresh : Header) (memory : rt.new_header ≡ some fresh) where
  -- An act that is counted.
  act-stamp :
      (a : Act) (n : Node)
      → IsNamed a
      → counted (a ∷ []) ≡ 1
      → (n' : Node) × (act rt a n ≡ ok n')
        × (n'.stamps
            ≡ n.stamps
              ++ stamp
                  (instance_of (a ∷ []) n.statics.instance_rv)
                  ((n.statics.message_rv + 1) % 2 ^ 32)
                ∷ [])
        × (n'.statics.message_rv ≡ (n.statics.message_rv + 1) % 2 ^ 32)
        × (n'.statics.instance_rv ≡ some (instance_of (a ∷ []) n.statics.instance_rv))
  unfolding act announce statics_of with_statics
  act-stamp (asks who env arg) n named one = absurd (omega arith)
  act-stamp (calls c) n named one =
      let (ended, m, s, said, announced, counted) =
        announce_sent rt fresh memory c.env c.what
          (record { wsa = with_statics n.statics (n.owners c.who); sent = [] }) in
      (
        _,
        ap
            (λ o. o >>= λ (r : Ended (Unit {0}) × Proxy).
              ok (left c.who (r.1.wsa) (map (λ m. m.sequence) (r.1.sent)) n))
            said,
        ap (λ q. n.stamps ++ q ∷ []) announced.sequence,
        counted.number,
        counted.instance',
      )
  act-stamp (answers who env asked) n named one =
      let (w, headed, answer) =
        response_header-IsAnswer rt env
          (record (with_statics n.statics (n.owners who)) { header = some asked }) asked refl
          named in
      (
        _,
        ap (λ o. o >>= λ w. ok (left who w (w.sequence ∷ []) n)) headed,
        ap (λ q. n.stamps ++ q ∷ []) answer.sequence,
        answer.number,
        answer.instance',
      )

  -- A probe on which sending fails.
  act-asks :
      (who : ℕ) (env : World) (arg : Probe) (n : Node)
      → ((m : Message) → is_ok (env.sends m) ≡ false)
      → (n' : Node) × (m : Message) × (act rt (asks who env arg) n ≡ ok n')
        × (n'.stamps ≡ n.stamps)
        × (n'.probes ≡ n.probes ++ m ∷ [])
        × (m.sequence ≡ (n.owners who).sequence)
        × (n'.statics.message_rv ≡ n.statics.message_rv)
        × (n'.statics.instance_rv ≡ n.statics.instance_rv)
  unfolding act statics_of with_statics
  act-asks who env arg n fails =
      let p : Proxy = record { wsa = with_statics n.statics (n.owners who); sent = n.probes } in
      let (h, there) = found rt fresh memory p.wsa in
      let (s, sent, number, inst, _) = probe_uncounted rt env arg p h there in
      let m = question rt env arg h p.wsa in
      let left_by : Outcome (Ended (Unit {0}) × Proxy) → Outcome Node =
        (λ o. o >>= λ r. ok (record (left who (r.1.wsa) [] n) { probes = r.1.sent })) in
      let thrown_by : Outcome (Ended (Unit {0}) × Proxy) = ok (
        thrown (what (soap_exception (some env.soap))),
        record { wsa = s; sent = p.sent ++ m ∷ [] },
      ) in
      (
        _,
        m,
        ap left_by sent
            ∙ ap (λ b. left_by (if b then fault missing_return else thrown_by)) (fails m),
        append-nil n.stamps,
        refl,
        refl,
        number,
        inst,
      )

  -- An act that is counted, and the stamps of those behind it.
  stamped_behind :
      (acts : List Act) (n m n' : Node) (first : ℕ)
      → let next = (n.statics.message_rv + 1) % 2 ^ 32 in
        m.stamps ≡ n.stamps ++ stamp first next ∷ []
        → m.statics.message_rv ≡ next
        → m.statics.instance_rv ≡ some first
        → n'.stamps
          ≡ m.stamps
            ++ stamps_from (instance_of acts m.statics.instance_rv) m.statics.message_rv acts
        → n'.stamps ≡ n.stamps ++ stamp first next ∷ stamps_from first next acts
  stamped_behind acts n m n' first one number rv others =
      let next = (n.statics.message_rv + 1) % 2 ^ 32 in
      others
      ∙ ap
          (λ l. l ++ stamps_from (instance_of acts m.statics.instance_rv) m.statics.message_rv acts)
          one
      ∙ append_assoc n.stamps (stamp first next ∷ []) _
      ∙ ap
          (λ rv.
            n.stamps
            ++ stamp first next ∷ stamps_from (instance_of acts rv) m.statics.message_rv acts)
          rv
      ∙ ap (λ i. n.stamps ++ stamp first next ∷ stamps_from i m.statics.message_rv acts)
          (instance_of-some acts first)
      ∙ ap (λ k. n.stamps ++ stamp first next ∷ stamps_from first k acts) number

  act_all_stamps :
      (acts : List Act) (n : Node)
      → All IsNamed acts
      → (n' : Node) × (act_all rt acts n ≡ ok n')
        × (n'.stamps
            ≡ n.stamps
              ++ stamps_from (instance_of acts n.statics.instance_rv) n.statics.message_rv acts)
  unfolding act_all
  act_all_stamps [] n named = (n, refl, sym (append-nil n.stamps))
  act_all_stamps (asks who env arg ∷ acts) n (fails, rest) =
      let (m, _, once, same, _, _, number, rv) = act-asks who env arg n fails in
      let (n', more, others) = act_all_stamps acts m rest in
      (
        n',
        ap (λ o. o >>= act_all rt acts) once ∙ more,
        others ∙ (λ i. same i ++ stamps_from (instance_of acts (rv i)) (number i) acts),
      )
  act_all_stamps (calls c ∷ acts) n (named, rest) =
      let (m, once, one, number, rv) = act-stamp (calls c) n named refl in
      let (n', more, others) = act_all_stamps acts m rest in
      (
        n',
        ap (λ o. o >>= act_all rt acts) once ∙ more,
        stamped_behind acts n m n' _ one number rv others,
      )
  act_all_stamps (answers who env asked ∷ acts) n (named, rest) =
      let (m, once, one, number, rv) = act-stamp (answers who env asked) n named refl in
      let (n', more, others) = act_all_stamps acts m rest in
      (
        n',
        ap (λ o. o >>= act_all rt acts) once ∙ more,
        stamped_behind acts n m n' _ one number rv others,
      )

  -- The acts of a process are any calls of hello and bye of its proxies, any answers of its services to
  -- probes with an id, and any calls of probe of its proxies on which sending fails. Where there is
  -- memory for a header, they come through. Whichever object they are made by, each announcement and
  -- each answer takes one number: the `i`-th of them, from 0, has the number behind those that were
  -- there and `i` more, modulo 2^32, and a probe in between takes none. All have the instance that was
  -- set before, or the time of the first of them, and no sequence id.
  pub act_all_lem :
      (acts : List Act) (n : Node)
      → All IsNamed acts
      → (n' : Node) × (new : List AppSequence) × (act_all rt acts n ≡ ok n')
        × (n'.stamps ≡ n.stamps ++ new)
        × (length new ≡ counted acts)
        × ((i : ℕ)
            → i < counted acts
            → get_elem? new i
              ≡ some (
                  stamp
                    (instance_of acts n.statics.instance_rv)
                    ((n.statics.message_rv + (i + 1)) % 2 ^ 32)))
  act_all_lem acts n named =
      let (n', ran, stamped) = act_all_stamps acts n named in
      let inst = instance_of acts n.statics.instance_rv in
      (
        n',
        stamps_from inst n.statics.message_rv acts,
        ran,
        stamped,
        length-stamps_from inst n.statics.message_rv acts,
        λ i less. get_elem-stamps_from inst n.statics.message_rv acts i less,
      )
