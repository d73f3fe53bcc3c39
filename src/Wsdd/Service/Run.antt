-- ===== src/Wsdd/Service/Run.antt =====
-- What holds of a service over any sequence of messages.
use onvifxx.Base.{
  ℕ, ◌<◌, ◌≡◌, refl, sym, ap, subst, ◌∙◌, Option, none, some, List, [], ◌∷◌, ◌++◌, map, length, All,
  append_assoc, append-nil,
}
use onvifxx.Base.Outcome.{Outcome, ok, Ended, returned, thrown, ◌>>=◌, >>=-eq-ok, ok-injective}
use onvifxx.Wsdd.Gsoap.{Code, Header, soap_ok, soap_user_error, Runtime}
use onvifxx.Wsdd.Matches.{Match, reserve, match_of, fill, serialize}
use onvifxx.Wsdd.Matches.Growth.{IsVector, reserve-IsVector, fill-IsVector}
use onvifxx.Wsdd.Matches.Items.{reserve-items, fill-items}
use onvifxx.Wsdd.Messages.{ProbeMatch}
use onvifxx.Wsdd.Proxy.{Body, Message, hello_body, bye_body, probe_body}
use onvifxx.Wsdd.Service.{
  Service, Handler, Event, World, log, hello, bye, probe, respond, response_header, dispatch,
  after_base, called_probe, probe_arg,
}
use onvifxx.Wsdd.Service.Dispatch.{deliver}
use onvifxx.Wsdd.Wsa.{State}

-- What no message changes: the bound object, the timeouts, the mode and the socket; the vector stays one, no match leaves it,
-- and what was done is not taken back.
pub record IsKept (s s' : Service) : Type 0 where
  pub p : s'.p ≡ s.p
  pub send_timeout : s'.send_timeout ≡ s.send_timeout
  pub recv_timeout : s'.recv_timeout ≡ s.recv_timeout
  pub accept_timeout : s'.accept_timeout ≡ s.accept_timeout
  pub mode : s'.mode ≡ s.mode
  pub socket : s'.socket ≡ s.socket
  pub vector : IsVector s.matches → IsVector s'.matches
  pub new_matches : List Match
  pub items : s'.matches.items ≡ s.matches.items ++ new_matches
  pub more : List Event
  pub events : s'.events ≡ s.events ++ more

same-IsKept : (s : Service) → IsKept s s
same-IsKept s = record {
  p = refl;
  send_timeout = refl;
  recv_timeout = refl;
  accept_timeout = refl;
  mode = refl;
  socket = refl;
  vector = λ is. is;
  new_matches = [];
  items = sym (append-nil s.matches.items);
  more = [];
  events = sym (append-nil s.events);
}

appended :
    {Item : Type 0} (xs a b : List Item) {ys zs : List Item}
    → ys ≡ xs ++ a
    → zs ≡ ys ++ b
    → zs ≡ xs ++ (a ++ b)
appended xs a b e f = f ∙ ap (λ l. l ++ b) e ∙ append_assoc xs a b

then-IsKept : {s s' t : Service} → IsKept s s' → IsKept s' t → IsKept s t
then-IsKept {s} a b = record {
  p = b.p ∙ a.p;
  send_timeout = b.send_timeout ∙ a.send_timeout;
  recv_timeout = b.recv_timeout ∙ a.recv_timeout;
  accept_timeout = b.accept_timeout ∙ a.accept_timeout;
  mode = b.mode ∙ a.mode;
  socket = b.socket ∙ a.socket;
  vector = λ is. b.vector (a.vector is);
  new_matches = a.new_matches ++ b.new_matches;
  items = appended s.matches.items a.new_matches b.new_matches a.items b.items;
  more = a.more ++ b.more;
  events = appended s.events a.more b.more a.events b.events;
}

log-IsKept :
    (s : Service) (w : State) (events : List Event) → IsKept s (log (record s { wsa = w }) events)
log-IsKept s w events = record {
  p = refl;
  send_timeout = refl;
  recv_timeout = refl;
  accept_timeout = refl;
  mode = refl;
  socket = refl;
  vector = λ is. is;
  new_matches = [];
  items = sym (append-nil s.matches.items);
  more = events;
  events = refl;
}

eq-IsKept : {s : Service} {r r' : Ended Code × Service} → r ≡ r' → IsKept s r.1 → IsKept s r'.1
eq-IsKept {s} e kept = subst (λ (r : Ended Code × Service). IsKept s r.1) e kept

-- A call of the handler, where there is one.
called-IsKept :
    (o : Option Handler) (call : Handler → Ended Code × Service) (s : Service)
    → ((obj : Handler) → IsKept s (call obj).1)
    → {r : Ended Code × Service}
    → (elim o as (λ _. Ended Code × Service) [
      | none ↦ (returned soap_user_error, s)
      | some obj ↦ call obj
    ])
      ≡ r
    → IsKept s r.1
called-IsKept none call s kept e = eq-IsKept e (same-IsKept s)
called-IsKept (some obj) call s kept e = eq-IsKept e (kept obj)

asked-IsKept :
    (o : Option Handler) (ask : Handler → Outcome (Ended Code × Service)) (s : Service)
    → {r : Ended Code × Service} → ((obj : Handler) → ask obj ≡ ok r → IsKept s r.1)
    → (elim o as (λ _. Outcome (Ended Code × Service)) [
      | none ↦ ok (returned soap_user_error, s)
      | some obj ↦ ask obj
    ])
      ≡ ok r
    → IsKept s r.1
asked-IsKept none ask s kept e = eq-IsKept (ok-injective e) (same-IsKept s)
asked-IsKept (some obj) ask s kept e = kept obj e

module _ (rt : Runtime) (env : World) where
  -- Messages in the order in which they are accepted.
  unfoldable pub serve_all : List Body → Service → Outcome Service
  serve_all [] s = ok s
  serve_all (m ∷ ms) s = do r ← dispatch env (deliver rt env m) s; serve_all ms r.1

  after_base-IsKept : (r : Ended Code × Service) → IsKept r.1 (after_base env r).1
  unfolding after_base
  after_base-IsKept (thrown e, s) = log-IsKept s s.wsa _
  after_base-IsKept (returned soap_ok, s) = same-IsKept s
  after_base-IsKept (returned soap_user_error, s) = log-IsKept s s.wsa _
  after_base-IsKept (returned _, s) = log-IsKept s _ _

  module _ (grows : (n : ℕ) → n < env.grow n) where
    respond-IsKept :
        (items : List ProbeMatch) (s : Service) (r : Ended Code × Service)
        → respond rt env items s ≡ ok r
        → IsKept s r.1
    unfolding respond
    respond-IsKept items s r e =
        let filled = fill rt env.grow items (reserve (length items) s.matches) [] in
        let (body, _, done) = >>=-eq-ok (serialize filled.0 filled.1) _ e in
        eq-IsKept (ok-injective done) (record {
          p = refl;
          send_timeout = refl;
          recv_timeout = refl;
          accept_timeout = refl;
          mode = refl;
          socket = refl;
          vector = λ is.
              fill-IsVector rt env.grow grows items _ []
                (reserve-IsVector (length items) s.matches is);
          new_matches = map (match_of rt) items;
          items =
              fill-items rt env.grow items (reserve (length items) s.matches) []
              ∙ ap (λ l. l ++ map (match_of rt) items) (reserve-items (length items) s.matches);
          more = _;
          events = refl;
        })

    replied-IsKept :
        (asked : Ended (List ProbeMatch)) (s : Service) (r : Ended Code × Service)
        → (elim asked as (λ _. Outcome (Ended Code × Service)) [
          | thrown e ↦ ok (thrown e, s)
          | returned items ↦ respond rt env items s
        ])
          ≡ ok r
        → IsKept s r.1
    replied-IsKept (thrown text) s r e = eq-IsKept (ok-injective e) (same-IsKept s)
    replied-IsKept (returned items) s r e = respond-IsKept items s r e

    deliver-IsKept :
        (m : Body) (s : Service) (r : Ended Code × Service)
        → deliver rt env m s ≡ ok r
        → IsKept s r.1
    unfolding hello bye probe
    deliver-IsKept (hello_body m version) s r e =
        called-IsKept s.p _ s (λ obj. log-IsKept s s.wsa _) (ok-injective e)
    deliver-IsKept (bye_body m version) s r e =
        called-IsKept s.p _ s (λ obj. log-IsKept s s.wsa _) (ok-injective e)
    deliver-IsKept (probe_body m) s r e =
        asked-IsKept s.p _ s
          (λ obj e.
            let (w, _, rest) = >>=-eq-ok (response_header rt env s.wsa) _ e in
            then-IsKept (log-IsKept s w (called_probe (probe_arg m) ∷ []))
              (replied-IsKept (obj.probe (probe_arg m)) _ r rest))
          e

    dispatch-IsKept :
        (m : Body) (s : Service) (r : Ended Code × Service)
        → dispatch env (deliver rt env m) s ≡ ok r
        → IsKept s r.1
    unfolding dispatch
    dispatch-IsKept m s r e =
        let (b, got, after) = >>=-eq-ok (deliver rt env m s) (λ b. ok (after_base env b)) e in
        eq-IsKept (ok-injective after)
          (then-IsKept (deliver-IsKept m s b got) (after_base-IsKept b))

-- The header of a message is left in the `struct soap`.
header-IsKept :
    (s : Service) (h : Option Header) → IsKept s (record s { wsa = record (s.wsa) { header = h } })
header-IsKept s h = record {
  p = refl;
  send_timeout = refl;
  recv_timeout = refl;
  accept_timeout = refl;
  mode = refl;
  socket = refl;
  vector = λ is. is;
  new_matches = [];
  items = sym (append-nil s.matches.items);
  more = [];
  events = sym (append-nil s.events);
}

-- Messages in the order in which they are served, each with its header, and with what its call of
-- `dispatch` is given from outside.
unfoldable pub serve_messages : Runtime → List (World × Message) → Service → Outcome Service
serve_messages rt [] s = ok s
serve_messages rt ((env, m) ∷ ms) s = do
  r ← dispatch env (deliver rt env m.body) (record s { wsa = record (s.wsa) { header = m.header } })
  serve_messages rt ms r.1

-- Any sequence of messages that a service gets through, each with its header, leaves it bound to the
-- same object, with the same timeouts, mode and socket, its vector of matches within its room with all earlier matches
-- in it, since none is ever removed, and all earlier events in place. The clock, the source of ids and
-- the output calls that fail may be others at each message; where a full vector grows, it grows.
pub serve_messages-IsKept :
    (rt : Runtime) (ms : List (World × Message)) (s s' : Service)
    → All (λ (p : World × Message). (n : ℕ) → n < p.0.grow n) ms
    → serve_messages rt ms s ≡ ok s'
    → IsKept s s'
unfolding serve_messages
serve_messages-IsKept rt [] s s' grows e = subst (IsKept s) (ok-injective e) (same-IsKept s)
serve_messages-IsKept rt ((env, m) ∷ ms) s s' (first, rest) e =
    let s0 : Service = record s { wsa = record (s.wsa) { header = m.header } } in
    let (r, one, others) =
      >>=-eq-ok (dispatch env (deliver rt env m.body) s0) (λ r. serve_messages rt ms r.1) e in
    then-IsKept (header-IsKept s m.header) (
      then-IsKept (dispatch-IsKept rt env first m.body s0 r one)
        (serve_messages-IsKept rt ms r.1 s' rest others))
