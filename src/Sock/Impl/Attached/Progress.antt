-- ===== src/Sock/Impl/Attached/Progress.antt =====
-- Which calls through the callbacks of a `Sock` return.
use onvifxx.Base.{ℕ, ◌≡◌, ◌↔◌, refl, ap, ◌∙◌, Option, none, some}
use onvifxx.Base.Chars.{Text, codes}
use onvifxx.Base.Outcome.{Outcome, ok, fault, uncaught, ◌>>=◌, >>=-eq-ok, deref}
use onvifxx.Sock.Endpoint.{from_url, Endpoint}
use onvifxx.Sock.Endpoint.Url.{IsUrl, from_url-iff-IsUrl}
use onvifxx.Sock.Ip
use onvifxx.Sock.Asio.{Asio}
use onvifxx.Sock.Ip.{Ip}
use onvifxx.Sock.Impl.{
  Soap, Impl, Status, soap_ok, open_endpoint, in_addr, own_impl, report, with_ip, adopt, to_size,
  new_ip, connect, close, send, recv, checked, resolve, serveloop,
}
use onvifxx.Sock.Impl.Calls.{
  Call, opens, connects, closes, polls, ignores, accepts, serves, sends, receives, resolves, step,
}
use onvifxx.Sock.Impl.Attached.{IsAttached, own_impl-IsAttached, using-eq-ok, connect-eq-ok}

resolved-eq :
    (o : Option ℕ) (n : ℕ)
    → (elim o as (λ _. Outcome ℕ) [ none ↦ fault uncaught | some a ↦ ok a ]) ≡ ok n
    → o ≡ some n
resolved-eq none n e = cc
resolved-eq (some m) n e = cc

module _ {asio : Asio} (resolver : Text → Text → Option ℕ) where
  -- What a call needs: an address of the grammar, a connection, or an address that can be resolved.
  abbrev pub CanRun : Call → Option (Ip asio) → Type 0
  CanRun (opens endpoint host port) ip = (u : Endpoint) × IsUrl endpoint u
  CanRun (connects endpoint host port) ip = (u : Endpoint) × IsUrl endpoint u
  CanRun closes ip = (old : Ip asio) × (ip ≡ some old)
  CanRun (sends text) ip = (old : Ip asio) × (ip ≡ some old)
  CanRun (receives n) ip = (old : Ip asio) × (ip ≡ some old)
  CanRun (resolves addr) ip =
      (u : Endpoint) × IsUrl addr u × (n : ℕ) × (resolver u.host u.service ≡ some n)
  CanRun _ ip = Unit {0}

  module _ (origin w : Soap asio) (a : IsAttached origin w) where
    using-ok :
        {B : Type 0} (k : Impl asio → Ip asio → Outcome B) (old : Ip asio)
        → a.impl.ip ≡ some old
        → (do impl ← own_impl w; ip ← deref impl.ip; k impl ip) ≡ k a.impl old
    using-ok k old e =
        ap (λ o. o >>= λ impl. deref impl.ip >>= λ ip. k impl ip) (own_impl-IsAttached origin w a)
        ∙ ap (λ o. deref o >>= λ ip. k a.impl ip) e

    connect_runs :
        (endpoint host : Text) (port : ℕ) (u : Endpoint)
        → IsUrl endpoint u
        → (r : Status × Soap asio) × (connect endpoint host port w ≡ ok r)
    unfolding connect
    connect_runs endpoint host port u url = (
      _,
      ap
            (λ o. o >>= λ impl. from_url endpoint >>= λ u.
              ok (adopt w impl (Ip.connect asio host port (new_ip u.is_udp))))
            (own_impl-IsAttached origin w a)
          ∙ ap
              (λ o. o >>= λ (u : Endpoint).
                ok (adopt w a.impl (Ip.connect asio host port (new_ip u.is_udp))))
              ((from_url-iff-IsUrl endpoint u).1 url),
    )

    resolve_runs :
        (addr : Text) (u : Endpoint) (n : ℕ)
        → IsUrl addr u
        → resolver u.host u.service ≡ some n
        → resolve resolver addr w ≡ ok (soap_ok, n, w)
    unfolding resolve
    resolve_runs addr u n url known =
        ap (λ o. o >>= λ _. from_url addr >>= λ u. in_addr resolver u >>= λ n. ok (soap_ok, n, w))
          (own_impl-IsAttached origin w a)
        ∙ ap (λ o. o >>= λ u. in_addr resolver u >>= λ n. ok (soap_ok, n, w))
            ((from_url-iff-IsUrl addr u).1 url)
        ∙ ap
            (λ o. (elim o as (λ _. Outcome ℕ) [ none ↦ fault uncaught | some a ↦ ok a ]) >>= λ n.
              ok (soap_ok, n, w))
            known

    resolve_ran :
        (addr : Text) (r : Status × ℕ × Soap asio)
        → resolve resolver addr w ≡ ok r
        → CanRun (resolves addr) a.impl.ip
    unfolding resolve
    resolve_ran addr r e =
        let (_, _, rest) =
          >>=-eq-ok (own_impl w)
            (λ _. do u ← from_url addr; n ← in_addr resolver u; ok (soap_ok, n, w)) e in
        let (u, url, rest') =
          >>=-eq-ok (from_url addr) (λ u. do n ← in_addr resolver u; ok (soap_ok, n, w)) rest in
        let (n, found, done) = >>=-eq-ok (in_addr resolver u) (λ n. ok (soap_ok, n, w)) rest' in
        (u, (from_url-iff-IsUrl addr u).0 url, n, resolved-eq (resolver u.host u.service) n found)

    connect_returns :
        (endpoint host : Text) (port : ℕ)
        → ((w' : Soap asio) × ((do r ← connect endpoint host port w; ok r.1) ≡ ok w'))
          ↔ ((u : Endpoint) × IsUrl endpoint u)
    connect_returns endpoint host port = (
      (λ q.
          let (r, call, _) = >>=-eq-ok (connect endpoint host port w) (λ r. ok r.1) q.1 in
          let (u, url, _) = connect-eq-ok origin w a endpoint host port r call in
          (u, (from_url-iff-IsUrl endpoint u).0 url)),
      λ q.
          let (r, runs) = connect_runs endpoint host port q.0 q.1 in
          (r.1, ap (λ o. o >>= λ (r : Status × Soap asio). ok r.1) runs),
    )

    checked_runs : checked w ≡ ok (soap_ok, w)
    unfolding checked
    checked_runs = ap (λ o. o >>= λ _. ok (soap_ok, w)) (own_impl-IsAttached origin w a)

    checked_returns : ((w' : Soap asio) × ((do r ← checked w; ok r.1) ≡ ok w')) ↔ Unit {0}
    checked_returns =
        ((λ _. tt), λ _. (w, ap (λ o. o >>= λ (r : Status × Soap asio). ok r.1) checked_runs))

    using_returns :
        {B : Type 0} (f : Impl asio → Ip asio → B) (out : B → Soap asio)
        → ((w' : Soap asio) × ((do
          r ← (do impl ← own_impl w; ip ← deref impl.ip; ok (f impl ip))
          ok (out r))
              ≡ ok w'))
          ↔ ((old : Ip asio) × (a.impl.ip ≡ some old))
    using_returns f out = (
      (λ q.
          let (r, call, _) =
            >>=-eq-ok (do impl ← own_impl w; ip ← deref impl.ip; ok (f impl ip)) (λ r. ok (out r))
              q.1 in
          let (old, given, _) = using-eq-ok origin w a (λ impl ip. ok (f impl ip)) call in
          (old, given)),
      λ q. (
        out (f a.impl q.0),
        ap (λ o. o >>= λ r. ok (out r)) (using-ok (λ impl ip. ok (f impl ip)) q.0 q.1),
      ),
    )

    -- On an attached `Sock`, a call through the callbacks returns exactly if it has what it needs: an
    -- address of the grammar to open or to connect, a connection to close, send or receive, an address
    -- that the resolver knows to resolve; all other calls return always. So which calls return does not
    -- depend on what the network does.
    pub step-iff-CanRun :
        (c : Call) → ((w' : Soap asio) × (step resolver c w ≡ ok w')) ↔ CanRun c a.impl.ip
    unfolding step open_endpoint close send recv serveloop
    step-iff-CanRun (opens endpoint host port) = connect_returns endpoint host port
    step-iff-CanRun (connects endpoint host port) = connect_returns endpoint host port
    step-iff-CanRun polls = checked_returns
    step-iff-CanRun ignores = checked_returns
    step-iff-CanRun accepts = checked_returns
    step-iff-CanRun serves = ((λ _. tt), λ _. (w, refl))
    step-iff-CanRun (resolves addr) = (
      (λ q.
          let (r, call, _) = >>=-eq-ok (resolve resolver addr w) (λ r. ok r.2) q.1 in
          resolve_ran addr r call),
      λ q.
          let (u, url, n, known) = q in
          (
            w,
            ap (λ o. o >>= λ (r : Status × ℕ × Soap asio). ok r.2)
                (resolve_runs addr u n url known),
          ),
    )
    step-iff-CanRun closes =
        using_returns
          (λ impl ip.
            let (result, ip') = Ip.close asio ip in
            report (with_ip w impl ip') ip' (codes "failed to close") result)
          (λ r. r.1)
    step-iff-CanRun (sends text) =
        using_returns
          (λ impl ip.
            let (result, ip') = Ip.send asio text ip in
            report (with_ip w impl ip') ip' (codes "failed to send") result)
          (λ r. r.1)
    step-iff-CanRun (receives n) =
        using_returns {B = ℕ × Text × Soap asio}
          (λ impl ip.
            let (result, bytes, ip') = Ip.recv asio n ip in
            let (status, w') = report (with_ip w impl ip') ip' (codes "failed to recv") result in
            (to_size status, bytes, w'))
          (λ r. r.2)
