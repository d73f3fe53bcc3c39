-- ===== src/Sock/Impl/Attached.antt =====
-- What holds of a `struct soap` while a `Sock` is attached to it.
pub mod Steps
pub mod Progress
use onvifxx.Base.{
  ℕ, ◌+◌, ◌≡◌, refl, sym, ap, subst, ◌∙◌, Option, none, some, List, [], ◌∷◌, arith, Bool-cases,
  ◌==◌, inl, inr,
}
use onvifxx.Base.Chars.{Text, codes}
use onvifxx.Base.Outcome.{Outcome, ok, ◌>>=◌, >>=-eq-ok, ok-injective, deref}
use onvifxx.Sock.Endpoint.{from_url, Endpoint}
use onvifxx.Sock.Hooks.{installed}
use onvifxx.Sock.Ip
use onvifxx.Sock.Asio.{Asio}
use onvifxx.Sock.Ip.{Ip}
use onvifxx.Sock.Impl.{
  Soap, Impl, Status, soap_ok, open_endpoint, in_addr, SenderError, create, own_impl, report,
  with_ip, adopt, to_size, new_ip, connect, close, send, recv, checked, resolve, serveloop,
}
use onvifxx.Sock.Impl.Calls.{
  Call, opens, connects, closes, polls, ignores, accepts, serves, sends, receives, resolves, step,
  run,
}

deref-eq-ok {ℓ} : {A : Type ℓ} (o : Option A) {a : A} → deref o ≡ ok a → o ≡ some a
deref-eq-ok none h = cc
deref-eq-ok (some a) h = cc

-- One connection if there is one, else none.
abbrev pub owned : {asio : Asio} → Option (Ip asio) → ℕ
owned none = 0
owned (some ip) = 1

-- `w` is `origin` with a `Sock` attached: its callbacks are `Impl`'s, those of `origin` are saved, and
-- it owns the connections that are live beyond those of `origin`.
pub record IsAttached {asio : Asio} (origin w : Soap asio) : Type 0 where
  pub impl : Impl asio
  pub user : w.user ≡ some impl
  pub own : impl.s ≡ w.address
  pub address : w.address ≡ origin.address
  pub context : impl.context ≡ origin.hooks
  pub hooks : w.hooks ≡ installed
  pub others : w.others ≡ origin.others
  pub live : w.live ≡ origin.live + owned impl.ip

module _ {asio : Asio} where
  pub create-IsAttached : (origin w : Soap asio) → create (some origin) ≡ ok w → IsAttached origin w
  unfolding create
  create-IsAttached origin w e = record {
    impl = record { s = origin.address; ip = none; context = origin.hooks };
    user = ground arith;
    own = ground arith;
    address = ground arith;
    context = refl;
    hooks = ground arith;
    others = ground arith;
    live = ground arith;
  }

  module _ (origin w : Soap asio) (a : IsAttached origin w) where
    pub own_impl-IsAttached : own_impl w ≡ ok a.impl
    unfolding own_impl
    own_impl-IsAttached = ground (arith, a.user, a.own)

    pub set-IsAttached :
        (ip : Ip asio) (err : Option SenderError) (n : ℕ)
        → n ≡ origin.live + 1
        → IsAttached origin (record w {
          user = some (record (a.impl) { ip = some ip });
          sender_error = err;
          live = n;
        })
    set-IsAttached ip err n e = record {
      impl = record (a.impl) { ip = some ip };
      user = refl;
      own = a.own;
      address = a.address;
      context = a.context;
      hooks = a.hooks;
      others = a.others;
      live = e;
    }

    pub error-IsAttached :
        (err : Option SenderError) → IsAttached origin (record w { sender_error = err })
    error-IsAttached err = record {
      impl = a.impl;
      user = a.user;
      own = a.own;
      address = a.address;
      context = a.context;
      hooks = a.hooks;
      others = a.others;
      live = a.live;
    }

    live_one : (old : Ip asio) → a.impl.ip ≡ some old → w.live ≡ origin.live + 1
    live_one old e = rw e at a.live

    -- A report changes the error alone.
    report-IsAttached :
        (ip old : Ip asio) (reason : Text) (code : ℕ)
        → a.impl.ip ≡ some old
        → IsAttached origin (report (with_ip w a.impl ip) ip reason code).1
    unfolding report with_ip
    report-IsAttached ip old reason code e = elim (Bool-cases (code == 0)) [
      | inl good ↦ rw (good, report) (set-IsAttached ip w.sender_error w.live (live_one old e))
      | inr bad ↦ rw (bad, report) (set-IsAttached ip _ w.live (live_one old e))
    ]

    adopt-IsAttached : (r : ℕ × Ip asio) → IsAttached origin (adopt w a.impl r).1
    unfolding adopt report with_ip
    adopt-IsAttached (code, ip) = elim (Bool-cases (code == 0)) [
      | inl good ↦ rw (good, adopt) (set-IsAttached ip w.sender_error _ (ground (arith, a.live)))
      | inr bad ↦ rw (bad, adopt) (error-IsAttached _)
    ]

    own-eq-ok {ℓ} :
        {B : Type ℓ} (k : Impl asio → Outcome B) {b : B}
        → (own_impl w >>= k) ≡ ok b
        → k a.impl ≡ ok b
    own-eq-ok k e =
        let (_, mine, rest) = >>=-eq-ok (own_impl w) k e in
        ap k (ok-injective (sym own_impl-IsAttached ∙ mine)) ∙ rest

    -- A callback that succeeds found its connection.
    pub using-eq-ok {ℓ} :
        {B : Type ℓ} (k : Impl asio → Ip asio → Outcome B) {b : B}
        → (do impl ← own_impl w; ip ← deref impl.ip; k impl ip) ≡ ok b
        → (old : Ip asio) × (a.impl.ip ≡ some old) × (k a.impl old ≡ ok b)
    using-eq-ok k e =
        let rest = own-eq-ok (λ impl. deref impl.ip >>= k impl) e in
        let (old, given, done) = >>=-eq-ok (deref a.impl.ip) (k a.impl) rest in
        (old, deref-eq-ok a.impl.ip given, done)

    pub close-IsAttached : (r : Status × Soap asio) → close w ≡ ok r → IsAttached origin r.1
    unfolding close
    close-IsAttached r e =
        let (old, given, done) =
          using-eq-ok
            (λ impl ip.
              let (result, ip') = Ip.close asio ip in
              ok (report (with_ip w impl ip') ip' (codes "failed to close") result))
            e in
        subst (λ (r : Status × Soap asio). IsAttached origin r.1) (ok-injective done)
          (report-IsAttached _ old _ _ given)

    pub send-IsAttached :
        (text : Text) (r : Status × Soap asio) → send text w ≡ ok r → IsAttached origin r.1
    unfolding send
    send-IsAttached text r e =
        let (old, given, done) =
          using-eq-ok
            (λ impl ip.
              let (result, ip') = Ip.send asio text ip in
              ok (report (with_ip w impl ip') ip' (codes "failed to send") result))
            e in
        subst (λ (r : Status × Soap asio). IsAttached origin r.1) (ok-injective done)
          (report-IsAttached _ old _ _ given)

    pub recv-IsAttached :
        (n : ℕ) (r : ℕ × Text × Soap asio) → recv n w ≡ ok r → IsAttached origin r.2
    unfolding recv
    recv-IsAttached n r e =
        let (old, given, done) =
          using-eq-ok
            (λ impl ip.
              let (result, bytes, ip') = Ip.recv asio n ip in
              let (status, w') = report (with_ip w impl ip') ip' (codes "failed to recv") result in
              ok (to_size status, bytes, w'))
            e in
        subst (λ (r : ℕ × Text × Soap asio). IsAttached origin r.2) (ok-injective done)
          (report-IsAttached _ old _ _ given)

    pub connect-eq-ok :
        (endpoint host : Text) (port : ℕ) (r : Status × Soap asio)
        → connect endpoint host port w ≡ ok r
        → (u : Endpoint) × (from_url endpoint ≡ ok u)
          × (adopt w a.impl (Ip.connect asio host port (new_ip u.is_udp)) ≡ r)
    unfolding connect
    connect-eq-ok endpoint host port r e =
        let rest =
          own-eq-ok
            (λ impl. do
              u ← from_url endpoint
              ok (adopt w impl (Ip.connect asio host port (new_ip u.is_udp))))
            e in
        let (u, url, done) =
          >>=-eq-ok (from_url endpoint)
            (λ u. ok (adopt w a.impl (Ip.connect asio host port (new_ip u.is_udp)))) rest in
        (u, url, ok-injective done)

    pub connect-IsAttached :
        (endpoint host : Text) (port : ℕ) (r : Status × Soap asio)
        → connect endpoint host port w ≡ ok r
        → IsAttached origin r.1
    connect-IsAttached endpoint host port r e =
        let (u, _, done) = connect-eq-ok endpoint host port r e in
        subst (λ (r : Status × Soap asio). IsAttached origin r.1) done
          (adopt-IsAttached (Ip.connect asio host port (new_ip u.is_udp)))

    pub checked-IsAttached : (r : Status × Soap asio) → checked w ≡ ok r → IsAttached origin r.1
    unfolding checked
    checked-IsAttached r e =
        let (_, _, done) = >>=-eq-ok (own_impl w) (λ _. ok (soap_ok, w)) e in
        subst (λ (r : Status × Soap asio). IsAttached origin r.1) (ok-injective done) a

    pub resolve-IsAttached :
        (resolver : Text → Text → Option ℕ) (addr : Text) (r : Status × ℕ × Soap asio)
        → resolve resolver addr w ≡ ok r
        → IsAttached origin r.2
    unfolding resolve
    resolve-IsAttached resolver addr r e =
        let (_, _, rest) =
          >>=-eq-ok (own_impl w)
            (λ _. do u ← from_url addr; n ← in_addr resolver u; ok (soap_ok, n, w)) e in
        let (u, _, rest') =
          >>=-eq-ok (from_url addr) (λ u. do n ← in_addr resolver u; ok (soap_ok, n, w)) rest in
        let (n, _, done) = >>=-eq-ok (in_addr resolver u) (λ n. ok (soap_ok, n, w)) rest' in
        subst (λ (r : Status × ℕ × Soap asio). IsAttached origin r.2) (ok-injective done) a

  pub serveloop-IsAttached :
      {origin : Soap asio} (w : Soap asio)
      → IsAttached origin w
      → (r : Status × Soap asio) → serveloop w ≡ ok r
      → IsAttached origin r.1
  unfolding serveloop
  serveloop-IsAttached {origin} w a r e =
      subst (λ (r : Status × Soap asio). IsAttached origin r.1) (ok-injective e) a
