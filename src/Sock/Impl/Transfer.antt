-- ===== src/Sock/Impl/Transfer.antt =====
-- Connecting, and moving bytes over a connection.
use onvifxx.Base.{
  ℕ, ◌-◌, ◌^◌, ◌<◌, ◌≡◌, ◌≢◌, ◌⊎◌, inl, inr, refl, sym, ap, subst, ◌∙◌, Bool, true, false, none,
  some, arith, ◌==◌, if◌then◌else◌, Bool-cases, length,
}
use onvifxx.Base.Chars.{Text, codes}
use onvifxx.Base.Outcome.{Outcome, ok, fault, null_pointer, ◌>>=◌, deref, ok-injective}
use onvifxx.Sock.Endpoint.{Endpoint}
use onvifxx.Sock.Endpoint.Url.{IsUrl, from_url-iff-IsUrl}
use onvifxx.Sock.Ip
use onvifxx.Sock.Asio.{Asio}
use onvifxx.Sock.Ip.{Ip, is_udp, is_udp-connect, is_udp-new_tcp, is_udp-new_udp}
use onvifxx.Sock.Impl.{
  Soap, Impl, Status, soap_ok, invalid_socket, NetworkError, tcp_error, udp_error, own_impl,
  error_of, new_ip, with_ip, report, adopt, connect, close, send, recv, to_size,
}
use onvifxx.Sock.Impl.Attached.{IsAttached, own_impl-IsAttached, using-eq-ok, connect-eq-ok}

is_udp-new_ip : (asio : Asio) (b : Bool) → is_udp (new_ip {asio = asio} b) ≡ b
unfolding new_ip
is_udp-new_ip asio true = is_udp-new_udp asio
is_udp-new_ip asio false = is_udp-new_tcp asio

abbrev pub error_for : Bool → NetworkError
error_for udp = if udp then udp_error else tcp_error

to_size-cases : (s : Status) → (to_size s ≡ 0) ⊎ (to_size s ≡ 2 ^ 64 - 1)
unfolding to_size
to_size-cases soap_ok = inl refl
to_size-cases invalid_socket = inr refl

module _ {asio : Asio} where
  -- A new connection over UDP or TCP, as `udp` says, is in place.
  pub record IsConnected (udp : Bool) (w : Soap asio) : Type 0 where
    pub impl : Impl asio
    pub ip : Ip asio
    pub user : w.user ≡ some impl
    pub connection : impl.ip ≡ some ip
    pub transport : is_udp ip ≡ udp

  -- Nothing but the error has changed, and the error is of that transport.
  pub record IsRefused (udp : Bool) (w w' : Soap asio) : Type 0 where
    pub detail : Text
    pub unchanged : w' ≡ record w {
      sender_error =
          some
            (record { reason = codes "failed to connect"; detail = detail; error = error_for udp });
    }

  abbrev pub Connects : Bool → Soap asio → Status × Soap asio → Type 0
  Connects udp w (status, w') =
      ((status ≡ soap_ok) × IsConnected udp w') ⊎ ((status ≡ invalid_socket) × IsRefused udp w w')

  adopt-Connects :
      (udp : Bool) (w : Soap asio) (impl : Impl asio) (r : ℕ × Ip asio)
      → is_udp r.1 ≡ udp
      → Connects udp w (adopt w impl r)
  unfolding adopt report with_ip error_of
  adopt-Connects udp w impl (code, ip) e = elim (Bool-cases (code == 0)) [
    | inl good ↦
        rw (good, adopt)
          (inl (
            refl,
            record {
              impl = record impl { ip = some ip };
              ip = ip;
              user = refl;
              connection = refl;
              transport = e;
            },
          ))
    | inr bad ↦
        rw (bad, adopt)
          (inr (
            refl,
            record {
              detail = asio.message code;
              unchanged =
                  ap
                    (λ b. record w {
                      sender_error = some (record {
                        reason = codes "failed to connect";
                        detail = asio.message code;
                        error = error_for b;
                      });
                    })
                    e;
            },
          ))
  ]

  module _ (origin w : Soap asio) (a : IsAttached origin w) where
    -- `connect` on an attached `Sock`, where it returns at all, was given an address of the grammar.
    -- It reports success and has a connection over the transport that the scheme of the address asks
    -- for, or reports the failure with that transport's error and keeps the old connection and the rest.
    pub connect-Connects :
        (endpoint host : Text) (port : ℕ) (r : Status × Soap asio)
        → connect endpoint host port w ≡ ok r
        → (u : Endpoint) × IsUrl endpoint u × Connects u.is_udp w r
    connect-Connects endpoint host port r e =
        let (u, url, done) = connect-eq-ok origin w a endpoint host port r e in
        let transport =
          is_udp-connect asio host port (new_ip u.is_udp) ∙ is_udp-new_ip asio u.is_udp in
        (
          u,
          (from_url-iff-IsUrl endpoint u).0 url,
          subst (Connects u.is_udp w) done (adopt-Connects u.is_udp w a.impl _ transport),
        )

    fault_without :
        {B : Type 0} (k : Impl asio → Ip asio → Outcome B)
        → a.impl.ip ≡ none
        → (do impl ← own_impl w; ip ← deref impl.ip; k impl ip) ≡ fault null_pointer
    fault_without k e = rw (own_impl-IsAttached origin w a) (rw (e, deref))

    -- Before a connection is made, `close`, `send` and `recv` read through a null pointer.
    pub fault_unconnected :
        (text : Text) (n : ℕ)
        → a.impl.ip ≡ none
        → (close w ≡ fault null_pointer)
          × (send text w ≡ fault null_pointer)
          × (recv n w ≡ fault null_pointer)
    unfolding close send recv
    fault_unconnected text n e = (fault_without _ e, fault_without _ e, fault_without _ e)

    -- Whatever bytes come, if there is one at least, `recv` does not return their number.
    pub recv-ne-length :
        (n : ℕ) (r : ℕ × Text × Soap asio)
        → recv n w ≡ ok r
        → 0 < length r.1
        → length r.1 < 2 ^ 64 - 1
        → r.0 ≢ length r.1
    unfolding recv
    recv-ne-length n r e some_byte fits =
        let (old, _, done) =
          using-eq-ok origin w a
            (λ impl ip.
              let (result, bytes, ip') = Ip.recv asio n ip in
              let (status, w') = report (with_ip w impl ip') ip' (codes "failed to recv") result in
              ok (to_size status, bytes, w'))
            e in
        let size = ap (λ (r : ℕ × Text × Soap asio). r.0) (ok-injective done) in
        λ same. elim (to_size-cases _) [
          | inl none_read ↦ absurd (omega (arith, sym size ∙ none_read))
          | inr failed ↦ absurd (omega (arith, sym size ∙ failed))
        ]
