-- ===== src/Sock/Impl.antt =====
-- `Sock` and `Sock::Impl` of sock/sock.cpp.
pub mod Calls
pub mod Attached
pub mod Restore
pub mod Transfer
use onvifxx.Base.{
  ℕ, suc, ◌+◌, ◌-◌, ◌^◌, Bool, true, false, not, ◌&&◌, Option, none, some, ◌==◌, if◌then◌else◌,
  is_some,
}
use onvifxx.Base.Chars.{Text, codes}
use onvifxx.Base.Outcome.{Outcome, ok, fault, Fault, uncaught, ◌>>=◌, ◌>>◌, assert, deref}
use onvifxx.Sock.Endpoint.{Endpoint, from_url}
use onvifxx.Sock.Hooks.{Transport, Others, installed, unused}
use onvifxx.Sock.Ip
use onvifxx.Sock.Asio.{Asio}
use onvifxx.Sock.Ip.{Ip, is_udp, new_tcp, new_udp}

-- `SOAP_OK` and `SOAP_INVALID_SOCKET`
pub data Status : Type 0 where
  soap_ok invalid_socket : Status

-- `SOAP_TCP_ERROR` and `SOAP_UDP_ERROR`
pub data NetworkError : Type 0 where
  tcp_error udp_error : NetworkError

-- The arguments of the last `soap_set_sender_error`.
pub record SenderError : Type 0 where
  pub reason : Text
  pub detail : Text
  pub error : NetworkError

pub record Impl (asio : Asio) : Type 0 where
  pub s : ℕ
  pub ip : Option (Ip asio)
  pub context : Transport

-- A `struct soap` at `address`. Its `user` is the object that `Sock::impl_` points to as well.
-- `live` counts the connections made by `new` and not yet deleted.
pub record Soap (asio : Asio) : Type 0 where
  pub address : ℕ
  pub hooks : Transport
  pub others : Others
  pub user : Option (Impl asio)
  pub sender_error : Option SenderError
  pub live : ℕ

-- The return type of `recv` is `size_t`.
pub to_size : Status → ℕ
to_size soap_ok = 0
to_size invalid_socket = 2 ^ 64 - 1

-- `inAddr` resolves a host and a service to the number that `to_ulong` returns; Boost throws where
-- there is none.
pub in_addr : (Text → Text → Option ℕ) → Endpoint → Outcome ℕ
in_addr resolver e = elim (resolver e.host e.service) [ none ↦ fault uncaught | some a ↦ ok a ]

module _ {asio : Asio} where
  -- `Sock::Sock`; the pointer may be null
  unfoldable pub create : Option (Soap asio) → Outcome (Soap asio)
  create p = do
    assert (is_some p)
    w ← deref p
    assert (not (is_some w.user))
    assert (unused w.hooks w.others)
    ok (record w {
      hooks = installed;
      user = some (record { s = w.address; ip = none; context = w.hooks });
    })

  -- `Sock::~Sock`
  unfoldable pub destroy : Soap asio → Outcome (Soap asio)
  destroy w = do impl ← deref w.user; ok (record w { hooks = impl.context; user = none })

  -- how each callback begins
  pub own_impl : Soap asio → Outcome (Impl asio)
  own_impl w = do impl ← deref w.user; assert (impl.s == w.address); ok impl

  pub error_of : Ip asio → NetworkError
  error_of ip = if is_udp ip then udp_error else tcp_error

  pub with_ip : Soap asio → Impl asio → Ip asio → Soap asio
  with_ip w impl ip = record w { user = some (record impl { ip = some ip }) }

  -- `if (result) …`: the error is reported for the transport of `ip`
  pub report : Soap asio → Ip asio → Text → ℕ → Status × Soap asio
  unfolding error_of
  report w ip reason code =
      let bad = record w {
        sender_error =
            some (record { reason = reason; detail = asio.message code; error = error_of ip });
      } in
      if code == 0 then (soap_ok, w) else (invalid_socket, bad)

  unfoldable pub close : Soap asio → Outcome (Status × Soap asio)
  unfolding own_impl with_ip report
  close w = do
    impl ← own_impl w
    ip ← deref impl.ip
    let (result, ip') = Ip.close asio ip
    ok (report (with_ip w impl ip') ip' (codes "failed to close") result)

  unfoldable pub send : Text → Soap asio → Outcome (Status × Soap asio)
  unfolding own_impl with_ip report
  send text w = do
    impl ← own_impl w
    ip ← deref impl.ip
    let (result, ip') = Ip.send asio text ip
    ok (report (with_ip w impl ip') ip' (codes "failed to send") result)

  -- the value returned, the bytes in the buffer, and the new state
  unfoldable pub recv : ℕ → Soap asio → Outcome (ℕ × Text × Soap asio)
  unfolding own_impl with_ip report to_size
  recv n w = do
    impl ← own_impl w
    ip ← deref impl.ip
    let (result, bytes, ip') = Ip.recv asio n ip
    let (status, w') = report (with_ip w impl ip') ip' (codes "failed to recv") result
    ok (to_size status, bytes, w')

  -- `ignore`, `accept` and `poll`
  unfoldable pub checked : Soap asio → Outcome (Status × Soap asio)
  unfolding own_impl
  checked w = do _ ← own_impl w; ok (soap_ok, w)

  pub new_ip : Bool → Ip asio
  new_ip udp = if udp then new_udp asio else new_tcp asio

  -- The end of `connect`: on an error `unique_ptr` deletes the new connection, else it takes the
  -- place of the old one, which is deleted.
  pub adopt : Soap asio → Impl asio → ℕ × Ip asio → Status × Soap asio
  unfolding report with_ip
  adopt w impl (code, ip) =
      let kept = if is_some impl.ip then w.live else w.live + 1 in
      if code == 0
      then (soap_ok, with_ip (record w { live = kept }) impl ip)
      else report w ip (codes "failed to connect") code

  unfoldable pub connect : Text → Text → ℕ → Soap asio → Outcome (Status × Soap asio)
  unfolding own_impl new_ip adopt
  connect endpoint host port w = do
    impl ← own_impl w
    e ← from_url endpoint
    ok (adopt w impl (Ip.connect asio host port (new_ip e.is_udp)))

  pub open_endpoint : Text → Text → ℕ → Soap asio → Outcome (Status × Soap asio)
  open_endpoint = connect

  -- The number is what the callback writes to `inaddr->s_addr`.
  pub resolve : (Text → Text → Option ℕ) → Text → Soap asio → Outcome (Status × ℕ × Soap asio)
  unfolding own_impl in_addr
  resolve resolver addr w = do
    _ ← own_impl w
    e ← from_url addr
    a ← in_addr resolver e
    ok (soap_ok, a, w)

  pub serveloop : Soap asio → Outcome (Status × Soap asio)
  serveloop w = ok (soap_ok, w)
