-- ===== src/Sock/Udp.antt =====
-- sock/udp.hpp and sock/udp.cpp: a connection over UDP.
use onvifxx.Base.{ℕ, ◌==◌, if◌then◌else◌}
use onvifxx.Base.Chars.{Text}
use onvifxx.Sock.Asio.{Asio}

-- `udp::endpoint`
pub record Peer (asio : Asio) : Type 0 where
  pub address : asio.Address
  pub port : ℕ

-- `send` sends to `endpoint`.
pub record Udp (asio : Asio) : Type 0 where
  pub socket : asio.UdpSocket
  pub endpoint : Peer asio

module _ (asio : Asio) where
  -- `Udp()`
  unfoldable pub create : Udp asio
  create = record {
    socket = asio.udp_socket;
    endpoint = record { address = asio.any_address; port = 0 };
  }

  -- The address is read first. It becomes the endpoint whether or not the socket can be connected.
  unfoldable pub connect : Text → ℕ → Udp asio → ℕ × Udp asio
  connect host port u =
      let (code, addr) = asio.from_string host in
      let (rv, s) = asio.udp_connect addr port u.socket in
      if code == 0
      then (rv, record { socket = s; endpoint = record { address = addr; port = port } })
      else (code, u)

  unfoldable pub close : Udp asio → ℕ × Udp asio
  close u = let (rv, s) = asio.udp_close u.socket in (rv, record u { socket = s })

  unfoldable pub send : Text → Udp asio → ℕ × Udp asio
  send text u =
      let (rv, s) = asio.udp_send_to text u.endpoint.address u.endpoint.port u.socket in
      (rv, record u { socket = s })

  -- `receive_from` writes the sender into the endpoint, unless it fails.
  unfoldable pub recv : ℕ → Udp asio → ℕ × Text × Udp asio
  recv size u =
      let (rv, bytes, from, port, s) = asio.udp_receive_from size u.socket in
      let sender : Peer asio = record { address = from; port = port } in
      (rv, bytes, record { socket = s; endpoint = if rv == 0 then sender else u.endpoint })
