-- ===== src/Sock/Tcp.antt =====
-- sock/tcp.hpp and sock/tcp.cpp: a connection over TCP.
use onvifxx.Base.{ℕ, ◌==◌, if◌then◌else◌}
use onvifxx.Base.Chars.{Text}
use onvifxx.Sock.Asio.{Asio}

pub record Tcp (asio : Asio) : Type 0 where
  pub socket : asio.TcpSocket

module _ (asio : Asio) where
  -- `Tcp()`
  unfoldable pub create : Tcp asio
  create = record { socket = asio.tcp_socket }

  -- The address is read first; where it cannot be, the socket is not touched.
  unfoldable pub connect : Text → ℕ → Tcp asio → ℕ × Tcp asio
  connect host port t =
      let (code, addr) = asio.from_string host in
      let (rv, s) = asio.tcp_connect addr port t.socket in
      if code == 0 then (rv, record { socket = s }) else (code, t)

  unfoldable pub close : Tcp asio → ℕ × Tcp asio
  close t = let (rv, s) = asio.tcp_close t.socket in (rv, record { socket = s })

  unfoldable pub send : Text → Tcp asio → ℕ × Tcp asio
  send text t = let (rv, s) = asio.tcp_send text t.socket in (rv, record { socket = s })

  -- How many bytes came is not returned.
  unfoldable pub recv : ℕ → Tcp asio → ℕ × Text × Tcp asio
  recv size t =
      let (rv, bytes, s) = asio.tcp_receive size t.socket in (rv, bytes, record { socket = s })
