-- ===== src/Sock/Asio.antt =====
-- Boost.Asio, as sock/ calls it.
use onvifxx.Base.{ℕ}
use onvifxx.Base.Chars.{Text}

-- What the code calls of Boost.Asio. An error code is a number, and 0 is success. Each call takes
-- the socket and returns it as the call leaves it.
pub record Asio : Type 1 where
  pub Address : Type 0
  pub any_address : Address
  pub from_string : Text → ℕ × Address
  pub message : ℕ → Text
  pub TcpSocket : Type 0
  pub tcp_socket : TcpSocket
  pub tcp_connect : Address → ℕ → TcpSocket → ℕ × TcpSocket
  pub tcp_close : TcpSocket → ℕ × TcpSocket
  pub tcp_send : Text → TcpSocket → ℕ × TcpSocket
  -- the bytes that arrive, at most as many as the buffer holds
  pub tcp_receive : ℕ → TcpSocket → ℕ × Text × TcpSocket
  pub UdpSocket : Type 0
  pub udp_socket : UdpSocket
  pub udp_connect : Address → ℕ → UdpSocket → ℕ × UdpSocket
  pub udp_close : UdpSocket → ℕ × UdpSocket
  pub udp_send_to : Text → Address → ℕ → UdpSocket → ℕ × UdpSocket
  -- the bytes and their sender
  pub udp_receive_from : ℕ → UdpSocket → ℕ × Text × Address × ℕ × UdpSocket
