-- ===== src/Sock/Ip.antt =====
-- sock/ip.hpp and sock/ip.cpp: one connection, over TCP or UDP.
pub mod Peers
use onvifxx.Base.{ℕ, ◌≡◌, refl, Bool, true, false, arith}
use onvifxx.Base.Chars.{Text}
use onvifxx.Sock.Asio.{Asio}
use onvifxx.Sock.Tcp
use onvifxx.Sock.Tcp.{Tcp}
use onvifxx.Sock.Udp
use onvifxx.Sock.Udp.{Udp}

-- The classes that implement `Ip`.
pub data Ip (asio : Asio) : Type 0 where
  tcp : Tcp asio → Ip asio
  udp : Udp asio → Ip asio

-- `Ip::isUdp`, which `Tcp` leaves as it is
abbrev pub is_udp_default : Bool
is_udp_default = false

module _ {asio : Asio} where
  pub is_udp : Ip asio → Bool
  is_udp (tcp t) = is_udp_default
  is_udp (udp u) = true

module _ (asio : Asio) where
  -- `new Tcp` and `new Udp`
  unfoldable pub new_tcp : Ip asio
  new_tcp = tcp (Tcp.create asio)

  unfoldable pub new_udp : Ip asio
  new_udp = udp (Udp.create asio)

  -- The virtual functions.
  unfoldable pub connect : Text → ℕ → Ip asio → ℕ × Ip asio
  connect host port (tcp t) = let (rv, t') = Tcp.connect asio host port t in (rv, tcp t')
  connect host port (udp u) = let (rv, u') = Udp.connect asio host port u in (rv, udp u')

  unfoldable pub close : Ip asio → ℕ × Ip asio
  close (tcp t) = let (rv, t') = Tcp.close asio t in (rv, tcp t')
  close (udp u) = let (rv, u') = Udp.close asio u in (rv, udp u')

  unfoldable pub send : Text → Ip asio → ℕ × Ip asio
  send text (tcp t) = let (rv, t') = Tcp.send asio text t in (rv, tcp t')
  send text (udp u) = let (rv, u') = Udp.send asio text u in (rv, udp u')

  unfoldable pub recv : ℕ → Ip asio → ℕ × Text × Ip asio
  recv size (tcp t) = let (rv, bytes, t') = Tcp.recv asio size t in (rv, bytes, tcp t')
  recv size (udp u) = let (rv, bytes, u') = Udp.recv asio size u in (rv, bytes, udp u')

  -- No operation turns one transport into the other.
  pub is_udp-connect :
      (host : Text) (port : ℕ) (ip : Ip asio) → is_udp (connect host port ip).1 ≡ is_udp ip
  unfolding is_udp connect
  is_udp-connect host port (tcp t) = refl
  is_udp-connect host port (udp u) = refl

  pub is_udp-new_tcp : is_udp new_tcp ≡ false
  unfolding is_udp new_tcp
  is_udp-new_tcp = refl

  pub is_udp-new_udp : is_udp new_udp ≡ true
  unfolding is_udp new_udp
  is_udp-new_udp = refl
