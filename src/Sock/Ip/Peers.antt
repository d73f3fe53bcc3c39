-- ===== src/Sock/Ip/Peers.antt =====
-- Where a `Udp` sends to (sock/udp.cpp).
use onvifxx.Base.{ℕ, ◌≡◌, ◌≢◌, arith}
use onvifxx.Base.Chars.{Text}
use onvifxx.Sock.Asio.{Asio}
use onvifxx.Sock.Ip.{Ip, udp, connect, send, recv}
use onvifxx.Sock.Udp
use onvifxx.Sock.Udp.{Udp, Peer}

module _ (asio : Asio) where
  -- A datagram on a socket, to the given peer.
  abbrev pub datagram : Text → Peer asio → asio.UdpSocket → ℕ × Ip asio
  datagram text peer s =
      let (rv, s') = asio.udp_send_to text peer.address peer.port s in
      (rv, udp (record { socket = s'; endpoint = peer }))

  -- What is sent after a connect to an address that can be read goes to that address, even where
  -- connecting failed. After an address that cannot be read, it goes where it would have gone before.
  -- After a receive it goes to the sender that the receive reports, whoever that is; after one that
  -- failed, to where it would have gone before.
  pub udp_peer :
      (text host : Text) (port n : ℕ) (s : asio.UdpSocket) (peer : Peer asio)
      → let (code, addr) = asio.from_string host in
        let (rv, bytes, from, from_port, s') = asio.udp_receive_from n s in
        (code ≡ 0
          → send asio text (connect asio host port (udp (record { socket = s; endpoint = peer }))).1
            ≡ datagram text
                (record { address = addr; port = port })
                (asio.udp_connect addr port s).1)
        × (code ≢ 0
            → send asio text
                (connect asio host port (udp (record { socket = s; endpoint = peer }))).1
              ≡ datagram text peer s)
        × (rv ≡ 0
            → send asio text (recv asio n (udp (record { socket = s; endpoint = peer }))).2
              ≡ datagram text (record { address = from; port = from_port }) s')
        × (rv ≢ 0
            → send asio text (recv asio n (udp (record { socket = s; endpoint = peer }))).2
              ≡ datagram text peer s')
  unfolding connect send recv Udp.connect Udp.send Udp.recv
  udp_peer text host port n s peer = (
    λ read. ground (arith, read),
    λ unread. ground (arith, unread),
    λ worked. ground (arith, worked),
    λ failed. ground (arith, failed),
  )
