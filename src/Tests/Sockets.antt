-- ===== src/Tests/Sockets.antt =====
-- Runs of sock/.
use onvifxx.Base.{ℕ, ◌+◌, ◌≡◌, ◌≢◌, refl, ◌↔◌, false, Option, none, some, List, [], ◌∷◌, arith}
use onvifxx.Base.Chars.{Text, codes, text_eq, find}
use onvifxx.Base.Outcome.{ok, fault, null_pointer}
use onvifxx.Sock.Endpoint.{Endpoint, from_url}
use onvifxx.Sock.Endpoint.Url.{IsUrl, http, endpoint, from_url-iff-IsUrl}
use onvifxx.Sock.Hooks.{Transport, Others, foreign, installed, unused}
use onvifxx.Sock.Ip
use onvifxx.Sock.Asio.{Asio}
use onvifxx.Sock.Ip.{Ip, tcp, new_tcp, udp}
use onvifxx.Sock.Tcp
use onvifxx.Sock.Udp.{Peer}
use onvifxx.Sock.Impl.{Soap, Impl, soap_ok, create, destroy, connect, send, close, recv, checked}
use onvifxx.Sock.Ip.Peers.{datagram, udp_peer}
use onvifxx.Sock.Impl.Calls.{Call, connects, sends, receives, polls, run, step}
use onvifxx.Sock.Impl.Attached.{IsAttached, owned}
use onvifxx.Sock.Impl.Attached.Progress.{step-iff-CanRun}
use onvifxx.Sock.Impl.Attached.Steps.{run-IsAttached}
use onvifxx.Sock.Impl.Restore.{destroy-run-create}
use onvifxx.Sock.Impl.Transfer.{connect-Connects, Connects, fault_unconnected, recv-ne-length}

-- A network on which every call succeeds and two bytes arrive. A socket is what was sent on it.
abbrev asio : Asio
asio = record {
  Address = Text;
  any_address = [];
  from_string = λ host. (0, host);
  message = λ code. codes "error";
  TcpSocket = Text;
  tcp_socket = [];
  tcp_connect = λ addr port s. (0, s);
  tcp_close = λ s. (0, s);
  tcp_send = λ text s. (0, text);
  tcp_receive = λ n s. (0, codes "ok", s);
  UdpSocket = Text;
  udp_socket = [];
  udp_connect = λ addr port s. (0, s);
  udp_close = λ s. (0, s);
  udp_send_to = λ text addr port s. (0, text);
  udp_receive_from = λ n s. (0, codes "ok", codes "peer", 3702, s);
}

abbrev on_tcp : Text → Ip asio
on_tcp s = tcp (record { socket = s })

abbrev resolver : Text → Text → Option ℕ
resolver host service = none

abbrev gsoap : Transport
gsoap = record {
  fopen = some (foreign 0);
  fclose = some (foreign 1);
  fsend = some (foreign 2);
  frecv = some (foreign 3);
  fignore = none;
  fconnect = none;
  faccept = some (foreign 4);
  fresolve = none;
  fpoll = some (foreign 5);
  fserveloop = none;
}

abbrev others : Others
others = record {
  fpost = some (foreign 6);
  fget = some (foreign 6);
  fput = some (foreign 6);
  fdel = some (foreign 6);
  fopt = some (foreign 6);
  fhead = some (foreign 6);
  fform = none;
  fposthdr = some (foreign 6);
  fresponse = some (foreign 6);
  fparse = some (foreign 6);
  fparsehdr = some (foreign 6);
  fheader = none;
  fdisconnect = none;
  fclosesocket = some (foreign 6);
  fshutdownsocket = some (foreign 6);
  fseterror = none;
  fplugin = some (foreign 6);
  fmalloc = none;
  feltbegin = none;
  feltendin = none;
  feltbegout = none;
  feltendout = none;
  fprepareinitsend = none;
  fprepareinitrecv = none;
  fpreparesend = none;
  fpreparerecv = none;
  fpreparefinalsend = none;
  fpreparefinalrecv = none;
  ffiltersend = none;
  ffilterrecv = none;
  fdimereadopen = none;
  fdimewriteopen = none;
  fdimereadclose = none;
  fdimewriteclose = none;
  fdimeread = none;
  fdimewrite = none;
  fmimereadopen = none;
  fmimewriteopen = none;
  fmimereadclose = none;
  fmimewriteclose = none;
  fmimeread = none;
  fmimewrite = none;
}

-- A fresh `struct soap`, and the same with a `Sock`, before and after it is connected.
abbrev origin : Soap asio
origin = record {
  address = 7;
  hooks = gsoap;
  others = others;
  user = none;
  sender_error = none;
  live = 0;
}

abbrev impl : Option (Ip asio) → Impl asio
impl ip = record { s = 7; ip = ip; context = gsoap }

abbrev attached : Option (Ip asio) → Soap asio
attached ip = record origin { hooks = installed; user = some (impl ip); live = owned ip }

created : create (some origin) ≡ ok (attached none)
unfolding create unused
created = refl

abbrev fresh : IsAttached origin (attached none)
fresh = record {
  impl = impl none;
  user = refl;
  own = refl;
  address = refl;
  context = refl;
  hooks = refl;
  others = refl;
  live = refl;
}

abbrev opened : IsAttached origin (attached (some (on_tcp (codes "hello"))))
opened = record {
  impl = impl (some (on_tcp (codes "hello")));
  user = refl;
  own = refl;
  address = refl;
  context = refl;
  hooks = refl;
  others = refl;
  live = refl;
}

abbrev calls : List Call
calls =
    polls
    ∷ connects (codes "http://host:8080") (codes "host") 8080
    ∷ sends (codes "hello")
    ∷ receives 64
    ∷ []

called :
    run {asio = asio} resolver calls (attached none) ≡ ok (attached (some (on_tcp (codes "hello"))))
unfolding run step connect send recv checked from_url text_eq find new_tcp Ip.connect Ip.send
    Ip.recv Tcp.create Tcp.connect Tcp.send Tcp.recv
called = refl

run-IsAttached_example : IsAttached origin (attached (some (on_tcp (codes "hello"))))
run-IsAttached_example =
    run-IsAttached resolver origin calls (attached none) (attached (some (on_tcp (codes "hello"))))
      fresh called

destroy-run-create_example :
    (i : Impl asio) × (some (impl (some (on_tcp (codes "hello")))) ≡ some i)
    × (destroy (attached (some (on_tcp (codes "hello"))))
        ≡ ok (record origin { sender_error = none; live = 0 + owned i.ip }))
destroy-run-create_example =
    destroy-run-create resolver origin (attached none) (attached (some (on_tcp (codes "hello"))))
      calls created called

-- The connection that was open is still allocated.
destroyed : destroy (attached (some (on_tcp (codes "hello")))) ≡ ok (record origin { live = 1 })
unfolding destroy
destroyed = refl

connected :
    connect (codes "http://host:8080") (codes "host") 8080 (attached none)
    ≡ ok (soap_ok, attached (some (on_tcp [])))
unfolding connect from_url text_eq find new_tcp Ip.connect Tcp.create Tcp.connect
connected = refl

connect-Connects_example :
    (u : Endpoint) × IsUrl (codes "http://host:8080") u
    × Connects u.is_udp (attached none) (soap_ok, attached (some (on_tcp [])))
connect-Connects_example =
    connect-Connects origin (attached none) fresh (codes "http://host:8080") (codes "host") 8080
      (soap_ok, attached (some (on_tcp []))) connected

unconnected :
    (close (attached none) ≡ fault null_pointer)
    × (send (codes "hello") (attached none) ≡ fault null_pointer)
    × (recv 64 (attached none) ≡ fault null_pointer)
unconnected = fault_unconnected origin (attached none) fresh (codes "hello") 64 refl

abbrev open_connection : Soap asio
open_connection = attached (some (on_tcp (codes "hello")))

received : recv 64 open_connection ≡ ok (0, codes "ok", open_connection)
unfolding recv Ip.recv Tcp.recv
received = refl

recv-ne-length_example : ◌≢◌ {A = ℕ} 0 2
recv-ne-length_example =
    recv-ne-length origin open_connection opened 64 (0, codes "ok", open_connection) received
      (ground arith) (ground arith)

from_url-iff-IsUrl_example :
    (from_url (codes "http://host:8080") ≡ ok (endpoint http (codes "host") (codes "8080")))
    ↔ IsUrl (codes "http://host:8080") (endpoint http (codes "host") (codes "8080"))
from_url-iff-IsUrl_example =
    from_url-iff-IsUrl (codes "http://host:8080") (endpoint http (codes "host") (codes "8080"))

split :
    from_url (codes "https://host")
    ≡ ok (record {
      scheema = codes "https://";
      host = codes "host";
      service = codes "443";
      is_udp = false;
    })
unfolding from_url text_eq find
split = refl

abbrev peer : Peer asio
peer = record { address = codes "peer"; port = 1 }

abbrev on_udp : Ip asio
on_udp = udp (record { socket = []; endpoint = peer })

udp_peer_example :
    (◌≡◌ {A = ℕ} 0 0
      → Ip.send asio (codes "hi") (Ip.connect asio (codes "host") 80 on_udp).1
        ≡ datagram asio (codes "hi") (record { address = codes "host"; port = 80 }) [])
    × (◌≢◌ {A = ℕ} 0 0
        → Ip.send asio (codes "hi") (Ip.connect asio (codes "host") 80 on_udp).1
          ≡ datagram asio (codes "hi") peer [])
    × (◌≡◌ {A = ℕ} 0 0
        → Ip.send asio (codes "hi") (Ip.recv asio 64 on_udp).2
          ≡ datagram asio (codes "hi") (record { address = codes "peer"; port = 3702 }) [])
    × (◌≢◌ {A = ℕ} 0 0
        → Ip.send asio (codes "hi") (Ip.recv asio 64 on_udp).2 ≡ datagram asio (codes "hi") peer [])
udp_peer_example = udp_peer asio (codes "hi") (codes "host") 80 64 [] peer

step-iff-CanRun_example :
    ((w' : Soap asio) × (step resolver (sends (codes "hi")) open_connection ≡ ok w'))
    ↔ ((old : Ip asio) × (some (on_tcp (codes "hello")) ≡ some old))
step-iff-CanRun_example =
    step-iff-CanRun resolver origin open_connection opened (sends (codes "hi"))
