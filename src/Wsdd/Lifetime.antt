-- ===== src/Wsdd/Lifetime.antt =====
-- The constructors and destructors of wsdd/remotediscovery_proxy.cpp and
-- wsdd/remotediscovery_service.cpp, with that of `Wsa` (wsdd/wsa.cpp), the functions that make a proxy
-- and a service, and the calls that `BaseService` passes on (include/onvifxx/onvifxx.hpp).
use onvifxx.Base.{ℕ, List, [], ◌∷◌}
use onvifxx.Base.Chars.{Text}
use onvifxx.Base.Outcome.{Outcome}
use onvifxx.Wsdd.Gsoap.{Runtime}
use onvifxx.Wsdd.Proxy
use onvifxx.Wsdd.Proxy.{Proxy, url}
use onvifxx.Wsdd.Service
use onvifxx.Wsdd.Service.{Service}
use onvifxx.Wsdd.Wsa
use onvifxx.Wsdd.Wsa.{State}

-- What a destructor asks of gSOAP: the generated `destroy`, and three functions of the library.
pub data Cleanup : Type 0 where
  generated_destroy soap_destroy soap_end soap_done : Cleanup

-- `~Wsa()`
abbrev pub wsa_cleanup : List Cleanup
wsa_cleanup = soap_destroy ∷ soap_end ∷ []

-- `~RemoteDiscoveryProxy()`: its body, and then the member `wsa_`
abbrev pub proxy_cleanup : List Cleanup
proxy_cleanup = generated_destroy ∷ soap_done ∷ wsa_cleanup

-- `~RemoteDiscoveryService()`, likewise
abbrev pub service_cleanup : List Cleanup
service_cleanup = generated_destroy ∷ soap_done ∷ wsa_cleanup

-- `SOAP_IO_UDP`, or none of the mode bits
pub data Mode : Type 0 where
  io_udp io_default : Mode

-- A proxy with what its base class is made for.
pub record Client : Type 0 where
  pub proxy : Proxy
  pub endpoint : Text
  pub mode : Mode
  pub send_timeout : ℕ
  pub recv_timeout : ℕ

module _ (rt : Runtime) where
  -- `RemoteDiscoveryProxy()`, for the `struct soap` that the base class has made
  unfoldable pub create_proxy : State → Client
  unfolding url
  create_proxy s = record {
    proxy = record { wsa = Wsa.create rt s; sent = [] };
    endpoint = url;
    mode = io_udp;
    send_timeout = Proxy.send_timeout;
    recv_timeout = Proxy.recv_timeout;
  }

  -- `RemoteDiscovery::proxy()`
  unfoldable pub proxy : State → Client
  unfolding create_proxy
  proxy = create_proxy

  -- `RemoteDiscovery::service()`
  unfoldable pub service : State → Service
  service = Service.create rt

-- The generated base class of a service.
pub record Binding : Type 0 where
  pub accept : Service → Outcome (ℕ × Service)
  pub serve : Service → Outcome (ℕ × Service)
  pub destroy : Service → Outcome Service

unfoldable pub accept : Binding → Service → Outcome (ℕ × Service)
accept base = base.accept

unfoldable pub serve : Binding → Service → Outcome (ℕ × Service)
serve base = base.serve

unfoldable pub destroy : Binding → Service → Outcome Service
destroy base = base.destroy
