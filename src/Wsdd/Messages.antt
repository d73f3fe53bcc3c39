-- ===== src/Wsdd/Messages.antt =====
-- The arguments of `RemoteDiscovery` (include/onvifxx/remotediscovery.hpp), and their way to and from
-- the classes that travel: `Wsa::Request` (wsdd/wsa.hpp) and `RemoteDiscoveryService::Arg`
-- (wsdd/remotediscovery_service.cpp). A pointer is an option of what it points to.
pub mod RoundTrip
use onvifxx.Base.{ℕ, Option, none, some}
use onvifxx.Base.Chars.{Text}
use onvifxx.Wsdd.Gsoap.{
  Item, WsaServiceName, WsaEndpointReference, WsdScopes, WsdMatch, WsdProbe, Runtime,
}

pub record Scopes : Type 0 where
  pub item : Text
  pub match_by : Option Text

pub record ServiceName : Type 0 where
  pub item : Text
  pub port_name : Option Text

pub record EndpointReference : Type 0 where
  pub address : Option Text
  pub port_type : Option Text
  pub service_name : Option ServiceName

pub record Probe : Type 0 where
  pub types : Option Text
  pub scopes : Option Scopes

-- `Hello_t` and `Bye_t` as well
pub record ProbeMatch : Type 0 where
  pub endpoint : Option EndpointReference
  pub types : Option Text
  pub scopes : Option Scopes
  pub xaddrs : Option Text
  pub version : ℕ

module _ (rt : Runtime) where
  -- `if (p != nullptr) { field = …; }`: a null pointer leaves what `soap_default` put there
  abbrev filled {ℓ κ} : {A : Type ℓ} {B : Type κ} → Option A → Option B → (A → B) → Option B
  filled none old f = old
  filled (some a) old f = some (f a)

  endpoint_of : EndpointReference → WsaEndpointReference
  endpoint_of e = record {
    address = filled e.address rt.default_endpoint.address λ a. record { item = a };
    port_type = filled e.port_type rt.default_endpoint.port_type λ p. record { item = p };
    service_name =
        filled e.service_name rt.default_endpoint.service_name
          λ n. record { item = n.item; port_name = n.port_name };
  }

  -- `Wsa::Request`
  pub request_of : ProbeMatch → WsdMatch
  unfolding endpoint_of
  request_of arg = record {
    types = arg.types;
    xaddrs = arg.xaddrs;
    scopes =
        filled arg.scopes rt.default_match.scopes
          λ s. record { item = s.item; match_by = s.match_by };
    endpoint = filled arg.endpoint rt.default_match.endpoint endpoint_of;
  }

abbrev mapped {ℓ κ} : {A : Type ℓ} {B : Type κ} → Option A → (A → B) → Option B
mapped none f = none
mapped (some a) f = some (f a)

-- The port type is written to `address`, over the address, and `portType` stays null.
pub received_endpoint : WsaEndpointReference → EndpointReference
received_endpoint e = record {
  address = elim e.port_type [ none ↦ mapped e.address (λ a. a.item) | some p ↦ some p.item ];
  port_type = none;
  service_name = mapped e.service_name λ n. record { item = n.item; port_name = n.port_name };
}

-- `Arg`, with the version that the caller sets beside it
pub arg_of : WsdMatch → ℕ → ProbeMatch
unfolding received_endpoint
arg_of m version = record {
  types = m.types;
  xaddrs = m.xaddrs;
  scopes = mapped m.scopes λ s. record { item = s.item; match_by = s.match_by };
  endpoint = mapped m.endpoint received_endpoint;
  version = version;
}
