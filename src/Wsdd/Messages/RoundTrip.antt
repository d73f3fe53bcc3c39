-- ===== src/Wsdd/Messages/RoundTrip.antt =====
-- What a message carries from the proxy to the service.
use onvifxx.Base.{ℕ, ◌≡◌, ◌↔◌, refl, sym, ◌∙◌, none, some, arith}
use onvifxx.Wsdd.Gsoap.{WsdMatch, Runtime, ClearsPointers}
use onvifxx.Wsdd.Messages.{EndpointReference, ProbeMatch, request_of, arg_of}

-- The endpoint that the other side sees: the port type, if there is one, has taken the place of the
-- address.
abbrev pub seen_endpoint : EndpointReference → EndpointReference
seen_endpoint e = record e {
  address = elim e.port_type [ none ↦ e.address | some p ↦ some p ];
  port_type = none;
}

abbrev pub seen : ProbeMatch → ProbeMatch
seen a = record a { endpoint = elim a.endpoint [ none ↦ none | some e ↦ some (seen_endpoint e) ] }

-- No endpoint, or one without a port type.
abbrev pub HasNoPortType : ProbeMatch → Type 0
HasNoPortType a = elim a.endpoint [ none ↦ Unit {0} | some e ↦ e.port_type ≡ none ]

-- A match without types, scopes and addresses.
pub arg_of-bare :
    (m : WsdMatch) (v w : ℕ)
    → arg_of (record m { types = none; scopes = none; xaddrs = none }) v
      ≡ record (arg_of m w) { types = none; scopes = none; xaddrs = none; version = v }
unfolding arg_of
arg_of-bare m v w = refl

module _ (rt : Runtime) (clears : ClearsPointers rt) where
  pub arg_of-seen : (a : ProbeMatch) → arg_of (request_of rt a) a.version ≡ seen a
  unfolding arg_of request_of
  arg_of-seen a = ground (
    arith, clears.match_endpoint, clears.match_scopes, clears.endpoint_address,
    clears.endpoint_port_type, clears.endpoint_service_name,
  )

  seen-eq : (a : ProbeMatch) → HasNoPortType a → seen a ≡ a
  seen-eq a h = ground arith

  eq-seen : (a : ProbeMatch) → seen a ≡ a → HasNoPortType a
  eq-seen a e = ground arith

  -- Where `soap_default` clears pointers, what `Arg` reads from a `Request` is the argument itself in
  -- every member, but for an endpoint with a port type: there the port type arrives as the address,
  -- and the address and the port type are lost. So the argument arrives unchanged exactly if it has
  -- no endpoint with a port type.
  pub arg_of-request_of :
      (a : ProbeMatch)
      → (arg_of (request_of rt a) a.version ≡ seen a)
        × ((arg_of (request_of rt a) a.version ≡ a) ↔ HasNoPortType a)
  arg_of-request_of a = (
    arg_of-seen a,
    ((λ e. eq-seen a (sym (arg_of-seen a) ∙ e)), λ h. arg_of-seen a ∙ seen-eq a h),
  )
