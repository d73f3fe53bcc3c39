-- ===== src/Wsdd/Gsoap.antt =====
-- What the code uses of the gSOAP runtime and of the classes that gSOAP generates from xml/. The
-- records hold the members that the code reads or writes; how the generated code initialises an
-- object, and what the runtime returns, are the fields of `Runtime`.
use onvifxx.Base.{ℕ, ◌≡◌, Bool, true, false, Option, none}
use onvifxx.Base.Chars.{Text}

-- The results that the code tests for or returns.
pub data Code : Type 0 where
  -- SOAP_OK, SOAP_ERR, SOAP_EOM, SOAP_FAULT, SOAP_USER_ERROR
  soap_ok soap_err soap_eom soap_fault soap_user_error : Code
  -- any other
  other : ℕ → Code

-- `rv == SOAP_OK`
abbrev pub is_ok : Code → Bool
is_ok soap_ok = true
is_ok _ = false

-- `wsa__AttributedURI`, `wsa__AttributedQName` and `wsa__Relationship`: a text in `__item`
pub record Item : Type 0 where
  pub item : Text

-- `wsa__ServiceNameType`
pub record WsaServiceName : Type 0 where
  pub item : Text
  pub port_name : Option Text

-- `wsa__EndpointReferenceType`
pub record WsaEndpointReference : Type 0 where
  pub address : Option Item
  pub port_type : Option Item
  pub service_name : Option WsaServiceName

-- `wsd__ScopesType`
pub record WsdScopes : Type 0 where
  pub item : Text
  pub match_by : Option Text

-- `wsd__HelloType` and `wsd__ProbeMatchType` have a version, and `wsd__ByeType` a pointer to one; the
-- version is set beside the constructor that is generic in them.
pub record WsdMatch : Type 0 where
  pub endpoint : Option WsaEndpointReference
  pub types : Option Text
  pub scopes : Option WsdScopes
  pub xaddrs : Option Text

-- `wsd__ProbeType`
pub record WsdProbe : Type 0 where
  pub types : Option Text
  pub scopes : Option WsdScopes

-- `wsd__AppSequenceType`
pub record AppSequence : Type 0 where
  pub instance_id : ℕ
  pub sequence_id : Option Text
  pub message_number : ℕ

-- `SOAP_ENV__Header`. `wsd__AppSequence` is null or points to `Wsa::sequence_`, whose value is read
-- when the header is sent: `true` is that pointer.
pub record Header : Type 0 where
  pub message_id : Text
  pub relates_to : Option Item
  pub from : Option WsaEndpointReference
  pub reply_to : Option WsaEndpointReference
  pub fault_to : Option WsaEndpointReference
  pub to : Text
  pub action : Text
  pub app_sequence : Bool

-- `wsa__FaultSubcodeValues`
pub data Subcode : Type 0 where
  invalid_message_information_header message_information_header_required : Subcode
  destination_unreachable action_not_supported endpoint_unavailable : Subcode
  unlisted : ℕ → Subcode

-- The arguments of a call of `soap_sender_fault_subcode`, or of `soap_sender_fault` (no detail).
pub data Report : Type 0 where
  with_subcode : Subcode → Text → Option Text → Report
  sender_fault : Subcode → Text → Report

-- The generated `soap_default` of the classes above, the header that `soap_header` makes where there
-- is none (null if memory is exhausted), and the result of a reported fault.
pub record Runtime : Type 0 where
  pub default_item : Item
  pub default_service_name : WsaServiceName
  pub default_endpoint : WsaEndpointReference
  pub default_scopes : WsdScopes
  pub default_match : WsdMatch
  pub default_probe : WsdProbe
  pub default_bye_version : Option ℕ
  pub default_sequence : AppSequence
  pub new_header : Option Header
  pub reported : Report → Code

-- gSOAP documents that `soap_default` sets the pointers of an object to null.
pub record ClearsPointers (rt : Runtime) : Type 0 where
  pub endpoint_address : rt.default_endpoint.address ≡ none
  pub endpoint_port_type : rt.default_endpoint.port_type ≡ none
  pub endpoint_service_name : rt.default_endpoint.service_name ≡ none
  pub match_endpoint : rt.default_match.endpoint ≡ none
  pub match_scopes : rt.default_match.scopes ≡ none
  pub bye_version : rt.default_bye_version ≡ none
  pub probe_scopes : rt.default_probe.scopes ≡ none

-- gSOAP documents that a reported fault is an error, never `SOAP_OK`.
abbrev pub ReportsErrors : Runtime → Type 0
ReportsErrors rt = (r : Report) → is_ok (rt.reported r) ≡ false
