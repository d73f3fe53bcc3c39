-- ===== src/Wsdd/Wsa.antt =====
-- `class Wsa` of wsdd/wsa.hpp and wsdd/wsa.cpp: the WS-Addressing header of a message.
pub mod Addressing
pub mod Requests
pub mod Sequence
use onvifxx.Base.{
  ℕ, suc, ◌+◌, ◌%◌, ◌^◌, Bool, true, false, not, ◌||◌, Option, none, some, List, [], ◌∷◌,
  if◌then◌else◌, is_some,
}
use onvifxx.Base.Chars.{Text, codes, is_empty}
use onvifxx.Base.Int.{ℤ}
use onvifxx.Base.Outcome.{Outcome, ok, fault, null_pointer, ◌>>=◌, ◌>>◌, deref}
use onvifxx.Wsdd.Gsoap.{
  Code, soap_ok, soap_err, soap_eom, soap_fault, is_ok, Item, WsaEndpointReference, AppSequence,
  Header, Subcode, invalid_message_information_header, message_information_header_required,
  destination_unreachable, action_not_supported, endpoint_unavailable, unlisted, Report,
  with_subcode, sender_fault, Runtime,
}
use onvifxx.Wsdd.Uuid.{Random, rand_uuid, first_seed}

abbrev pub anonymous_uri : Text
anonymous_uri = codes "http://schemas.xmlsoap.org/ws/2004/08/addressing/role/anonymous"

abbrev pub none_uri : Text
none_uri = codes "addressing/none not supported"

-- The `struct soap` and the `Wsa` on it, with the static variables of its functions: `instance` is
-- unset until the first call of `instanceId`.
pub record State : Type 0 where
  pub header : Option Header
  pub action : Option Text
  pub error : Code
  pub report : Option Report
  pub sequence : AppSequence
  pub instance_rv : Option ℕ
  pub sequence_rv : Text
  pub message_rv : ℕ
  pub seed : ℤ

-- `sequenceId()`
pub sequence_id : State → Text
sequence_id s = s.sequence_rv

abbrev pub Method : Type 0
Method = State → Outcome (Code × State)

abbrev pub missing_header : Report
missing_header =
    with_subcode message_information_header_required
      (codes "A required message information header, To, MessageID, or Action, is not present.")
      (some (codes "Missing Header QName"))

-- The report that `wsaError` makes; for other faults it makes none.
pub report_for : Subcode → Option Text → Option Report
report_for invalid_message_information_header action = some (
    with_subcode invalid_message_information_header
      (codes
        "A message information header is not valid and the message cannot be processed. The validity failure can be either structural or semantic, e.g. a [destination] that is not a URI or a [relationship] to a [message id] that was never issued.")
      (some (codes "Invalid header")))
report_for message_information_header_required action = some missing_header
report_for destination_unreachable action = some (
    with_subcode destination_unreachable
      (codes
        "No route can be determined to reach the destination role defined by the WS-Addressing To.")
      none)
report_for action_not_supported action = some (
    with_subcode action_not_supported (codes "The [action] cannot be processed at the receiver.")
      action)
report_for endpoint_unavailable action = some (
    sender_fault endpoint_unavailable
      (codes "The endpoint is unable to process the message at this time."))
report_for (unlisted n) action = none

-- The first call takes the time.
pub instance_id : ℕ → State → ℕ × State
instance_id clock s = elim s.instance_rv [
  | some i ↦ (i, s)
  | none ↦ (clock % 2 ^ 32, record s { instance_rv = some (clock % 2 ^ 32) })
]

pub message_number : State → ℕ × State
message_number s = let n = (s.message_rv + 1) % 2 ^ 32 in (n, record s { message_rv = n })

-- The function ends without a `return`, so its value is not used here.
pub add_app_sequence : ℕ → Option Text → State → Outcome State
unfolding instance_id message_number
add_app_sequence clock id s = do
  let (instance', s1) = instance_id clock s
  let (number, s2) = message_number s1
  h ← deref s2.header
  ok (record s2 {
    sequence = record { instance_id = instance'; sequence_id = id; message_number = number };
    header = some (record h { app_sequence = true });
  })

pub reply : Text → Text → State → Code × State
reply id action s = (soap_ok, s)

-- The header of a request, from the id on.
pub filled : Text → Text → Text → Header → Header
filled id to action h = record h {
  message_id = id;
  to = if is_empty to then anonymous_uri else to;
  action = action;
  relates_to = none;
  from = none;
  reply_to = none;
  fault_to = none;
}

module _ (rt : Runtime) where
  pub wsa_error : Subcode → State → Code × State
  unfolding report_for
  wsa_error subcode s = elim (report_for subcode s.action) [
    | none ↦ (soap_fault, s)
    | some r ↦ (rt.reported r, record s { report = some r })
  ]

  -- `Wsa::Wsa`
  pub create : State → State
  create s = record s { sequence = rt.default_sequence }

  pub alloc_header : State → Code × State
  alloc_header s = elim s.header [
    | some h ↦ (soap_ok, s)
    | none ↦ elim rt.new_header [
      | some h ↦ (soap_ok, record s { header = some h })
      | none ↦ (soap_eom, record s { error = soap_eom })
    ]
  ]

  pub check : State → Code × State
  unfolding wsa_error
  check s = elim s.header [
    | none ↦ wsa_error message_information_header_required s
    | some h ↦
        if is_empty h.action then wsa_error message_information_header_required s else (soap_ok, s)
  ]

  -- `new wsa__EndpointReferenceType`, defaulted, with a text written through its `Address`
  pub endpoint_at : Text → Outcome WsaEndpointReference
  endpoint_at uri = do
    _ ← deref rt.default_endpoint.address
    ok (record (rt.default_endpoint) { address = some (record { item = uri }) })

  pub add_from : Text → Method
  unfolding endpoint_at
  add_from from s = elim s.header [
    | none ↦ ok (soap_err, s)
    | some h ↦ do
      e ← endpoint_at from
      ok (soap_ok, record s { header = some (record h { from = some e }) })
  ]

  pub add_reply_to : Text → Method
  unfolding endpoint_at
  add_reply_to reply_to s = elim s.header [
    | none ↦ ok (soap_err, s)
    | some h ↦
        let added = (do
          e ← endpoint_at reply_to
          ok (soap_ok, record s { header = some (record h { reply_to = some e }) })) in
        if not (is_empty reply_to) then added else ok (soap_ok, s)
  ]

  pub add_no_reply : Method
  add_no_reply = add_reply_to none_uri

  pub add_fault_to : Text → Method
  unfolding endpoint_at
  add_fault_to fault_to s = elim s.header [
    | none ↦ ok (soap_err, s)
    | some h ↦
        let added = (do
          e ← endpoint_at fault_to
          ok (soap_ok, record s { header = some (record h { fault_to = some e }) })) in
        if not (is_empty fault_to) then added else ok (soap_ok, s)
  ]

  pub add_relates_to : Text → Method
  add_relates_to relates_to s = elim s.header [
    | none ↦ ok (soap_err, s)
    | some h ↦
        let related = record (rt.default_item) { item = relates_to } in
        if not (is_empty relates_to)
        then ok (soap_ok, record s { header = some (record h { relates_to = some related }) })
        else ok (soap_ok, s)
  ]

  pub request : Random → Text → Text → Method
  unfolding alloc_header filled check
  request env to action s = do
    let (code, s1) = alloc_header s
    let done = do
      h ← deref s1.header
      let (id, seed) = rand_uuid s1.seed env
      ok (check (record s1 { header = some (filled id to action h); seed = seed }))
    if is_ok code then done else ok (s1.error, s1)
