-- ===== src/Wsdd/Wsa/Addressing.antt =====
-- The methods of `Wsa` that add an address or a relation to the header.
use onvifxx.Base.{◌≡◌, ◌≢◌, none, some, [], arith}
use onvifxx.Base.Chars.{Text}
use onvifxx.Base.Outcome.{ok, fault, null_pointer}
use onvifxx.Wsdd.Gsoap.{soap_ok, soap_err, Header, Runtime, ClearsPointers}
use onvifxx.Wsdd.Wsa.{State, add_from, add_reply_to, add_no_reply, add_fault_to, add_relates_to}

module _ (rt : Runtime) where
  -- With no header, each of these methods returns `SOAP_ERR` and changes nothing.
  pub add_without_header :
      (s : State) (uri : Text)
      → s.header ≡ none
      → (add_from rt uri s ≡ ok (soap_err, s))
        × (add_reply_to rt uri s ≡ ok (soap_err, s))
        × (add_no_reply rt s ≡ ok (soap_err, s))
        × (add_fault_to rt uri s ≡ ok (soap_err, s))
        × (add_relates_to rt uri s ≡ ok (soap_err, s))
  unfolding add_from add_reply_to add_no_reply add_fault_to add_relates_to
  add_without_header s uri e =
      (ground arith, ground arith, ground arith, ground arith, ground arith)

  pub add_null_address :
      ClearsPointers rt
      → (s : State) (h : Header) (uri : Text) → s.header ≡ some h
      → uri ≢ []
      → (add_from rt uri s ≡ fault null_pointer)
        × (add_no_reply rt s ≡ fault null_pointer)
        × (add_reply_to rt uri s ≡ fault null_pointer)
        × (add_fault_to rt uri s ≡ fault null_pointer)
        × (add_reply_to rt [] s ≡ ok (soap_ok, s))
        × (add_fault_to rt [] s ≡ ok (soap_ok, s))
  unfolding add_from add_reply_to add_no_reply add_fault_to
  add_null_address clears s h uri e ne = (
    ground (arith, clears.endpoint_address),
    ground (arith, clears.endpoint_address),
    ground (arith, clears.endpoint_address),
    ground (arith, clears.endpoint_address),
    ground arith,
    ground arith,
  )

  -- A relation is added for a text that is not empty.
  pub add_relates_to_lem :
      (s : State) (h : Header) (id : Text)
      → s.header ≡ some h
      → id ≢ []
      → add_relates_to rt id s
        ≡ ok (
          soap_ok,
          record s { header = some (record h { relates_to = some (record { item = id }) }) },
        )
  unfolding add_relates_to
  add_relates_to_lem s h id e ne = ground arith
