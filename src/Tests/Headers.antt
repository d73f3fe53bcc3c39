-- ===== src/Tests/Headers.antt =====
-- Runs of wsdd/wsa.cpp and wsdd/wsa.hpp, and of the exceptions.
use onvifxx.Base.{
  ◌+◌, ◌%◌, ◌^◌, ◌≤◌, ◌<◌, ◌≡◌, ◌≢◌, refl, ◌↔◌, true, none, some, [], ◌∷◌, arith, length,
}
use onvifxx.Base.Chars.{codes}
use onvifxx.Base.Int.{pos}
use onvifxx.Base.Outcome.{ok, fault, null_pointer}
use onvifxx.Exceptions.{Unix, what, unix_exception, unix_exception-what}
use onvifxx.Wsdd.Gsoap.{Code, soap_ok, is_ok, ReportsErrors}
use onvifxx.Wsdd.Messages.{request_of, arg_of}
use onvifxx.Wsdd.Messages.RoundTrip.{HasNoPortType, seen, arg_of-request_of}
use onvifxx.Wsdd.Uuid.{first_seed, next_seed, kept_seed, uuid_text}
use onvifxx.Wsdd.Uuid.Seed.{IsSeed, IsExact, next_seed-lehmer, seed-IsExact}
use onvifxx.Wsdd.Uuid.Shape.{IsUuid, uuid_text-IsUuid_iff}
use onvifxx.Wsdd.Wsa.{State, request, add_from, add_no_reply, add_reply_to, add_fault_to}
use onvifxx.Wsdd.Wsa.Addressing.{add_null_address}
use onvifxx.Wsdd.Wsa.Requests.{IsRequested, request-IsRequested}
use onvifxx.Wsdd.Wsa.Sequence.{add_all, IsNumbered, add_all-IsNumbered}
use onvifxx.Tests.Data.{rt, clears, random, header, with_header, item}

abbrev unix : Unix
unix = record { errno = pos 2; strerror = λ code size. codes "No such file" }

unix_exception_test :
    (what (unix_exception unix (pos 4)) ≡ codes "No such file")
    × (pos 4 ≢ pos 0 → (unix_exception unix (pos 4)).code ≡ pos 4)
    × ((unix_exception unix (pos 0)).code ≡ pos 2)
unix_exception_test = unix_exception-what unix (pos 4)

next_seed-lehmer_example : next_seed (pos 1) ≡ pos 16807
next_seed-lehmer_example = next_seed-lehmer 1 (ground arith) (ground arith)

seed-IsExact_example : IsExact (kept_seed first_seed)
seed-IsExact_example = seed-IsExact (IsSeed.kept IsSeed.first)

uuid_text-IsUuid_iff_example :
    (length (uuid_text 1 0x8000 3 4) + 1 ≤ 48)
    × (IsUuid (uuid_text 1 0x8000 3 4) ↔ (0x8000 % 2 ^ 16 < 2 ^ 15))
uuid_text-IsUuid_iff_example = uuid_text-IsUuid_iff 1 0x8000 3 4 (ground arith) (ground arith)

-- Thirteen digits behind the version, where there should be twelve and the last two groups.
printed : uuid_text 1 0x8000 3 4 ≡ codes "uuid:00000001-0000-4f800-8000-000300000004"
unfolding uuid_text
printed = refl

request-IsRequested_example :
    (r : Code × State) × (request rt random [] (codes "urn:a") (with_header none) ≡ ok r)
    × IsRequested rt random [] (codes "urn:a") (with_header none) header r
    × (ReportsErrors rt → is_ok r.0 ≡ true)
request-IsRequested_example =
    request-IsRequested rt random [] (codes "urn:a") (with_header none) header refl

add_null_address_example :
    (add_from rt (codes "urn:a") (with_header (some header)) ≡ fault null_pointer)
    × (add_no_reply rt (with_header (some header)) ≡ fault null_pointer)
    × (add_reply_to rt (codes "urn:a") (with_header (some header)) ≡ fault null_pointer)
    × (add_fault_to rt (codes "urn:a") (with_header (some header)) ≡ fault null_pointer)
    × (add_reply_to rt [] (with_header (some header)) ≡ ok (soap_ok, with_header (some header)))
    × (add_fault_to rt [] (with_header (some header)) ≡ ok (soap_ok, with_header (some header)))
add_null_address_example =
    add_null_address rt clears (with_header (some header)) header (codes "urn:a") refl λ e. cc

counted_calls :
    (s' : State) × (add_all ((100, none) ∷ (200, none) ∷ []) (with_header (some header)) ≡ ok s')
    × IsNumbered 100 2 none s'
counted_calls =
    add_all-IsNumbered ((100, none) ∷ []) 200 none header (with_header (some header)) refl

arg_of-request_of_example :
    (arg_of (request_of rt item) 1 ≡ seen item)
    × ((arg_of (request_of rt item) 1 ≡ item) ↔ HasNoPortType item)
arg_of-request_of_example = arg_of-request_of rt clears item
