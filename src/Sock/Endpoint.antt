-- ===== src/Sock/Endpoint.antt =====
-- `struct Endpoint` of sock/sock.cpp: an address taken apart by scheme, host and service.
pub mod Url
use onvifxx.Base.{
  ℕ, zero, suc, ◌+◌, Bool, true, false, not, Option, none, some, List, [], ◌∷◌, ◌==◌, if◌then◌else◌,
  length, take, drop,
}
use onvifxx.Base.Chars.{Text, codes, text_eq, is_empty, find}
use onvifxx.Base.Outcome.{Outcome, ok, fault, ◌>>=◌, ◌>>◌, assert}

pub record Endpoint : Type 0 where
  pub scheema : Text
  pub host : Text
  pub service : Text
  pub is_udp : Bool

abbrev pub http_scheema : Text
http_scheema = codes "http://"

abbrev pub https_scheema : Text
https_scheema = codes "https://"

abbrev pub udp_scheema : Text
udp_scheema = codes "soap.udp://"

-- `switch (i)` in the loop
abbrev pub scheema_at : ℕ → Text
scheema_at zero = http_scheema
scheema_at (suc zero) = https_scheema
scheema_at _ = udp_scheema

-- `url.substr(0, s.size()) == s`
abbrev pub has_scheema : Text → Text → Bool
has_scheema s url = text_eq (take (length s) url) s

-- The loop over the schemes, from round `i`, with `n` rounds left. The last scheme that was tried
-- stays in `rv`.
pub find_scheema : ℕ → ℕ → Text → Endpoint → Endpoint
find_scheema zero i url rv = rv
find_scheema (suc n) i url rv =
    let s = scheema_at i in
    let rest = find_scheema n (i + 1) url (record rv { scheema = s }) in
    if has_scheema s url
    then record rv { scheema = s; host = drop (length s) url; is_udp = i == 2 }
    else rest

-- The default service, and the part behind the first colon in its place.
pub split_service : Endpoint → Endpoint
split_service rv = elim (find b':' rv.host) [
  | none ↦ record rv { service = service }
  | some pos ↦ record rv { service = drop (pos + 1) rv.host; host = take pos rv.host }
]
  where
    service : Text
    service = if text_eq rv.scheema https_scheema then codes "443" else codes "80"

abbrev pub blank : Endpoint
blank = record { scheema = []; host = []; service = []; is_udp = false }

unfoldable pub from_url : Text → Outcome Endpoint
unfolding find_scheema split_service
from_url url = do
  assert (not (is_empty url))
  let rv = find_scheema 3 0 url blank
  assert (not (is_empty rv.host))
  let e = split_service rv
  assert (not (is_empty e.scheema))
  assert (not (is_empty e.host))
  assert (not (is_empty e.service))
  ok e
