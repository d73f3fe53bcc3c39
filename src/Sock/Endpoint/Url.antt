-- ===== src/Sock/Endpoint/Url.antt =====
-- The addresses that `Endpoint::fromUrl` accepts, as a grammar, and that it accepts no other.
use Prim.Native.Nat.add
use onvifxx.Base.{
  ℕ, suc, ◌+◌, ◌≡◌, refl, sym, ap, subst, ◌∙◌, ◌≢◌, ◌↔◌, inl, inr, Bool, true, false, not, none,
  some, Option, append-nil, [], ◌∷◌, ◌++◌, arith, Bool-cases, Option-cases, ◌⊎◌, length, take, drop,
  take-append, take-append-drop,
}
use onvifxx.Base.Chars.{
  Text, codes, text_eq, text_eq_iff, is_empty, find, Free, Found, find-Free, find-append,
  find-Found,
}
use onvifxx.Base.Outcome.{Outcome, ok, ◌>>◌, assert}
use onvifxx.Sock.Endpoint.{
  Endpoint, http_scheema, https_scheema, udp_scheema, has_scheema, split_service, from_url,
}

pub data Scheme : Type 0 where
  http https udp : Scheme

abbrev pub prefix : Scheme → Text
prefix http = http_scheema
prefix https = https_scheema
prefix udp = udp_scheema

abbrev pub default_service : Scheme → Text
default_service http = codes "80"
default_service https = codes "443"
default_service udp = codes "80"

abbrev over_udp : Scheme → Bool
over_udp udp = true
over_udp _ = false

abbrev pub endpoint : Scheme → Text → Text → Endpoint
endpoint s host service = record {
  scheema = prefix s;
  host = host;
  service = service;
  is_udp = over_udp s;
}

-- `url` is a scheme and a host, which may be followed by a colon and a service.
pub data IsUrl (url : Text) (e : Endpoint) : Type 0 where
  plain :
      (s : Scheme) (host : Text)
      → Free b':' host
      → host ≢ []
      → url ≡ prefix s ++ host
      → e ≡ endpoint s host (default_service s)
      → IsUrl url e
  with_service :
      (s : Scheme) (host service : Text)
      → Free b':' host
      → host ≢ []
      → service ≢ []
      → url ≡ prefix s ++ (host ++ b':' ∷ service)
      → e ≡ endpoint s host service
      → IsUrl url e

-- What is left to do once the scheme is known.
abbrev finish : Endpoint → Outcome Endpoint
finish e = do assert (not (is_empty e.host)); assert (not (is_empty e.service)); ok e

from_url-prefix :
    (s : Scheme) (rest : Text)
    → rest ≢ []
    → from_url (prefix s ++ rest) ≡ finish (split_service (endpoint s rest []))
unfolding from_url text_eq
from_url-prefix s [] ne = absurd (ne refl)
from_url-prefix http (x ∷ rest) ne = elim (Option-cases (find b':' (x ∷ rest))) [
  | inl e ↦ rw (e, split_service)
  | inr (i, e) ↦ rw (e, split_service)
]
from_url-prefix https (x ∷ rest) ne = elim (Option-cases (find b':' (x ∷ rest))) [
  | inl e ↦ rw (e, split_service)
  | inr (i, e) ↦ rw (e, split_service)
]
from_url-prefix udp (x ∷ rest) ne = elim (Option-cases (find b':' (x ∷ rest))) [
  | inl e ↦ rw (e, split_service)
  | inr (i, e) ↦ rw (e, split_service)
]

split_service-plain :
    (s : Scheme) (host : Text)
    → Free b':' host
    → split_service (endpoint s host []) ≡ endpoint s host (default_service s)
unfolding split_service text_eq
split_service-plain http host f = rw (find-Free b':' host f, split_service)
split_service-plain https host f = rw (find-Free b':' host f, split_service)
split_service-plain udp host f = rw (find-Free b':' host f, split_service)

drop_past : (c : ℕ) (s rest : Text) → drop (length s + 1) (s ++ c ∷ rest) ≡ rest
drop_past c [] rest = refl
drop_past c (x ∷ s) rest = rw (add.suc (length s) 1) (drop_past c s rest)

split_service-append :
    (s : Scheme) (host service : Text)
    → Free b':' host
    → split_service (endpoint s (host ++ b':' ∷ service) []) ≡ endpoint s host service
unfolding split_service text_eq
split_service-append s host service f =
    rw (find-append b':' host service f, split_service, drop_past, take-append)

finish-ok : (e : Endpoint) → e.host ≢ [] → e.service ≢ [] → finish e ≡ ok e
finish-ok e h s = ground arith

has_scheema-eq : (s url : Text) → has_scheema s url ≡ true → url ≡ s ++ drop (length s) url
has_scheema-eq s url h =
    sym (take-append-drop (length s) url)
    ∙ ap (λ t. t ++ drop (length s) url) ((text_eq_iff (take (length s) url) s).0 h)

-- The scheme that a text begins with, if it begins with one.
prefix-cases :
    (url : Text)
    → ((s : Scheme) × (url ≡ prefix s ++ drop (length (prefix s)) url))
      ⊎ ((s : Scheme) → has_scheema (prefix s) url ≡ false)
prefix-cases url = elim (Bool-cases (has_scheema http_scheema url)) [
  | inl h ↦ inl (http, has_scheema-eq http_scheema url h)
  | inr h ↦ elim (Bool-cases (has_scheema https_scheema url)) [
    | inl k ↦ inl (https, has_scheema-eq https_scheema url k)
    | inr k ↦ elim (Bool-cases (has_scheema udp_scheema url)) [
      | inl l ↦ inl (udp, has_scheema-eq udp_scheema url l)
      | inr l ↦ inr (elim [ http ↦ h | https ↦ k | udp ↦ l ])
    ]
  ]
]

from_url-unknown :
    (url : Text) (e : Endpoint)
    → ((s : Scheme) → has_scheema (prefix s) url ≡ false)
    → from_url url ≢ ok e
unfolding from_url
from_url-unknown url e no_scheema =
    ground (arith, no_scheema http, no_scheema https, no_scheema udp)

from_url-blank : (s : Scheme) (e : Endpoint) → from_url (prefix s) ≢ ok e
unfolding from_url text_eq
from_url-blank http e h = cc
from_url-blank https e h = cc
from_url-blank udp e h = cc

finish-eq-ok : (d e : Endpoint) → finish d ≡ ok e → (e ≡ d) × (d.host ≢ []) × (d.service ≢ [])
finish-eq-ok d e h = ground arith

-- What `finish` accepts behind a scheme is a host, alone or with a service.
finish-IsUrl :
    (s : Scheme) (rest : Text) (e : Endpoint)
    → finish (split_service (endpoint s rest [])) ≡ ok e
    → IsUrl (prefix s ++ rest) e
finish-IsUrl s rest e h = go (find b':' rest) (find-Found b':' rest)
  where
    go : (o : Option ℕ) → Found b':' rest o → IsUrl (prefix s ++ rest) e
    go none free =
        let (eq, host, _) = finish-eq-ok _ e (rw (split_service-plain s rest free) at h) in
        plain s rest free host refl eq
    go (some i) (free, splits) =
        let name = take i rest in
        let service = drop (suc i) rest in
        let h' : finish (split_service (endpoint s (name ++ b':' ∷ service) [])) ≡ ok e =
          subst (λ t. finish (split_service (endpoint s t [])) ≡ ok e) splits h in
        let (eq, host, named) =
          finish-eq-ok _ e (rw (split_service-append s name service free) at h') in
        with_service s name service free host named (ap (◌++◌ (prefix s)) splits) eq

from_url-IsUrl : (url : Text) (e : Endpoint) → from_url url ≡ ok e → IsUrl url e
from_url-IsUrl url e h = elim (prefix-cases url) [
  | inr unknown ↦ absurd (from_url-unknown url e unknown h)
  | inl (s, eq) ↦ go s (drop (length (prefix s)) url) eq
]
  where
    go : (s : Scheme) (rest : Text) → url ≡ prefix s ++ rest → IsUrl url e
    go s [] eq = absurd (from_url-blank s e (ap from_url (sym (eq ∙ append-nil (prefix s))) ∙ h))
    go s (x ∷ rest) eq =
        subst (λ t. IsUrl t e) (sym eq)
          (finish-IsUrl s (x ∷ rest) e
            (sym (from_url-prefix s (x ∷ rest) (λ n. cc)) ∙ ap from_url (sym eq) ∙ h))

append-ne-nil : (c : ℕ) (s rest : Text) → s ++ c ∷ rest ≢ []
append-ne-nil c [] rest = λ e. cc
append-ne-nil c (x ∷ s) rest = λ e. cc

IsUrl-from_url : (url : Text) (e : Endpoint) → IsUrl url e → from_url url ≡ ok e
IsUrl-from_url url e (plain s host free ne u eq) =
    ap from_url u
    ∙ from_url-prefix s host ne
    ∙ ap finish (split_service-plain s host free)
    ∙ finish-ok _ ne (default-ne-nil s)
    ∙ ap ok (sym eq)
  where
    default-ne-nil : (s : Scheme) → default_service s ≢ []
    default-ne-nil http = λ e. cc
    default-ne-nil https = λ e. cc
    default-ne-nil udp = λ e. cc
IsUrl-from_url url e (with_service s host service free ne ne' u eq) =
    ap from_url u
    ∙ from_url-prefix s (host ++ b':' ∷ service) (append-ne-nil b':' host service)
    ∙ ap finish (split_service-append s host service free)
    ∙ finish-ok _ ne ne'
    ∙ ap ok (sym eq)

-- `from_url` accepts exactly the addresses of the grammar `IsUrl`, with the endpoint that the grammar
-- gives: a known scheme, then a host that is not empty and has no colon, alone (service 443 behind
-- https, else 80) or with a colon and a service that is not empty.
pub from_url-iff-IsUrl : (url : Text) (e : Endpoint) → (from_url url ≡ ok e) ↔ IsUrl url e
from_url-iff-IsUrl url e = (from_url-IsUrl url e, IsUrl-from_url url e)
