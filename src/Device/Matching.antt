-- ===== src/Device/Matching.antt =====
-- `Wsdd::probe` and `Wsdd::isMatched` (examples/ws-discovery/wsdd.cpp).
pub mod Answer
use onvifxx.Base.{
  ℕ, ◌+◌, Bool, true, false, ◌||◌, Option, none, some, List, [], ◌∷◌, if◌then◌else◌, length,
}
use onvifxx.Base.Chars.{Text, text_eq}
use onvifxx.Base.Outcome.{Outcome, ok, ◌>>=◌, deref}
use onvifxx.Device.Types.{strip}
use onvifxx.Wsdd.Messages.{Probe, ProbeMatch}

pub contains : Text → List Text → Bool
contains word [] = false
contains word (x ∷ xs) = text_eq word x || contains word xs

-- `std::find_first_of(l…, r…) != l.end()`
pub find_first_of : List Text → List Text → Bool
unfolding contains
find_first_of [] r = false
find_first_of (x ∷ l) r = contains x r || find_first_of l r

-- `probeMatches_.back()`
unfoldable pub back : List ProbeMatch → Option ProbeMatch
back [] = none
back (m ∷ []) = some m
back (m ∷ ms) = back ms

-- `split` is `boost::algorithm::split` at spaces, with adjacent ones taken as one.
module _ (split : Text → List Text) where
  pub is_matched : Text → Text → Bool
  unfolding find_first_of
  is_matched left right = find_first_of (split left) (split right)

  pub types_matched : Option Text → List ProbeMatch → Outcome Bool
  unfolding is_matched back
  types_matched none matches = ok true
  types_matched (some types) matches = do
    m ← deref (back matches)
    elim m.types [
      | none ↦ ok true
      | some own ↦ do names ← deref (strip (length types + 1) types); ok (is_matched names own)
    ]

  -- `item` is the one of the scopes.
  pub scopes_matched : Option Text → List ProbeMatch → Outcome Bool
  unfolding is_matched back
  scopes_matched none matches = ok true
  scopes_matched (some item) matches = do
    m ← deref (back matches)
    ok (elim m.scopes [ none ↦ true | some own ↦ is_matched item own.item ])

  -- The scopes are looked at if the types matched.
  pub probe : Probe → List ProbeMatch → Outcome (List ProbeMatch)
  unfolding types_matched scopes_matched
  probe arg matches = do
    by_types ← types_matched arg.types matches
    let scopes : Option Text = elim arg.scopes [ none ↦ none | some s ↦ some s.item ]
    matched ← (if by_types then scopes_matched scopes matches else ok false)
    ok (if matched then matches else [])
