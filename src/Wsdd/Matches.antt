-- ===== src/Wsdd/Matches.antt =====
-- `matches_` of wsdd/remotediscovery_service.cpp: the vector of `Wsa::Request` objects that a response
-- points into. An object's `Scopes` and `wsa__EndpointReference` point to members of the object that
-- was constructed; copying the object copies these pointers.
pub mod Lifetime
pub mod Growth
pub mod Items
use onvifxx.Base.{
  ℕ, zero, suc, ◌+◌, ◌-◌, Bool, true, false, not, ◌&&◌, Option, none, some, List, [], ◌∷◌, ◌++◌,
  ◌==◌, ltb, if◌then◌else◌, is_some, length, get_elem?,
}
use onvifxx.Base.Outcome.{Outcome, ok, fault, dangling, ◌>>=◌, ◌>>◌}
use onvifxx.Wsdd.Gsoap.{WsdMatch, Runtime}
use onvifxx.Wsdd.Messages.{ProbeMatch, request_of}

-- Where a `Request` stands: a temporary, which ends with its statement, or a place in a block of
-- the vector's storage.
pub data Place : Type 0 where
  temporary : Place
  element : ℕ → ℕ → Place

-- A `Request<wsd__ProbeMatchType>`: what its members were given, its version, and the objects that its
-- two pointers lead into.
pub record Match : Type 0 where
  pub body : WsdMatch
  pub version : ℕ
  pub scopes_in : Option Place
  pub endpoint_in : Option Place

-- The storage of a `std::vector`: its block, the room in it, and how many blocks there were.
pub record Vector : Type 0 where
  pub block : ℕ
  pub capacity : ℕ
  pub blocks : ℕ
  pub items : List Match

abbrev pub empty_vector : Vector
empty_vector = record { block = 0; capacity = 0; blocks = 1; items = [] }

-- The elements move to a new block.
abbrev pub moved : Vector → ℕ → Vector
moved v n = record v { block = v.blocks; capacity = n; blocks = v.blocks + 1 }

pub reserve : ℕ → Vector → Vector
reserve n v = if ltb v.capacity n then moved v n else v

-- `grow` is the new capacity of a full vector.
pub push_back : (ℕ → ℕ) → Match → Vector → Vector
push_back grow m v =
    let room = if length v.items == v.capacity then moved v (grow v.capacity) else v in
    record room { items = v.items ++ m ∷ [] }

-- `Matches_t::value_type(this, item)`, constructed in a temporary, with the version set afterwards
pub match_of : Runtime → ProbeMatch → Match
match_of rt item = record {
  body = request_of rt item;
  version = item.version;
  scopes_in = if is_some item.scopes then some temporary else none;
  endpoint_in = if is_some item.endpoint then some temporary else none;
}

-- The loop over the items: the vector, and `wsd__ProbeResponse->ProbeMatch`, in order.
pub fill : Runtime → (ℕ → ℕ) → List ProbeMatch → Vector → List Place → Vector × List Place
unfolding push_back match_of
fill rt grow [] v places = (v, places)
fill rt grow (item ∷ items) v places =
    let v' = push_back grow (match_of rt item) v in
    fill rt grow items v' (places ++ element v'.block (length v.items) ∷ [])

pub is_live : Vector → Place → Bool
is_live v temporary = false
is_live v (element block index) = block == v.block && ltb index (length v.items)

-- A pointer into an object, followed when the response is written.
pub follow : Vector → Option Place → Outcome (Unit {0})
unfolding is_live
follow v none = ok tt
follow v (some place) = if is_live v place then ok tt else fault dangling

pub element_at : Vector → Place → Outcome Match
unfolding is_live
element_at v temporary = fault dangling
element_at v (element block index) = elim (get_elem? v.items index) [
  | none ↦ fault dangling
  | some m ↦ if block == v.block then ok m else fault dangling
]

-- `wsd__ProbeResponse->soap_serialize(this)` reads every match and what its pointers lead to.
pub serialize : Vector → List Place → Outcome (List (WsdMatch × ℕ))
unfolding follow element_at
serialize v [] = ok []
serialize v (place ∷ places) = do
  m ← element_at v place
  follow v m.scopes_in
  follow v m.endpoint_in
  rest ← serialize v places
  ok ((m.body, m.version) ∷ rest)
