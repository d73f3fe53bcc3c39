-- ===== src/Wsdd/Matches/Growth.antt =====
-- The responses after the first: `matches_` is never cleared, and may move while it is filled.
use onvifxx.Base.{
  ℕ, ◌+◌, ◌≤◌, ◌<◌, ◌≡◌, ◌≢◌, refl, sym, ap, subst, ◌∙◌, List, [], ◌∷◌, ◌++◌, map, ◌==◌, ==_iff,
  length, get_elem?, dec_lt, length-append, append_assoc, append-nil, arith, All, Bool-cases,
  Option-cases, inl, inr,
}
use onvifxx.Base.Outcome.{Outcome, ok, fault, dangling}
use onvifxx.Wsdd.Gsoap.{WsdMatch, Runtime}
use onvifxx.Wsdd.Messages.{ProbeMatch, request_of}
use onvifxx.Wsdd.Matches.{
  Place, element, Match, Vector, reserve, push_back, match_of, fill, serialize,
}
use onvifxx.Wsdd.Matches.Items.{reserve-items}
use onvifxx.Wsdd.Matches.Lifetime.{
  push_back-room, fill-room, serialize-written, written-plain, IsPlain,
}

-- The block is one of those that there were, and the elements have room.
abbrev pub IsVector : Vector → Type 0
IsVector v = (v.block < v.blocks) × (length v.items ≤ v.capacity)

-- The vector has moved out of block `b`.
abbrev HasLeft : ℕ → Vector → Type 0
HasLeft b v = (b < v.blocks) × (b ≢ v.block)

pub reserve-IsVector : (n : ℕ) (v : Vector) → IsVector v → IsVector (reserve n v)
unfolding reserve
reserve-IsVector n v (block, room) = ground arith

module _ (grow : ℕ → ℕ) where
  push_back-HasLeft :
      (m : Match) (b : ℕ) (v : Vector) → HasLeft b v → HasLeft b (push_back grow m v)
  unfolding push_back
  push_back-HasLeft m b v (old, left) = elim (Bool-cases (length v.items == v.capacity)) [
    | inl full ↦ rw (full, push_back) (omega arith, λ e. omega arith)
    | inr room ↦ rw (room, push_back) (old, left)
  ]

  push_back-full :
      (m : Match) (v : Vector)
      → length v.items ≡ v.capacity
      → v.block < v.blocks
      → HasLeft v.block (push_back grow m v)
  unfolding push_back
  push_back-full m v full block =
      rw ((==_iff _ _).1 full, push_back) (omega arith, λ e. omega arith)

module _ (rt : Runtime) (grow : ℕ → ℕ) where
  fill-HasLeft :
      (items : List ProbeMatch) (b : ℕ) (v : Vector) (places : List Place)
      → HasLeft b v
      → HasLeft b (fill rt grow items v places).0
  unfolding fill
  fill-HasLeft [] b v places left = left
  fill-HasLeft (item ∷ items) b v places left =
      fill-HasLeft items b _ _ (push_back-HasLeft grow (match_of rt item) b v left)

  -- More items than there is room for: the vector leaves its block.
  fill-leaves :
      (items : List ProbeMatch) (v : Vector) (places : List Place)
      → IsVector v
      → v.capacity < length v.items + length items
      → HasLeft v.block (fill rt grow items v places).0
  unfolding fill
  fill-leaves [] v places (block, room) over = absurd (omega arith)
  fill-leaves (item ∷ items) v places (block, room) over =
      elim (dec_lt (length v.items) v.capacity) [
        | no full ↦
            fill-HasLeft items v.block _ _
              (push_back-full grow (match_of rt item) v (omega arith) block)
        | yes more ↦
            let grown = record v { items = v.items ++ match_of rt item ∷ [] } in
            let longer = length-append v.items (match_of rt item ∷ []) in
            subst
              (λ u.
                HasLeft v.block
                  (fill rt grow items u (places ++ element u.block (length v.items) ∷ [])).0)
              (sym (push_back-room rt grow (match_of rt item) v more))
              (fill-leaves items grown _ (block, omega (arith, longer)) (omega (arith, longer)))
      ]

  -- The places that were noted before stay in front.
  fill-places :
      (items : List ProbeMatch) (v : Vector) (places : List Place)
      → (fill rt grow items v places).1 ≡ places ++ (fill rt grow items v []).1
  unfolding fill
  fill-places [] v places = sym (append-nil places)
  fill-places (item ∷ items) v places =
      let v' = push_back grow (match_of rt item) v in
      let place = element v'.block (length v.items) in
      fill-places items v' (places ++ place ∷ [])
      ∙ append_assoc places (place ∷ []) _
      ∙ ap (◌++◌ places) (sym (fill-places items v' (place ∷ [])))

  -- A place in a block that the vector has left.
  serialize-left :
      (v : Vector) (b i : ℕ) (places : List Place)
      → b ≢ v.block
      → serialize v (element b i ∷ places) ≡ fault dangling
  unfolding serialize
  serialize-left v b i places left = elim (Bool-cases (b == v.block)) [
    | inl same ↦ absurd (left ((==_iff b v.block).0 same))
    | inr other ↦ elim (Option-cases (get_elem? v.items i)) [
      | inl gone ↦ ground (arith, gone, other)
      | inr (m, found) ↦ ground (arith, found, other)
    ]
  ]

  abbrev response : List ProbeMatch → Vector → Outcome (List (WsdMatch × ℕ))
  response items v = let (v', places) = fill rt grow items v [] in serialize v' places

  response-room :
      (items : List ProbeMatch) (v : Vector)
      → length v.items + length items ≤ v.capacity
      → All (IsPlain rt grow) items
      → response items v ≡ ok (map (λ item. (request_of rt item, item.version)) items)
  response-room items v enough plain =
      ap (λ r. serialize r.0 r.1) (fill-room rt grow items v [] enough)
      ∙ serialize-written rt grow (record v { items = v.items ++ map (match_of rt) items }) v.items
          items refl
      ∙ written-plain rt grow items plain

  response-moved :
      (items : List ProbeMatch) (v : Vector)
      → IsVector v
      → length v.items < v.capacity
      → v.capacity < length v.items + length items
      → response items v ≡ fault dangling
  unfolding fill
  response-moved [] v is some_room over = absurd (omega arith)
  response-moved (item ∷ items) v (block, fits) some_room over =
      let grown = record v { items = v.items ++ match_of rt item ∷ [] } in
      let longer = length-append v.items (match_of rt item ∷ []) in
      let place = element v.block (length v.items) in
      let (_, left) =
        fill-leaves items grown (place ∷ []) (block, omega (arith, longer))
          (omega (arith, longer)) in
      ap
        (λ u.
          let r = fill rt grow items u (element u.block (length v.items) ∷ []) in serialize r.0 r.1)
        (push_back-room rt grow (match_of rt item) v some_room)
      ∙ ap (serialize (fill rt grow items grown (place ∷ [])).0)
          (fill-places items grown (place ∷ []))
      ∙ serialize-left _ v.block (length v.items) _ left

  -- A response of a service whose vector has been used before, and has the room `capacity` once it
  -- was reserved. If the new items fit into it, and none has scopes or an endpoint, every item is
  -- written. If there is room for the first of them but not for all, the vector moves while it is
  -- filled, and the response is written through a pointer into storage that is gone.
  pub response_grown :
      (items : List ProbeMatch) (v : Vector)
      → IsVector v
      → let room = reserve (length items) v in
        let (v', places) = fill rt grow items room [] in
        (length v.items + length items ≤ room.capacity
          → All (IsPlain rt grow) items
          → serialize v' places ≡ ok (map (λ item. (request_of rt item, item.version)) items))
        × (length v.items < room.capacity
            → room.capacity < length v.items + length items
            → serialize v' places ≡ fault dangling)
  response_grown items v is =
      let (block, fits) = reserve-IsVector (length items) v is in
      let same = ap length (reserve-items (length items) v) in
      (
        λ enough plain. response-room items (reserve (length items) v) (omega (arith, same)) plain,
        λ some_room over.
            response-moved items (reserve (length items) v) (block, fits) (omega (arith, same))
              (omega (arith, same)),
      )

  -- Where a full vector gets more room, as `std::vector` documents.
  module _ (grows : (n : ℕ) → n < grow n) where
    push_back-IsVector : (m : Match) (v : Vector) → IsVector v → IsVector (push_back grow m v)
    unfolding push_back
    push_back-IsVector m v (block, room) =
        let longer = length-append v.items (m ∷ []) in
        elim (dec_lt (length v.items) v.capacity) [
          | yes more ↦
              subst IsVector (sym (push_back-room rt grow m v more)) (block, omega (arith, longer))
          | no full ↦
              let e : length v.items ≡ v.capacity = omega arith in
              rw ((==_iff _ _).1 e, push_back)
                (omega arith, omega (arith, longer, grows v.capacity))
        ]

    pub fill-IsVector :
        (items : List ProbeMatch) (v : Vector) (places : List Place)
        → IsVector v
        → IsVector (fill rt grow items v places).0
    unfolding fill
    fill-IsVector [] v places is = is
    fill-IsVector (item ∷ items) v places is =
        fill-IsVector items _ _ (push_back-IsVector (match_of rt item) v is)
