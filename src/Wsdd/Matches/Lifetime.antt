-- ===== src/Wsdd/Matches/Lifetime.antt =====
-- Which pointers of a response still lead to live objects when it is written.
use onvifxx.Base.{
  ℕ, ◌+◌, ◌≤◌, ◌<◌, ◌≡◌, refl, sym, ap, ◌∙◌, none, some, List, [], ◌∷◌, ◌++◌, map, if◌then◌else◌,
  is_some, length, get_elem?, length-append, append_assoc, append-nil, arith, All, Option-cases,
  inl, inr, ◌⊎◌,
}
use onvifxx.Base.Outcome.{Outcome, ok, fault, dangling, ◌>>=◌}
use onvifxx.Wsdd.Gsoap.{WsdMatch, Runtime}
use onvifxx.Wsdd.Messages.{ProbeMatch, request_of}
use onvifxx.Wsdd.Matches.{
  Place, element, Match, Vector, empty_vector, reserve, push_back, match_of, fill, serialize,
}

-- The places of `n` elements of a block, from index `i` on.
abbrev pub places_from : ℕ → ℕ → List ProbeMatch → List Place
places_from block i [] = []
places_from block i (item ∷ items) = element block i ∷ places_from block (i + 1) items

module _ (rt : Runtime) (grow : ℕ → ℕ) where
  pub push_back-room :
      (m : Match) (v : Vector)
      → length v.items < v.capacity
      → push_back grow m v ≡ record v { items = v.items ++ m ∷ [] }
  unfolding push_back
  push_back-room m v h = ground arith

  -- With room for all items, no element moves: the places are those of the one block, in order.
  pub fill-room :
      (items : List ProbeMatch) (v : Vector) (places : List Place)
      → length v.items + length items ≤ v.capacity
      → fill rt grow items v places ≡ (
        record v { items = v.items ++ map (match_of rt) items },
        places ++ places_from v.block (length v.items) items,
      )
  unfolding fill
  fill-room [] v places h = simp append-nil
  fill-room (item ∷ items) v places h =
      let grown = record v { items = v.items ++ match_of rt item ∷ [] } in
      ap (λ u. fill rt grow items u (places ++ element u.block (length v.items) ∷ []))
        (push_back-room (match_of rt item) v (omega arith))
      ∙ fill-room items grown (places ++ element v.block (length v.items) ∷ [])
          (omega (arith, length-append v.items (match_of rt item ∷ [])))
      ∙ rw (length-append v.items (match_of rt item ∷ [])) (simp append_assoc)

  reserve-room :
      (n : ℕ) → ((reserve n empty_vector).items ≡ []) × (n ≤ (reserve n empty_vector).capacity)
  unfolding reserve
  reserve-room n = (ground arith, ground arith)

  -- The vector of a response with `items`, where there was none before: room is reserved first.
  abbrev pub filled : List ProbeMatch → Vector × List Place
  filled items = fill rt grow items (reserve (length items) empty_vector) []

  pub filled-nil : (filled []).0 ≡ empty_vector
  unfolding fill reserve
  filled-nil = refl

  filled_lem :
      (items : List ProbeMatch)
      → ((filled items).0.items ≡ map (match_of rt) items)
        × ((filled items).1 ≡ places_from (filled items).0.block 0 items)
  filled_lem items =
      let v = reserve (length items) empty_vector in
      let (nothing, room) = reserve-room (length items) in
      let done = fill-room items v [] (omega (arith, ap length nothing)) in
      let places = ap (λ l. places_from v.block (length l) items) nothing in
      (
        ap (λ r. r.0.items) done ∙ ap (λ l. l ++ map (match_of rt) items) nothing,
        ap (λ r. r.1) done
            ∙ places
            ∙ ap (λ b. places_from b 0 items) (sym (ap (λ r. r.0.block) done)),
      )

  -- An item with nothing that its match would point to.
  abbrev pub IsPlain : ProbeMatch → Type 0
  IsPlain item = (item.scopes ≡ none) × (item.endpoint ≡ none)

  get_elem?-append :
      (xs : List Match) (m : Match) (ms : List Match)
      → get_elem? (xs ++ m ∷ ms) (length xs) ≡ some m
  get_elem?-append [] m ms = refl
  get_elem?-append (x ∷ xs) m ms = get_elem?-append xs m ms

  -- What writing the response gives: up to the first item that is not plain it is read as it was
  -- given, and there it is read after its lifetime.
  pub written : List ProbeMatch → Outcome (List (WsdMatch × ℕ))
  written [] = ok []
  written (item ∷ items) =
      let rest = (do ms ← written items; ok ((request_of rt item, item.version) ∷ ms)) in
      if is_some item.scopes
      then fault dangling
      else if is_some item.endpoint
      then fault dangling
      else rest

  pub serialize-written :
      (v : Vector) (xs : List Match) (items : List ProbeMatch)
      → v.items ≡ xs ++ map (match_of rt) items
      → serialize v (places_from v.block (length xs) items) ≡ written items
  unfolding serialize written match_of
  serialize-written v xs [] e = refl
  serialize-written v xs (item ∷ items) e =
      let found : get_elem? v.items (length xs) ≡ some (match_of rt item) =
        ap (λ l. get_elem? l (length xs)) e
        ∙ get_elem?-append xs (match_of rt item) (map (match_of rt) items) in
      let ih =
        serialize-written v (xs ++ match_of rt item ∷ []) items (e ∙ sym (append_assoc xs _ _)) in
      let next =
        ap (λ n. serialize v (places_from v.block n items))
          (sym (length-append xs (match_of rt item ∷ [])))
        ∙ ih in
      ground (arith, found, next)

  pub written-plain :
      (items : List ProbeMatch)
      → All IsPlain items
      → written items ≡ ok (map (λ item. (request_of rt item, item.version)) items)
  unfolding written
  written-plain [] plain = refl
  written-plain (item ∷ items) plain = ground (arith, written-plain items plain.1)

  plain? :
      (item : ProbeMatch)
      → IsPlain item
        ⊎ ((rest : Outcome (List (WsdMatch × ℕ)))
            → (if is_some item.scopes
                then fault dangling
                else if is_some item.endpoint
                then fault dangling
                else rest)
              ≡ fault dangling)
  plain? item = elim (Option-cases item.scopes) [
    | inr (s, e) ↦ inr λ rest. rw e refl
    | inl e ↦ elim (Option-cases item.endpoint) [
      | inr (p, f) ↦ inr λ rest. rw e (rw f refl)
      | inl f ↦ inl (e, f)
    ]
  ]

  written-dangling :
      (items : List ProbeMatch) → ¬ All IsPlain items → written items ≡ fault dangling
  unfolding written
  written-dangling [] odd = absurd (odd tt)
  written-dangling (item ∷ items) odd = elim (plain? item) [
    | inl plain ↦ ground (arith, written-dangling items λ rest. odd (plain, rest))
    | inr other ↦ other (do ms ← written items; ok ((request_of rt item, item.version) ∷ ms))
  ]

  -- The first response of a service, whose vector is empty. Its pointers are those of the elements of
  -- one block, in the order of the items, and the elements are there. Written out, it gives every item
  -- if no item has scopes or an endpoint; if one has, the pointer to them leads into the temporary that
  -- the element was copied from, and is followed after the temporary's end.
  pub first_response :
      (items : List ProbeMatch)
      → let (v, places) = filled items in
        (v.items ≡ map (match_of rt) items)
        × (places ≡ places_from v.block 0 items)
        × (All IsPlain items
            → serialize v places ≡ ok (map (λ item. (request_of rt item, item.version)) items))
        × (¬ All IsPlain items → serialize v places ≡ fault dangling)
  first_response items =
      let (v, places) = filled items in
      let (held, at) = filled_lem items in
      let same = ap (serialize v) at ∙ serialize-written v [] items held in
      (
        held,
        at,
        (λ plain. same ∙ written-plain items plain),
        λ odd. same ∙ written-dangling items odd,
      )
