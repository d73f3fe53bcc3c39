-- ===== src/Device/Matching/Answer.antt =====
-- When the device answers a probe.
use onvifxx.Base.{
  ◌+◌, ◌≡◌, ◌≢◌, ◌↔◌, inl, inr, refl, ap, subst, ◌∙◌, Bool, true, false, ◌&&◌, Option, none, some,
  List, [], ◌∷◌, if◌then◌else◌, length, arith, Bool-cases,
}
use onvifxx.Base.Chars.{Text, text_eq, text_eq_iff}
use onvifxx.Base.Outcome.{Outcome, ok, ◌>>=◌, deref}
use onvifxx.Device.Types.{strip}
use onvifxx.Device.Types.Local.{local_from, strip-local_from}
use onvifxx.Device.Matching.{
  contains, find_first_of, back, is_matched, types_matched, scopes_matched, probe,
}
use onvifxx.Wsdd.Messages.{Probe, ProbeMatch, Scopes}

-- `word` is in the list.
pub data IsIn (word : Text) : List Text → Type 0 where
  here : {xs : List Text} → IsIn word (word ∷ xs)
  later : {x : Text} {xs : List Text} → IsIn word xs → IsIn word (x ∷ xs)

IsIn-contains : (word : Text) (xs : List Text) → IsIn word xs → contains word xs ≡ true
unfolding contains
IsIn-contains word [] i = elim i [ ]
IsIn-contains word (x ∷ xs) here = rw ((text_eq_iff word word).1 refl) refl
IsIn-contains word (x ∷ xs) (later i) = ground (arith, IsIn-contains word xs i)

contains-IsIn : (word : Text) (xs : List Text) → contains word xs ≡ true → IsIn word xs
unfolding contains
contains-IsIn word [] e = cc
contains-IsIn word (x ∷ xs) e = elim (Bool-cases (text_eq word x)) [
  | inl same ↦ subst (λ w. IsIn word (w ∷ xs)) ((text_eq_iff word x).0 same) here
  | inr other ↦ later (contains-IsIn word xs (rw other at e))
]

-- A word that two lists share.
abbrev pub Shared : List Text → List Text → Type 0
Shared l r = (word : Text) × IsIn word l × IsIn word r

Shared-find_first_of : (l r : List Text) → Shared l r → find_first_of l r ≡ true
unfolding find_first_of
Shared-find_first_of [] r (word, i, j) = elim i [ ]
Shared-find_first_of (x ∷ l) r (word, here, j) = rw (IsIn-contains word r j) refl
Shared-find_first_of (x ∷ l) r (word, later i, j) =
    ground (arith, Shared-find_first_of l r (word, i, j))

find_first_of-Shared : (l r : List Text) → find_first_of l r ≡ true → Shared l r
unfolding find_first_of
find_first_of-Shared [] r e = cc
find_first_of-Shared (x ∷ l) r e = elim (Bool-cases (contains x r)) [
  | inl found ↦ (x, here, contains-IsIn x r found)
  | inr missing ↦
      let (word, i, j) = find_first_of-Shared l r (rw missing at e) in (word, later i, j)
]

chosen :
    (a b : Bool) (matches : List ProbeMatch)
    → ((if a then ok b else ok false) >>= λ matched. ok (if matched then matches else []))
      ≡ ok (if a && b then matches else [])
chosen true b matches = refl
chosen false b matches = refl

both_iff :
    (a b : Bool) {P Q : Type 0} → (a ≡ true) ↔ P → (b ≡ true) ↔ Q → ((a && b) ≡ true) ↔ (P × Q)
both_iff true b p q = ((λ e. (p.0 refl, q.0 e)), λ h. q.1 h.1)
both_iff false b p q = ((λ e. cc), λ h. absurd (false-ne-true (p.1 h.0)))
  where
    false-ne-true : false ≢ true
    false-ne-true e = cc

module _ (split : Text → List Text) where
  -- What a probe asks for in its types and its scopes, of a match that may have them.
  abbrev pub WantsTypes : Option Text → Option Text → Type 0
  WantsTypes (some types) (some own) = Shared (split (local_from [] types)) (split own)
  WantsTypes _ _ = Unit {0}

  abbrev pub WantsScopes : Option Scopes → Option Scopes → Type 0
  WantsScopes (some s) (some own) = Shared (split s.item) (split own.item)
  WantsScopes _ _ = Unit {0}

  is_matched_iff :
      (left right : Text) → (is_matched split left right ≡ true) ↔ Shared (split left) (split right)
  unfolding is_matched
  is_matched_iff left right = (find_first_of-Shared _ _, Shared-find_first_of _ _)

  -- What is compared once the last match is known.
  compare_types : Text → Option Text → Outcome Bool
  compare_types types none = ok true
  compare_types types (some own) = do
    names ← deref (strip (length types + 1) types)
    ok (is_matched split names own)

  compare_types_iff :
      (types : Text) (own : Option Text)
      → (b : Bool) × (compare_types types own ≡ ok b) × ((b ≡ true) ↔ WantsTypes (some types) own)
  unfolding compare_types
  compare_types_iff types none = (true, refl, ((λ _. tt), λ _. refl))
  compare_types_iff types (some own) = (
    is_matched split (local_from [] types) own,
    ap (λ o. deref o >>= λ names. ok (is_matched split names own)) (strip-local_from types),
    is_matched_iff (local_from [] types) own,
  )

  types_matched_iff :
      (types : Option Text) (matches : List ProbeMatch) (m : ProbeMatch)
      → back matches ≡ some m
      → (b : Bool) × (types_matched split types matches ≡ ok b)
        × ((b ≡ true) ↔ WantsTypes types m.types)
  unfolding types_matched compare_types
  types_matched_iff none matches m e = (true, refl, ((λ _. tt), λ _. refl))
  types_matched_iff (some types) matches m e =
      let (b, run, iff) = compare_types_iff types m.types in
      (
        b,
        ap
              (λ o. deref o >>= λ m. elim m.types as (λ _. Outcome Bool) [
                | none ↦ ok true
                | some own ↦ deref (strip (length types + 1) types) >>= λ names.
                    ok (is_matched split names own)
              ])
              e
            ∙ same m.types
            ∙ run,
        iff,
      )
    where
      same :
          (own : Option Text)
          → (elim own as (λ _. Outcome Bool) [
            | none ↦ ok true
            | some own ↦
                deref (strip (length types + 1) types) >>= λ names. ok (is_matched split names own)
          ])
            ≡ compare_types types own
      same none = refl
      same (some own) = refl

  compare_scopes_iff :
      (s : Scopes) (own : Option Scopes)
      → (b : Bool) × ((elim own as (λ _. Bool) [
        | none ↦ true
        | some own ↦ is_matched split s.item own.item
      ])
          ≡ b)
        × ((b ≡ true) ↔ WantsScopes (some s) own)
  compare_scopes_iff s none = (true, refl, ((λ _. tt), λ _. refl))
  compare_scopes_iff s (some own) = (_, refl, is_matched_iff s.item own.item)

  scopes_matched_iff :
      (scopes : Option Scopes) (matches : List ProbeMatch) (m : ProbeMatch)
      → back matches ≡ some m
      → (b : Bool) × (scopes_matched split
            (elim scopes [ none ↦ none | some s ↦ some s.item ])
            matches
          ≡ ok b)
        × ((b ≡ true) ↔ WantsScopes scopes m.scopes)
  unfolding scopes_matched
  scopes_matched_iff none matches m e = (true, refl, ((λ _. tt), λ _. refl))
  scopes_matched_iff (some s) matches m e =
      let (b, run, iff) = compare_scopes_iff s m.scopes in
      (
        b,
        ap
              (λ o. deref o >>= λ (m : ProbeMatch). ok (elim m.scopes as (λ _. Bool) [
                | none ↦ true
                | some own ↦ is_matched split s.item own.item
              ]))
              e
            ∙ ap ok run,
        iff,
      )

  -- A device with a last match `m` answers every probe: with all its matches if the probe shares a
  -- type with `m`, prefixes left out, and shares a scope with it, each where both have some; else with
  -- none.
  pub probe_iff :
      (arg : Probe) (matches : List ProbeMatch) (m : ProbeMatch)
      → back matches ≡ some m
      → (b : Bool) × (probe split arg matches ≡ ok (if b then matches else []))
        × ((b ≡ true) ↔ (WantsTypes arg.types m.types × WantsScopes arg.scopes m.scopes))
  unfolding probe
  probe_iff arg matches m e =
      let (types, typed, types_iff) = types_matched_iff arg.types matches m e in
      let (scopes, scoped, scopes_iff) = scopes_matched_iff arg.scopes matches m e in
      let text : Option Text = elim arg.scopes [ none ↦ none | some s ↦ some s.item ] in
      let end : Outcome Bool → Outcome (List ProbeMatch) =
        (λ o. o >>= λ matched. ok (if matched then matches else [])) in
      (
        types && scopes,
        ap
              (λ o. o >>= λ by_types.
                end (if by_types then scopes_matched split text matches else ok false))
              typed
            ∙ ap (λ o. end (if types then o else ok false)) scoped
            ∙ chosen types scopes matches,
        both_iff types scopes types_iff scopes_iff,
      )
