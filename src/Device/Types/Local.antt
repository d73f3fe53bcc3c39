-- ===== src/Device/Types/Local.antt =====
-- What the loop leaves of a list of type names.
use onvifxx.Base.{
  ℕ, zero, suc, ◌+◌, ◌-◌, ◌<◌, ◌≡◌, refl, sym, ap, subst, ◌∙◌, ◌⊎◌, inl, inr, Option, none, some,
  [], ◌∷◌, ◌++◌, ◌==◌, ==_iff, if◌then◌else◌, take, drop, length, length-append, append_assoc,
  append-nil, arith, Bool-cases,
}
use onvifxx.Base.Chars.{Text, Free}
use onvifxx.Device.Types.{rfind, erase, word_start, strip}

-- A list of names with its prefixes left out, read from the left: `word` is what has been read of the
-- name so far, and a colon begins it anew.
unfoldable pub local_from : Text → Text → Text
local_from word [] = word
local_from word (c ∷ cs) =
    let ended = local_from [] cs in
    let longer = local_from (word ++ c ∷ []) cs in
    if c == b' ' then word ++ b' ' ∷ ended else if c == b':' then ended else longer

local_from-Free : (word s : Text) → Free b':' s → local_from word s ≡ word ++ s
unfolding local_from
local_from-Free word [] free = sym (append-nil word)
local_from-Free word (c ∷ cs) free = ground (
  arith,
  local_from-Free [] cs free.1,
  local_from-Free (word ++ c ∷ []) cs free.1 ∙ append_assoc word (c ∷ []) cs,
)

-- A prefix leaves nothing.
local_from-prefix :
    (word prefix rest : Text)
    → Free b' ' prefix
    → local_from word (prefix ++ b':' ∷ rest) ≡ local_from [] rest
unfolding local_from
local_from-prefix word [] rest free = refl
local_from-prefix word (c ∷ cs) rest free =
    ground (
      arith,
      local_from-prefix [] cs rest free.1,
      local_from-prefix (word ++ c ∷ []) cs rest free.1,
    )

-- What stands behind a space counts alone.
local_from-space :
    (word before s t : Text)
    → local_from [] s ≡ local_from [] t
    → local_from word (before ++ b' ' ∷ s) ≡ local_from word (before ++ b' ' ∷ t)
unfolding local_from
local_from-space word [] s t e = ap (λ l. word ++ b' ' ∷ l) e
local_from-space word (c ∷ cs) s t e =
    ground (arith, local_from-space [] cs s t e, local_from-space (word ++ c ∷ []) cs s t e)

-- A text has no `c`, or splits at the last one.
split_last :
    (c : ℕ) (s : Text)
    → Free c s ⊎ ((before after : Text) × (s ≡ before ++ c ∷ after) × Free c after)
split_last c [] = inl tt
split_last c (x ∷ xs) = elim (split_last c xs) [
  | inr (before, after, e, free) ↦ inr (x ∷ before, after, ap (◌∷◌ x) e, free)
  | inl free ↦ elim (Bool-cases (x == c)) [
    | inl same ↦ inr ([], xs, ap (λ x. x ∷ xs) ((==_iff x c).0 same), free)
    | inr other ↦ inl (ground arith, free)
  ]
]

rfind-Free : (c : ℕ) (s : Text) → Free c s → rfind c s ≡ none
unfolding rfind
rfind-Free c [] free = refl
rfind-Free c (x ∷ xs) free = ground (arith, rfind-Free c xs free.1)

rfind-append :
    (c : ℕ) (before after : Text)
    → Free c after
    → rfind c (before ++ c ∷ after) ≡ some (length before)
unfolding rfind
rfind-append c [] after free = ground (arith, rfind-Free c after free)
rfind-append c (x ∷ before) after free = ground (arith, rfind-append c before after free)

take-past : (c : ℕ) (a rest : Text) → take (suc (length a)) (a ++ c ∷ rest) ≡ a ++ c ∷ []
take-past c [] rest = refl
take-past c (x ∷ a) rest = ap (◌∷◌ x) (take-past c a rest)

drop-past : (c : ℕ) (a rest : Text) → drop (suc (length a)) (a ++ c ∷ rest) ≡ rest
drop-past c [] rest = refl
drop-past c (x ∷ a) rest = drop-past c a rest

take-through : (c : ℕ) (a rest : Text) → take (length a + 1) (a ++ c ∷ rest) ≡ a ++ c ∷ []
take-through c a rest =
    ap (λ n. take n (a ++ c ∷ rest)) {y = suc (length a)} (omega arith) ∙ take-past c a rest

drop-through : (c : ℕ) (a rest : Text) → drop (length a + 1) (a ++ c ∷ rest) ≡ rest
drop-through c a rest =
    ap (λ n. drop n (a ++ c ∷ rest)) {y = suc (length a)} (omega arith) ∙ drop-past c a rest

Free-colon : (a : Text) → Free b' ' a → Free b' ' (a ++ b':' ∷ [])
Free-colon [] free = (omega arith, tt)
Free-colon (x ∷ a) free = (free.0, Free-colon a free.1)

-- A name with a prefix `a`: the first of the list, or one behind a space.
erase-first :
    (a rest : Text)
    → Free b' ' a
    → let s = a ++ b':' ∷ rest in
      let start = word_start (length a) s in erase start (length a - start + 1) s ≡ rest
unfolding word_start erase
erase-first a rest free =
    let s = a ++ b':' ∷ rest in
    let start : word_start (length a) s ≡ 0 =
      ap (λ t. elim (rfind b' ' t) as (λ _. ℕ) [ none ↦ 0 | some pos2 ↦ pos2 + 1 ])
        (take-through b':' a rest)
      ∙ ap (λ o. elim o as (λ _. ℕ) [ none ↦ 0 | some pos2 ↦ pos2 + 1 ])
          (rfind-Free b' ' _ (Free-colon a free)) in
    ap (λ p. erase p (length a - p + 1) s) start
    ∙ ap (λ n. drop n s) (omega arith)
    ∙ drop-through b':' a rest

erase-later :
    (before prefix rest : Text)
    → Free b' ' prefix
    → let a = before ++ b' ' ∷ prefix in
      let s = a ++ b':' ∷ rest in
      let start = word_start (length a) s in
      erase start (length a - start + 1) s ≡ before ++ b' ' ∷ rest
unfolding word_start erase
erase-later before prefix rest free =
    let a = before ++ b' ' ∷ prefix in
    let s = a ++ b':' ∷ rest in
    let start : word_start (length a) s ≡ length before + 1 =
      ap (λ t. elim (rfind b' ' t) as (λ _. ℕ) [ none ↦ 0 | some pos2 ↦ pos2 + 1 ])
        (take-through b':' a rest ∙ append_assoc before (b' ' ∷ prefix) _)
      ∙ ap (λ o. elim o as (λ _. ℕ) [ none ↦ 0 | some pos2 ↦ pos2 + 1 ])
          (rfind-append b' ' before _ (Free-colon prefix free)) in
    let kept =
      ap (take (length before + 1)) (append_assoc before (b' ' ∷ prefix) (b':' ∷ rest))
      ∙ take-through b' ' before (prefix ++ b':' ∷ rest) in
    let gone =
      ap (λ n. drop n s) (omega (arith, length-append before (b' ' ∷ prefix)))
      ∙ drop-through b':' a rest in
    ap (λ p. erase p (length a - p + 1) s) start
    ∙ ap (λ l. l ++ drop (length before + 1 + (length a - (length before + 1) + 1)) s) kept
    ∙ ap (◌++◌ (before ++ b' ' ∷ [])) gone
    ∙ append_assoc before (b' ' ∷ []) rest

strip-colon :
    (fuel : ℕ) (a rest : Text)
    → Free b':' rest
    → let s = a ++ b':' ∷ rest in
      let start = word_start (length a) s in
      strip (suc fuel) s ≡ strip fuel (erase start (length a - start + 1) s)
unfolding strip
strip-colon fuel a rest free =
    let s = a ++ b':' ∷ rest in
    ap
      (λ o. elim o as (λ _. Option Text) [
        | none ↦ some s
        | some pos1 ↦ strip fuel (erase (word_start pos1 s) (pos1 - word_start pos1 s + 1) s)
      ])
      (rfind-append b':' a rest free)

-- A round of the loop that finds a colon leaves a shorter text with the same names.
strip-round :
    (fuel : ℕ) (a rest : Text)
    → Free b':' rest
    → (t : Text) × (strip (suc fuel) (a ++ b':' ∷ rest) ≡ strip fuel t)
      × (local_from [] (a ++ b':' ∷ rest) ≡ local_from [] t)
      × (length t < length (a ++ b':' ∷ rest))
strip-round fuel a rest free = elim (split_last b' ' a) [
  | inl word ↦ (
    rest,
    strip-colon fuel a rest free ∙ ap (strip fuel) (erase-first a rest word),
    local_from-prefix [] a rest word,
    omega (arith, length-append a (b':' ∷ rest)),
  )
  | inr (before, prefix, e, word) ↦ (
    before ++ b' ' ∷ rest,
    strip-colon fuel a rest free ∙ ap (strip fuel) (erased before prefix e word),
    same before prefix e word,
    omega (
      arith,
      length-append a (b':' ∷ rest),
      ap length e,
      length-append before (b' ' ∷ prefix),
      length-append before (b' ' ∷ rest),
    ),
  )
]
  where
    erased :
        (before prefix : Text)
        → a ≡ before ++ b' ' ∷ prefix
        → Free b' ' prefix
        → let s = a ++ b':' ∷ rest in
          let start = word_start (length a) s in
          erase start (length a - start + 1) s ≡ before ++ b' ' ∷ rest
    erased before prefix e word =
        subst
          (λ a.
            erase (word_start (length a) (a ++ b':' ∷ rest))
              (length a - word_start (length a) (a ++ b':' ∷ rest) + 1) (a ++ b':' ∷ rest)
            ≡ before ++ b' ' ∷ rest)
          (sym e) (erase-later before prefix rest word)

    same :
        (before prefix : Text)
        → a ≡ before ++ b' ' ∷ prefix
        → Free b' ' prefix
        → local_from [] (a ++ b':' ∷ rest) ≡ local_from [] (before ++ b' ' ∷ rest)
    same before prefix e word =
        ap (λ a. local_from [] (a ++ b':' ∷ rest)) e
        ∙ ap (local_from []) (append_assoc before (b' ' ∷ prefix) (b':' ∷ rest))
        ∙ local_from-space [] before _ _ (local_from-prefix [] prefix rest word)

strip-enough : (fuel : ℕ) (s : Text) → length s < fuel → strip fuel s ≡ some (local_from [] s)
unfolding strip
strip-enough zero s h = absurd (omega arith)
strip-enough (suc fuel) s h = elim (split_last b':' s) [
  | inl free ↦ rw (rfind-Free b':' s free, strip) (ap some (sym (local_from-Free [] s free)))
  | inr (a, rest, e, free) ↦
      let (t, once, same, shorter) = strip-round fuel a rest free in
      ap (strip (suc fuel)) e
      ∙ once
      ∙ strip-enough fuel t (omega (arith, ap length e, shorter))
      ∙ ap some (sym same ∙ sym (ap (local_from []) e))
]

-- With as much fuel as there are bytes and one more, the loop ends. It leaves every name without its
-- prefix: without what stands in it before its last colon, and that colon. Names end at a space alone.
pub strip-local_from : (types : Text) → strip (length types + 1) types ≡ some (local_from [] types)
strip-local_from types = strip-enough (length types + 1) types (omega arith)
