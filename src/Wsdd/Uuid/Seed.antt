-- ===== src/Wsdd/Uuid/Seed.antt =====
-- The generator behind `r2`: Schrage's way to multiply modulo 2^31 - 1 without overflow.
use onvifxx.Base.{ℕ, ◌-◌, ◌*◌, ◌%◌, ◌^◌, ◌<◌, ◌≡◌, refl, sym, subst, ap, ◌∙◌, ◌⊎◌, inl, inr, arith}
use onvifxx.Base.Int.{ℤ, pos, pos_part, negsuc, ◌≤ℤ◌, ◌*ℤ◌, word32, signed32}
use onvifxx.Wsdd.Uuid.{first_seed, seed_lo, seed_hi, seed_difference, next_seed, kept_seed, mask}

-- For a seed from 1 to 2^31 - 2 the next value is 16807 times the seed, modulo 2^31 - 1.
pub next_seed-lehmer :
    (n : ℕ) → 0 < n → n < 2 ^ 31 - 1 → next_seed (pos n) ≡ pos (16807 * n % (2 ^ 31 - 1))
unfolding next_seed
next_seed-lehmer n h k = ground arith

-- The values of `k` over the calls of one run.
pub data IsSeed : ℤ → Type 0 where
  first : IsSeed first_seed
  kept : {k : ℤ} → IsSeed k → IsSeed (kept_seed k)

abbrev pub IsInt : ℤ → Type 0
IsInt k = (negsuc (2 ^ 31 - 1) ≤ℤ k) × (k ≤ℤ pos (2 ^ 31 - 1))

abbrev IsSmall : ℤ → Type 0
IsSmall k = (k ≡ first_seed) ⊎ ((n : ℕ) × (n < 2 ^ 28) × (k ≡ pos n))

next_seed-pos :
    (n : ℕ)
    → n < 2 ^ 28
    → (0 < pos_part (next_seed (pos n)))
      × (pos_part (next_seed (pos n)) < 2 ^ 31)
      × (next_seed (pos n) ≡ pos (pos_part (next_seed (pos n))))
unfolding next_seed
next_seed-pos n h = ground arith

masked : (m : ℕ) → m < 2 ^ 31 → signed32 (mask (word32 (pos m))) ≡ pos (m % 2 ^ 28)
masked m h = ground arith

kept_seed-lt : (n : ℕ) → n < 2 ^ 28 → (m : ℕ) × (m < 2 ^ 28) × (kept_seed (pos n) ≡ pos m)
unfolding kept_seed
kept_seed-lt n h =
    let (_, fits, same) = next_seed-pos n h in
    (
      pos_part (next_seed (pos n)) % 2 ^ 28,
      omega arith,
      ap (λ k. signed32 (mask (word32 k))) same ∙ masked _ fits,
    )

kept_seed_first : (m : ℕ) × (m < 2 ^ 28) × (kept_seed first_seed ≡ pos m)
unfolding kept_seed
kept_seed_first = (126328707, omega arith, refl)

-- No `int` in the computation of the next value overflows, on any run.
pub record IsExact (k : ℤ) : Type 0 where
  pub product_lo : IsInt (seed_lo k *ℤ 16807)
  pub product_hi : IsInt (seed_hi k *ℤ 2836)
  pub difference : IsInt (seed_difference k)
  pub next : IsInt (next_seed k)
  pub positive : pos 1 ≤ℤ next_seed k

pos-IsExact : (n : ℕ) → n < 2 ^ 28 → IsExact (pos n)
unfolding next_seed
pos-IsExact n h = ground arith

first_seed-IsExact : IsExact first_seed
unfolding next_seed
first_seed-IsExact = omega arith

IsSeed-IsSmall : {k : ℤ} → IsSeed k → IsSmall k
IsSeed-IsSmall first = inl refl
IsSeed-IsSmall (kept {k} s) = elim (IsSeed-IsSmall s) [
  | inl e ↦ let (m, fits, same) = kept_seed_first in inr (m, fits, ap kept_seed e ∙ same)
  | inr (n, h, e) ↦ let (m, fits, same) = kept_seed-lt n h in inr (m, fits, ap kept_seed e ∙ same)
]

-- For every value that the seed takes over the calls of a run, no `int` in the computation of the
-- next value overflows, and the next value is positive.
pub seed-IsExact : {k : ℤ} → IsSeed k → IsExact k
seed-IsExact {k} s = elim (IsSeed-IsSmall s) [
  | inl e ↦ subst IsExact (sym e) first_seed-IsExact
  | inr (n, h, e) ↦ subst IsExact (sym e) (pos-IsExact n h)
]
