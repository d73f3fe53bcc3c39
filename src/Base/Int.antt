-- ===== src/Base/Int.antt =====
-- `int` as an integer, with C's division, and as a 32-bit word.
use onvifxx.Base.{ℕ, suc, ◌+◌, ◌-◌, ◌*◌, ◌/◌, ◌%◌, ◌^◌, ◌≤◌, Bool, ltb, leb, if◌then◌else◌}

-- `negsuc n` is -(n + 1).
pub data ℤ : Type 0 where
  pos : ℕ → ℤ
  negsuc : ℕ → ℤ

abbrev pub pos_part : ℤ → ℕ
pos_part (pos n) = n
pos_part (negsuc n) = 0

abbrev pub neg_part : ℤ → ℕ
neg_part (pos n) = 0
neg_part (negsuc n) = suc n

-- a - b, as an integer.
abbrev pub sub_ℕ : ℕ → ℕ → ℤ
sub_ℕ a b = if leb b a then pos (a - b) else negsuc (b - a - 1)

infixl 65 ◌+ℤ◌ ◌-ℤ◌
infixl 70 ◌*ℤ◌ ◌/ℤ◌ ◌%ℤ◌
infix 50 ◌≤ℤ◌
abbrev pub ◌+ℤ◌ : ℤ → ℤ → ℤ
a +ℤ b = sub_ℕ (pos_part a + pos_part b) (neg_part a + neg_part b)

abbrev pub ◌-ℤ◌ : ℤ → ℤ → ℤ
a -ℤ b = sub_ℕ (pos_part a + neg_part b) (neg_part a + pos_part b)

abbrev pub ◌≤ℤ◌ : ℤ → ℤ → Type 0
a ≤ℤ b = pos_part a + neg_part b ≤ pos_part b + neg_part a

abbrev pub leb_ℤ : ℤ → ℤ → Bool
leb_ℤ a b = leb (pos_part a + neg_part b) (pos_part b + neg_part a)

-- Multiplication and division by a constant that is not negative; division truncates towards zero.
abbrev pub ◌*ℤ◌ : ℤ → ℕ → ℤ
a *ℤ m = sub_ℕ (pos_part a * m) (neg_part a * m)

abbrev pub ◌/ℤ◌ : ℤ → ℕ → ℤ
a /ℤ m = sub_ℕ (pos_part a / m) (neg_part a / m)

abbrev pub ◌%ℤ◌ : ℤ → ℕ → ℤ
a %ℤ m = sub_ℕ (pos_part a % m) (neg_part a % m)

-- The bit pattern of an `int`, and the `int` of a bit pattern.
abbrev pub word32 : ℤ → ℕ
word32 (pos n) = n % 2 ^ 32
word32 (negsuc n) = 2 ^ 32 - 1 - n % 2 ^ 32

abbrev pub signed32 : ℕ → ℤ
signed32 w = if ltb w (2 ^ 31) then pos w else negsuc (2 ^ 32 - w - 1)
