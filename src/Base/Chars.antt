-- ===== src/Base/Chars.antt =====
-- `std::string` as the list of its bytes, with the members that the code calls.
use Prim.Native.Char.{code}
use Prim.Native.String.{String}
use onvifxx.Base.{
  zero, ltb, ◌+◌, ◌/◌, ◌%◌, ℕ, suc, ◌≡◌, refl, ◌≢◌, ◌↔◌, Bool, true, false, ◌&&◌, Option, none,
  some, List, [], ◌∷◌, ◌++◌, arith, ◌==◌, if◌then◌else◌, length, take, drop, All,
}

abbrev pub Text : Type 0
Text = List ℕ

-- The bytes of a literal, which is ASCII here.
abbrev pub codes : String → Text
codes String.[] = []
codes (String.◌∷◌ c s) = code c ∷ codes s

-- `<<` of a number, in decimal.
unfoldable pub print_nat : ℕ → ℕ → Text
print_nat zero n = []
print_nat (suc fuel) n =
    let more = print_nat fuel (n / 10) in
    if ltb n 10 then (b'0' + n) ∷ [] else more ++ (b'0' + n % 10) ∷ []

-- `a == b`
unfoldable pub text_eq : Text → Text → Bool
text_eq [] [] = true
text_eq (x ∷ xs) (y ∷ ys) = x == y && text_eq xs ys
text_eq _ _ = false

pub text_eq_iff : (a b : Text) → (text_eq a b ≡ true) ↔ (a ≡ b)
unfolding text_eq
text_eq_iff (x ∷ a) (y ∷ b) = ground (arith, text_eq_iff a b)
text_eq_iff _ _ = ground arith

pub text_eq_refl : (a : Text) → text_eq a a ≡ true
text_eq_refl a = (text_eq_iff a a).1 refl

-- `s.empty()`
abbrev pub is_empty : Text → Bool
is_empty [] = true
is_empty (x ∷ xs) = false

-- `s.find(c)`; `none` is `npos`
unfoldable pub find : ℕ → Text → Option ℕ
find c [] = none
find c (x ∷ xs) =
    if x == c then some 0 else elim (find c xs) [ none ↦ none | some i ↦ some (suc i) ]

-- No byte of the text is `c`.
abbrev pub Free : ℕ → Text → Type 0
Free c = All (λ x. x ≢ c)

pub find-Free : (c : ℕ) (s : Text) → Free c s → find c s ≡ none
unfolding find
find-Free c [] f = refl
find-Free c (x ∷ s) f = ground (arith, find-Free c s f.1)

pub find-append : (c : ℕ) (s rest : Text) → Free c s → find c (s ++ c ∷ rest) ≡ some (length s)
unfolding find
find-append c [] rest f = ground arith
find-append c (x ∷ s) rest f = ground (arith, find-append c s rest f.1)

-- What `find` says of the text: the byte is nowhere in it, or first at the position returned.
abbrev pub Found : ℕ → Text → Option ℕ → Type 0
Found c s none = Free c s
Found c s (some i) = Free c (take i s) × (s ≡ take i s ++ c ∷ drop (suc i) s)

pub find-Found : (c : ℕ) (s : Text) → Found c s (find c s)
unfolding find
find-Found c [] = tt
find-Found c (x ∷ s) = ground (arith, find-Found c s)
