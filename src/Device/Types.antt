-- ===== src/Device/Types.antt =====
-- The loop of `Wsdd::probe` (examples/ws-discovery/wsdd.cpp) that strips the prefixes of type names.
pub mod Local
use onvifxx.Base.{
  ℕ, zero, suc, ◌+◌, ◌-◌, Option, none, some, List, [], ◌∷◌, ◌++◌, ◌==◌, if◌then◌else◌, take, drop,
  length,
}
use onvifxx.Base.Chars.{Text}

-- `s.rfind(c)`; `none` is `npos`
pub rfind : ℕ → Text → Option ℕ
rfind c [] = none
rfind c (x ∷ xs) = elim (rfind c xs) [
  | some i ↦ some (suc i)
  | none ↦ if x == c then some 0 else none
]

-- `s.erase(pos, n)`
pub erase : ℕ → ℕ → Text → Text
erase pos n s = take pos s ++ drop (pos + n) s

-- `pos2`: behind the last space up to `pos1`, or 0
pub word_start : ℕ → Text → ℕ
unfolding rfind
word_start pos1 s = elim (rfind b' ' (take (pos1 + 1) s)) [ none ↦ 0 | some pos2 ↦ pos2 + 1 ]

-- The loop, over fuel: `none` if it runs out.
pub strip : ℕ → Text → Option Text
unfolding rfind erase word_start
strip zero types = none
strip (suc fuel) types = elim (rfind b':' types) [
  | none ↦ some types
  | some pos1 ↦ let pos2 = word_start pos1 types in strip fuel (erase pos2 (pos1 - pos2 + 1) types)
]
