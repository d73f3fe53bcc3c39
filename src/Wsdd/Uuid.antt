-- ===== src/Wsdd/Uuid.antt =====
-- `Wsa::randUuid` of wsdd/wsa.cpp: `rand_uuid` is the build without OpenSSL.
pub mod Seed
pub mod Shape
use onvifxx.Base.{
  ℕ, zero, suc, ◌+◌, ◌-◌, ◌*◌, ◌/◌, ◌%◌, ◌^◌, List, [], ◌∷◌, ◌++◌, ltb, if◌then◌else◌, Bool,
}
use onvifxx.Base.Chars.{Text, codes}
use onvifxx.Base.Int.{ℤ, pos, negsuc, ◌+ℤ◌, ◌-ℤ◌, ◌*ℤ◌, ◌/ℤ◌, ◌%ℤ◌, leb_ℤ, word32, signed32}

-- `static int k = 0xFACEB00B`
abbrev pub first_seed : ℤ
first_seed = signed32 0xFACE_B00B

-- `lo` and `hi`, and `k` as it is computed from them before the test
abbrev pub seed_lo : ℤ → ℤ
seed_lo k = k %ℤ 127773

abbrev pub seed_hi : ℤ → ℤ
seed_hi k = k /ℤ 127773

abbrev pub seed_difference : ℤ → ℤ
seed_difference k = seed_lo k *ℤ 16807 -ℤ seed_hi k *ℤ 2836

-- the value of `k` that `r2` takes
pub next_seed : ℤ → ℤ
next_seed k =
    if leb_ℤ (seed_difference k) (pos 0)
    then seed_difference k +ℤ pos 0x7FFF_FFFF
    else seed_difference k

-- `k & 0x8FFFFFFF`: bit 31 and the low 28 bits
abbrev pub mask : ℕ → ℕ
mask w = w / 2 ^ 31 * 2 ^ 31 + w % 2 ^ 28

-- the value of `k` for the next call
pub kept_seed : ℤ → ℤ
unfolding next_seed
kept_seed k = signed32 (mask (word32 (next_seed k)))

-- The hexadecimal digit of a number below 16.
pub hex_digit : ℕ → ℕ
hex_digit d = if ltb d 10 then b'0' + d else b'a' + (d - 10)

-- The `w` lowest hexadecimal digits of a number.
pub hex_fixed : ℕ → ℕ → Text
unfolding hex_digit
hex_fixed zero n = []
hex_fixed (suc w) n = hex_fixed w (n / 16) ++ hex_digit (n % 16) ∷ []

-- From `w` digits on, the least number of them that holds `n`. A 32-bit word needs 8 at most.
pub hex_width : ℕ → ℕ → ℕ → ℕ
hex_width zero w n = w
hex_width (suc fuel) w n = let more = hex_width fuel (w + 1) n in if ltb n (16 ^ w) then w else more

-- `%w.wx`: no digit that matters is left out
pub print_hex : ℕ → ℕ → Text
unfolding hex_fixed hex_width
print_hex w n = hex_fixed (hex_width 8 w n) n

-- `(short)r2 >> 4`, printed by `%hx`: the sign bit of the low half is copied into the top four bits
pub third_field : ℕ → ℕ
third_field r2 = let low = r2 % 2 ^ 16 in if ltb low (2 ^ 15) then low / 16 else low / 16 + 0xF000

-- `((short)(r3 >> 16) & 0x3FFF) | 0x8000`
pub fourth_field : ℕ → ℕ
fourth_field r3 = r3 / 2 ^ 16 % 2 ^ 14 + 0x8000

-- What `sprintf` writes, for four 32-bit words, without the terminating zero.
unfoldable pub uuid_text : ℕ → ℕ → ℕ → ℕ → Text
unfolding print_hex third_field fourth_field
uuid_text r1 r2 r3 r4 =
    codes "uuid:"
    ++ (print_hex 8 r1
        ++ (b'-' ∷ print_hex 4 (r2 / 2 ^ 16 % 2 ^ 16)
            ++ (b'-' ∷ b'4' ∷ print_hex 3 (third_field r2)
                ++ (b'-' ∷ print_hex 4 (fourth_field r3)
                    ++ (b'-' ∷ print_hex 4 (r3 % 2 ^ 16) ++ print_hex 8 r4)))))

-- What a call reads from outside: the clock, the first word of `soap_->buf`, and `soap_random` twice.
pub record Random : Type 0 where
  pub clock : ℕ
  pub buffer : ℕ
  pub third : ℕ
  pub fourth : ℕ

-- `r1` with `gettimeofday` or with `time`: the conversion to `int` keeps the low 32 bits
unfoldable pub clock_word : Bool → ℕ → ℕ → ℕ
clock_word has_gettimeofday sec usec =
    if has_gettimeofday then (10000000 * sec + usec) % 2 ^ 32 else sec % 2 ^ 32

-- The id in the build with OpenSSL, where the first two words are `soap_random` as well.
unfoldable pub openssl_uuid : ℕ → ℕ → ℕ → ℕ → Text
unfolding uuid_text
openssl_uuid r1 r2 r3 r4 = uuid_text (r1 % 2 ^ 32) (r2 % 2 ^ 32) (r3 % 2 ^ 32) (r4 % 2 ^ 32)

-- `r2 += *(int*)soap_->buf` wraps here. The language leaves a signed overflow undefined.
pub second_word : ℤ → ℕ → ℕ
unfolding next_seed
second_word k buffer = (word32 (next_seed k) + buffer) % 2 ^ 32

-- The id, and the seed that the call leaves.
unfoldable pub rand_uuid : ℤ → Random → Text × ℤ
unfolding kept_seed second_word uuid_text
rand_uuid k env = (
  uuid_text (env.clock % 2 ^ 32) (second_word k env.buffer) (env.third % 2 ^ 32)
      (env.fourth % 2 ^ 32),
  kept_seed k,
)
