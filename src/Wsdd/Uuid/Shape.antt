-- ===== src/Wsdd/Uuid/Shape.antt =====
-- The form of the ids that `randUuid` prints.
use onvifxx.Base.{
  All-append, ℕ, zero, suc, ◌+◌, ◌/◌, ◌%◌, ◌^◌, ◌≤◌, ◌<◌, ◌≡◌, refl, sym, ap, ◌↔◌, ◌⊎◌, true, [],
  ◌∷◌, ◌++◌, arith, ltb, length, length-append, All, subst, false, dec_lt,
}
use onvifxx.Base.Chars.{Text, codes}
use onvifxx.Wsdd.Uuid.{
  hex_digit, hex_fixed, hex_width, print_hex, third_field, fourth_field, uuid_text,
}

abbrev pub IsHex : ℕ → Type 0
IsHex c = ((b'0' ≤ c) × (c ≤ b'9')) ⊎ ((b'a' ≤ c) × (c ≤ b'f'))

length-hex_fixed : (w n : ℕ) → length (hex_fixed w n) ≡ w
unfolding hex_fixed
length-hex_fixed zero n = refl
length-hex_fixed (suc w) n = omega (
  arith,
  length-append (hex_fixed w (n / 16)) (hex_digit (n % 16) ∷ []),
  length-hex_fixed w (n / 16),
)

hex_digit-IsHex : (d : ℕ) → d < 16 → IsHex (hex_digit d)
unfolding hex_digit
hex_digit-IsHex d h = ground arith

hex_fixed-IsHex : (w n : ℕ) → All IsHex (hex_fixed w n)
unfolding hex_fixed
hex_fixed-IsHex zero n = tt
hex_fixed-IsHex (suc w) n =
    All-append IsHex (hex_fixed w (n / 16)) _ (hex_fixed-IsHex w (n / 16))
      (hex_digit-IsHex (n % 16) (omega arith), tt)

-- A number that fits the width is printed at that width.
print_hex_fits : (w n : ℕ) → ltb n (16 ^ w) ≡ true → print_hex w n ≡ hex_fixed w n
unfolding print_hex
print_hex_fits w n h = rw (h, hex_width)

-- A group of `w` hexadecimal digits.
abbrev pub IsGroup : ℕ → Text → Type 0
IsGroup w t = (length t ≡ w) × All IsHex t

print_hex-IsGroup : (w n : ℕ) → ltb n (16 ^ w) ≡ true → IsGroup w (print_hex w n)
print_hex-IsGroup w n h =
    subst (IsGroup w) (sym (print_hex_fits w n h)) (length-hex_fixed w n, hex_fixed-IsHex w n)

-- The text of an id, from its five groups; the third is preceded by the version, 4.
abbrev joined : (time_low time_mid time_high clock node : Text) → Text
joined time_low time_mid time_high clock node =
    codes "uuid:"
    ++ (time_low
        ++ (b'-' ∷ time_mid ++ (b'-' ∷ b'4' ∷ time_high ++ (b'-' ∷ clock ++ (b'-' ∷ node)))))

length-joined :
    (a b c d e : Text)
    → length (joined a b c d e) ≡ length a + length b + length c + length d + length e + 10
length-joined a b c d e = omega (
  arith,
  length-append a (b'-' ∷ b ++ (b'-' ∷ b'4' ∷ c ++ (b'-' ∷ d ++ (b'-' ∷ e)))),
  length-append b (b'-' ∷ b'4' ∷ c ++ (b'-' ∷ d ++ (b'-' ∷ e))),
  length-append c (b'-' ∷ d ++ (b'-' ∷ e)),
  length-append d (b'-' ∷ e),
)

-- "uuid:" and groups of 8, 4, 4, 4 and 12 hexadecimal digits, the third of which begins with the
-- version, 4.
pub record IsUuid (t : Text) : Type 0 where
  pub time_low : Text
  pub time_mid : Text
  pub time_high : Text
  pub clock : Text
  pub node : Text
  pub is_time_low : IsGroup 8 time_low
  pub is_time_mid : IsGroup 4 time_mid
  pub is_time_high : IsGroup 3 time_high
  pub is_clock : IsGroup 4 clock
  pub is_node : IsGroup 12 node
  pub splits : t ≡ joined time_low time_mid time_high clock node

IsUuid-length : (t : Text) → IsUuid t → length t ≡ 41
IsUuid-length t u = omega (
  arith,
  ap length u.splits,
  length-joined u.time_low u.time_mid u.time_high u.clock u.node,
  u.is_time_low.0,
  u.is_time_mid.0,
  u.is_time_high.0,
  u.is_clock.0,
  u.is_node.0,
)

third_small : (r2 : ℕ) → r2 % 2 ^ 16 < 2 ^ 15 → ltb (third_field r2) (16 ^ 3) ≡ true
unfolding third_field
third_small r2 h = ground arith

third_wide :
    (r2 : ℕ)
    → 2 ^ 15 ≤ r2 % 2 ^ 16
    → (ltb (third_field r2) (16 ^ 3) ≡ false) × (ltb (third_field r2) (16 ^ 4) ≡ true)
unfolding third_field
third_wide r2 h = (ground arith, ground arith)

-- One more digit where the sign bit was copied into the field.
length-third_wide : (r2 : ℕ) → 2 ^ 15 ≤ r2 % 2 ^ 16 → length (print_hex 3 (third_field r2)) ≡ 4
unfolding print_hex
length-third_wide r2 h =
    let (short, long) = third_wide r2 h in
    rw (short, hex_width) (rw (long, hex_width) (length-hex_fixed 4 (third_field r2)))

module _ (r1 r2 r3 r4 : ℕ) (fits1 : r1 < 2 ^ 32) (fits4 : r4 < 2 ^ 32) where
  group1 : IsGroup 8 (print_hex 8 r1)
  group1 = print_hex-IsGroup 8 r1 (ground arith)

  group2 : IsGroup 4 (print_hex 4 (r2 / 2 ^ 16 % 2 ^ 16))
  group2 = print_hex-IsGroup 4 (r2 / 2 ^ 16 % 2 ^ 16) (ground arith)

  group4 : IsGroup 4 (print_hex 4 (fourth_field r3))
  group4 = print_hex-IsGroup 4 (fourth_field r3) (unfold fourth_field in ground arith)

  group5 : IsGroup 12 (print_hex 4 (r3 % 2 ^ 16) ++ print_hex 8 r4)
  group5 =
      let (n, hex) = print_hex-IsGroup 4 (r3 % 2 ^ 16) (ground arith) in
      let (n', hex') = print_hex-IsGroup 8 r4 (ground arith) in
      (
        omega (arith, n, n', length-append (print_hex 4 (r3 % 2 ^ 16)) (print_hex 8 r4)),
        All-append IsHex _ _ hex hex',
      )

  length-uuid_text : length (uuid_text r1 r2 r3 r4) ≡ 38 + length (print_hex 3 (third_field r2))
  unfolding uuid_text
  length-uuid_text = omega (
    arith,
    length-joined (print_hex 8 r1) (print_hex 4 (r2 / 2 ^ 16 % 2 ^ 16))
        (print_hex 3 (third_field r2)) (print_hex 4 (fourth_field r3))
        (print_hex 4 (r3 % 2 ^ 16) ++ print_hex 8 r4),
    group1.0,
    group2.0,
    group4.0,
    group5.0,
  )

  uuid_text-IsUuid : r2 % 2 ^ 16 < 2 ^ 15 → IsUuid (uuid_text r1 r2 r3 r4)
  unfolding uuid_text
  uuid_text-IsUuid h = record {
    time_low = print_hex 8 r1;
    time_mid = print_hex 4 (r2 / 2 ^ 16 % 2 ^ 16);
    time_high = print_hex 3 (third_field r2);
    clock = print_hex 4 (fourth_field r3);
    node = print_hex 4 (r3 % 2 ^ 16) ++ print_hex 8 r4;
    is_time_low = group1;
    is_time_mid = group2;
    is_time_high = print_hex-IsGroup 3 (third_field r2) (third_small r2 h);
    is_clock = group4;
    is_node = group5;
    splits = refl;
  }

  -- For 32-bit words, the printed id and its terminating zero fit the 48 bytes of the buffer. The id
  -- has the form of a UUID exactly where bit 15 of the second word is clear; where it is set, the
  -- third group has one digit too many.
  pub uuid_text-IsUuid_iff :
      (length (uuid_text r1 r2 r3 r4) + 1 ≤ 48)
      × (IsUuid (uuid_text r1 r2 r3 r4) ↔ (r2 % 2 ^ 16 < 2 ^ 15))
  uuid_text-IsUuid_iff = elim (dec_lt (r2 % 2 ^ 16) (2 ^ 15)) [
    | yes h ↦ (
      omega (arith, length-uuid_text, (print_hex-IsGroup 3 (third_field r2) (third_small r2 h)).0),
      (λ _. h, uuid_text-IsUuid),
    )
    | no h ↦
        let long = length-third_wide r2 (omega arith) in
        (
          omega (arith, length-uuid_text, long),
          (
            (λ u. absurd (omega (arith, IsUuid-length _ u, length-uuid_text, long))),
            uuid_text-IsUuid,
          ),
        )
  ]
