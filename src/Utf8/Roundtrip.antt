-- ===== src/Utf8/Roundtrip.antt =====
-- Characters are read back from their UTF-8 encoding.
use neutun.Base.{
  ℕ, ◌+◌, ◌-◌, ◌*◌, ◌/◌, ◌%◌, ◌<◌, ◌≤◌, ◌≡◌, refl, ap, inl, inr, Text, none, some, List, [], ◌∷◌,
  ◌++◌, map, arith, ltb, ◌∙◌, Bool-cases,
}
use neutun.Utf8.{
  second_low, second_high, decode_from, encode, encode_all, or_replacement, chars, from_utf8_lossy,
  IsScalar, AllScalar, IsUtf8,
}

tail_step :
    (l h v : ℕ) (b : ℕ) (t : Text)
    → l ≤ b
    → b ≤ h
    → decode_from (some (record { need = 1; low = l; high = h; value = v })) (b ∷ t)
      ≡ some (v * 64 + (b - 0x80)) ∷ decode_from none t
unfolding decode_from
tail_step l h v b t p q = ground arith

middle_step :
    (n l h v : ℕ) (b : ℕ) (t : Text)
    → 1 < n
    → l ≤ b
    → b ≤ h
    → decode_from (some (record { need = n; low = l; high = h; value = v })) (b ∷ t)
      ≡ decode_from
          (some (record { need = n - 1; low = 0x80; high = 0xBF; value = v * 64 + (b - 0x80) }))
          t
unfolding decode_from
middle_step n l h v b t p q r = ground arith

two_bytes :
    (b c : ℕ) (t : Text)
    → 0xC2 ≤ b
    → b < 0xE0
    → 0x80 ≤ c
    → c ≤ 0xBF
    → decode_from none (b ∷ c ∷ t) ≡ some ((b - 0xC0) * 64 + (c - 0x80)) ∷ decode_from none t
unfolding decode_from
two_bytes b c t h k l m = ground arith

start_three :
    (b : ℕ) (t : Text)
    → 0xE0 ≤ b
    → b < 0xF0
    → decode_from none (b ∷ t)
      ≡ decode_from
          (some (record { need = 2; low = second_low b; high = second_high b; value = b - 0xE0 }))
          t
unfolding decode_from
start_three b t h k = ground arith

start_four :
    (b : ℕ) (t : Text)
    → 0xF0 ≤ b
    → b < 0xF5
    → decode_from none (b ∷ t)
      ≡ decode_from
          (some (record { need = 3; low = second_low b; high = second_high b; value = b - 0xF0 }))
          t
unfolding decode_from
start_four b t h k = ground arith

decode_one : (b : ℕ) (t : Text) → b < 0x80 → decode_from none (b ∷ t) ≡ some b ∷ decode_from none t
unfolding decode_from
decode_one b t h = ground arith

encode_one : (c : ℕ) → c < 0x80 → encode c ≡ c ∷ []
unfolding encode
encode_one c h = ground arith

encode_two : (c : ℕ) → 0x80 ≤ c → c < 0x800 → encode c ≡ (0xC0 + c / 64) ∷ (0x80 + c % 64) ∷ []
unfolding encode
encode_two c h k = ground arith

encode_three :
    (c : ℕ)
    → 0x800 ≤ c
    → c < 0x10000
    → encode c ≡ (0xE0 + c / 4096) ∷ (0x80 + c / 64 % 64) ∷ (0x80 + c % 64) ∷ []
unfolding encode
encode_three c h k = ground arith

encode_four :
    (c : ℕ)
    → 0x10000 ≤ c
    → encode c
      ≡ (0xF0 + c / 262144) ∷ (0x80 + c / 4096 % 64) ∷ (0x80 + c / 64 % 64) ∷ (0x80 + c % 64) ∷ []
unfolding encode
encode_four c h = ground arith

decode_two :
    (c : ℕ) (t : Text)
    → 0x80 ≤ c
    → c < 0x800
    → decode_from none (encode c ++ t) ≡ some c ∷ decode_from none t
decode_two c t h k =
    rw
      (
        encode_two c h k,
        two_bytes (0xC0 + c / 64) (0x80 + c % 64) t (omega arith) (omega arith) (omega arith)
            (omega arith),
      )
      (ap (λ n. some n ∷ decode_from none t) (omega arith))

decode_three :
    (c : ℕ) (t : Text)
    → 0x800 ≤ c
    → c < 0x10000
    → IsScalar c
    → decode_from none (encode c ++ t) ≡ some c ∷ decode_from none t
decode_three c t h k s =
    rw
      (
        encode_three c h k,
        start_three (0xE0 + c / 4096) _ (omega arith) (omega arith),
        middle_step 2 (second_low (0xE0 + c / 4096)) (second_high (0xE0 + c / 4096)) _
            (0x80 + c / 64 % 64) _ (omega arith) (ground arith) (ground arith),
        tail_step 0x80 0xBF _ (0x80 + c % 64) t (omega arith) (omega arith),
      )
      (ap (λ n. some n ∷ decode_from none t) (omega arith))

decode_four :
    (c : ℕ) (t : Text)
    → 0x10000 ≤ c
    → c < 0x110000
    → decode_from none (encode c ++ t) ≡ some c ∷ decode_from none t
decode_four c t h k =
    rw
      (
        encode_four c h,
        start_four (0xF0 + c / 262144) _ (omega arith) (omega arith),
        middle_step 3 (second_low (0xF0 + c / 262144)) (second_high (0xF0 + c / 262144)) _
            (0x80 + c / 4096 % 64) _ (omega arith) (ground arith) (ground arith),
        middle_step 2 0x80 0xBF _ (0x80 + c / 64 % 64) _ (omega arith) (omega arith) (omega arith),
        tail_step 0x80 0xBF _ (0x80 + c % 64) t (omega arith) (omega arith),
      )
      (ap (λ n. some n ∷ decode_from none t) (omega arith))

-- A character is read back from its encoding, whatever follows.
decode-encode :
    (c : ℕ) (t : Text) → IsScalar c → decode_from none (encode c ++ t) ≡ some c ∷ decode_from none t
decode-encode c t h = elim (Bool-cases (ltb c 0x80)) [
  | inl e ↦ rw (encode_one c (ground arith)) (decode_one c t (ground arith))
  | inr e ↦ elim (Bool-cases (ltb c 0x800)) [
    | inl f ↦ decode_two c t (ground arith) (ground arith)
    | inr f ↦ elim (Bool-cases (ltb c 0x10000)) [
      | inl g ↦ decode_three c t (ground arith) (ground arith) h
      | inr g ↦ decode_four c t (ground arith) (ground arith)
    ]
  ]
]

decode-encode_all : (cs : List ℕ) → AllScalar cs → decode_from none (encode_all cs) ≡ map some cs
unfolding encode_all decode_from
decode-encode_all [] h = refl
decode-encode_all (c ∷ cs) h =
    decode-encode c (encode_all cs) h.0 ∙ ap (◌∷◌ (some c)) (decode-encode_all cs h.1)

pub chars-encode_all : (cs : List ℕ) → AllScalar cs → chars (encode_all cs) ≡ cs
unfolding chars
chars-encode_all cs h = ap (map or_replacement) (decode-encode_all cs h) ∙ back cs
  where
    back : (xs : List ℕ) → map or_replacement (map some xs) ≡ xs
    back [] = refl
    back (x ∷ xs) = ap (◌∷◌ x) (back xs)

-- The lossy reading loses nothing of the bytes of a `String`.
pub from_utf8_lossy_lem : (t : Text) → IsUtf8 t → from_utf8_lossy t ≡ t
unfolding from_utf8_lossy
from_utf8_lossy_lem t u = rw u.encodes (ap encode_all (chars-encode_all u.of u.scalars))
