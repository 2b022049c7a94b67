-- ===== src/Utf8.antt =====
-- The UTF-8 view of a Rust `String`: `chars`, `String::from_utf8_lossy` and `str::from_utf8` of the
-- standard library. A text is its bytes; a character is a Unicode scalar value.
pub mod Roundtrip
pub mod Ascii
use neutun.Base.{
  ℕ, ◌+◌, ◌-◌, ◌*◌, ◌/◌, ◌%◌, ◌<◌, ◌≤◌, ◌≡◌, refl, ap, ◌⊎◌, inl, inr, Text, Bool, true, false,
  Option, none, some, List, [], ◌∷◌, ◌++◌, map, arith, ltb, leb, eqb, if◌then◌else◌, ◌∙◌, ◌&&◌,
  Bool-cases,
}

-- A character of which some bytes are still to come; the next one lies between `low` and `high`.
record Pending : Type 0 where
  need : ℕ
  low : ℕ
  high : ℕ
  value : ℕ

abbrev Decoder : Type 0
Decoder = Option Pending

-- The range of the second byte, after the first byte `b`.
abbrev second_low : ℕ → ℕ
second_low b = if eqb b 0xE0 then 0xA0 else if eqb b 0xF0 then 0x90 else 0x80

abbrev second_high : ℕ → ℕ
second_high b = if eqb b 0xED then 0x9F else if eqb b 0xF4 then 0x8F else 0xBF

-- The first byte of a character. `some c` is a character, `none` a malformed sequence.
start : ℕ → List (Option ℕ) × Decoder
start b =
    if ltb b 0x80
    then (some b ∷ [], none)
    else if ltb b 0xC2
    then (none ∷ [], none)
    else if ltb b 0xE0
    then ([], some (record { need = 1; low = 0x80; high = 0xBF; value = b - 0xC0 }))
    else if ltb b 0xF0
    then (
      [],
      some (record { need = 2; low = second_low b; high = second_high b; value = b - 0xE0 }),
    )
    else if ltb b 0xF5
    then (
      [],
      some (record { need = 3; low = second_low b; high = second_high b; value = b - 0xF0 }),
    )
    else (none ∷ [], none)

-- A byte that cannot continue the character ends it as malformed and starts the next one.
next : Pending → ℕ → List (Option ℕ) × Decoder
unfolding start
next p b =
    if leb p.low b && leb b p.high
    then (if eqb p.need 1 then (some (p.value * 64 + (b - 0x80)) ∷ [], none) else (
      [],
      some (record {
        need = p.need - 1;
        low = 0x80;
        high = 0xBF;
        value = p.value * 64 + (b - 0x80);
      }),
    ))
    else let (out, d) = start b in (none ∷ out, d)

step : Decoder → ℕ → List (Option ℕ) × Decoder
unfolding next
step none b = start b
step (some p) b = next p b

decode_from : Decoder → Text → List (Option ℕ)
unfolding step
decode_from none [] = []
decode_from (some p) [] = none ∷ []
decode_from d (b ∷ t) = let (out, d') = step d b in out ++ decode_from d' t

unfoldable pub encode : ℕ → Text
encode c =
    if ltb c 0x80
    then c ∷ []
    else if ltb c 0x800
    then (0xC0 + c / 64) ∷ (0x80 + c % 64) ∷ []
    else if ltb c 0x10000
    then (0xE0 + c / 4096) ∷ (0x80 + c / 64 % 64) ∷ (0x80 + c % 64) ∷ []
    else (0xF0 + c / 262144) ∷ (0x80 + c / 4096 % 64) ∷ (0x80 + c / 64 % 64) ∷ (0x80 + c % 64) ∷ []

unfoldable pub encode_all : List ℕ → Text
encode_all [] = []
encode_all (c ∷ cs) = encode c ++ encode_all cs

abbrev or_replacement : Option ℕ → ℕ
or_replacement none = 0xFFFD
or_replacement (some c) = c

unfoldable pub chars : Text → List ℕ
unfolding decode_from
chars t = map or_replacement (decode_from none t)

unfoldable pub from_utf8_lossy : Text → Text
unfolding chars encode_all encode
from_utf8_lossy t = encode_all (chars t)

abbrev all_some : List (Option ℕ) → Bool
all_some [] = true
all_some (none ∷ cs) = false
all_some (some c ∷ cs) = all_some cs

-- `none` is `Utf8Error`.
unfoldable pub from_utf8 : Text → Option Text
unfolding decode_from
from_utf8 t = if all_some (decode_from none t) then some t else none

abbrev pub IsScalar : ℕ → Type 0
IsScalar c = (c < 0xD800) ⊎ ((0xE000 ≤ c) × (c < 0x110000))

abbrev pub AllScalar : List ℕ → Type 0
AllScalar [] = Unit {0}
AllScalar (c ∷ cs) = IsScalar c × AllScalar cs

-- What a Rust `String` is: the encoding of some characters.
pub record IsUtf8 (t : Text) : Type 0 where
  pub of : List ℕ
  pub scalars : AllScalar of
  pub encodes : t ≡ encode_all of
