-- ===== src/Str.antt =====
-- The methods of `str` and `char` that the program calls, over the bytes of a text.
pub mod Numbers
pub mod Affix
use neutun.Base.{
  ℕ, zero, suc, ◌+◌, ◌-◌, ◌*◌, Text, ◌==◌, eqb, ltb, leb, if◌then◌else◌, Bool, true, false, ◌&&◌,
  ◌||◌, not, Option, none, some, String, codes, List, [], ◌∷◌, ◌++◌, map, length, take, drop,
}
use mathlib.Core.List.{reverse}
use neutun.Utf8.{chars, encode_all}

-- Unicode's tables, for what is not ASCII.
pub record Unicode : Type 0 where
  pub lowercase : Text → Text
  pub uppercase : Text → Text
  pub alphanumeric : ℕ → Bool

abbrev pub ascii_lowercase : ℕ → ℕ
ascii_lowercase c = if leb b'A' c && leb c b'Z' then c + 32 else c

abbrev pub ascii_uppercase : ℕ → ℕ
ascii_uppercase c = if leb b'a' c && leb c b'z' then c - 32 else c

abbrev pub is_ascii : Text → Bool
is_ascii [] = true
is_ascii (c ∷ t) = ltb c 128 && is_ascii t

unfoldable pub to_lowercase : Unicode → Text → Text
to_lowercase u t = if is_ascii t then map ascii_lowercase t else u.lowercase t

unfoldable pub to_uppercase : Unicode → Text → Text
to_uppercase u t = if is_ascii t then map ascii_uppercase t else u.uppercase t

unfoldable pub is_alphanumeric : Unicode → ℕ → Bool
is_alphanumeric u c =
    if ltb c 128
    then (leb b'0' c && leb c b'9') || (leb b'A' c && leb c b'Z') || (leb b'a' c && leb c b'z')
    else u.alphanumeric c

-- `White_Space` of Unicode.
abbrev pub is_whitespace : ℕ → Bool
is_whitespace c =
    (leb 9 c && leb c 13)
    || eqb c 32
    || eqb c 0x85
    || eqb c 0xA0
    || eqb c 0x1680
    || (leb 0x2000 c && leb c 0x200A)
    || eqb c 0x2028
    || eqb c 0x2029
    || eqb c 0x202F
    || eqb c 0x205F
    || eqb c 0x3000

pub skip_whitespace : List ℕ → List ℕ
skip_whitespace [] = []
skip_whitespace (c ∷ cs) = let rest = skip_whitespace cs in if is_whitespace c then rest else c ∷ cs

unfoldable pub trim : Text → Text
unfolding skip_whitespace chars encode_all
trim t = encode_all (reverse (skip_whitespace (reverse (skip_whitespace (chars t)))))

abbrev pub onto_first : ℕ → List Text → List Text
onto_first c [] = (c ∷ []) ∷ []
onto_first c (t ∷ ts) = (c ∷ t) ∷ ts

-- `split` at a one-byte separator. There is always a first piece.
unfoldable pub split : ℕ → Text → List Text
split sep [] = [] ∷ []
split sep (c ∷ t) = let rest = split sep t in if eqb c sep then [] ∷ rest else onto_first c rest

abbrev pub contains : List Text → Text → Bool
contains [] t = false
contains (x ∷ xs) t = x == t || contains xs t

-- `ends_with`, and the text before the suffix.
unfoldable pub ends_with : Text → Text → Bool
ends_with t suffix = leb (length suffix) (length t) && drop (length t - length suffix) t == suffix
