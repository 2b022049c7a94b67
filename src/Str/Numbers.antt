-- ===== src/Str/Numbers.antt =====
-- Decimal numbers: `parse` to an unsigned integer, and `to_string`.
use native.Mathlib.Decide.{dec_lt}
use native.Mathlib.Nat.{pow-suc}
use neutun.Base.{
  ℕ, zero, suc, ◌+◌, ◌-◌, ◌*◌, ◌/◌, ◌%◌, ◌<◌, ◌≤◌, ◌^◌, ◌≡◌, ◌∙◌, ap, Text, eqb, ltb, leb,
  if◌then◌else◌, ◌&&◌, Option, none, some, [], ◌∷◌, arith,
}

-- The digits of a number below `bound`, most significant first, after `n`; `none` is `ParseIntError`.
unfoldable pub parse_digits : ℕ → ℕ → Text → Option ℕ
parse_digits bound n [] = some n
parse_digits bound n (c ∷ t) =
    let rest = parse_digits bound (n * 10 + (c - b'0')) t in
    if leb b'0' c && leb c b'9' && ltb (n * 10 + (c - b'0')) bound then rest else none

-- A sign `+` may stand before the digits, of which there is at least one.
unfoldable pub parse_unsigned : ℕ → Text → Option ℕ
unfolding parse_digits
parse_unsigned bound [] = none
parse_unsigned bound (c ∷ []) = if eqb c b'+' then none else parse_digits bound 0 (c ∷ [])
parse_unsigned bound (c ∷ d ∷ t) =
    if eqb c b'+' then parse_digits bound 0 (d ∷ t) else parse_digits bound 0 (c ∷ d ∷ t)

abbrev pub parse_u16 : Text → Option ℕ
parse_u16 = parse_unsigned 65536

abbrev pub parse_u32 : Text → Option ℕ
parse_u32 = parse_unsigned 4294967296

-- The digits of `n` before `acc`, `fuel` of them at most.
unfoldable pub show_onto : ℕ → ℕ → Text → Text
show_onto zero n acc = acc
show_onto (suc fuel) n acc =
    let out = (b'0' + n % 10) ∷ acc in
    let rest = show_onto fuel (n / 10) out in if ltb n 10 then out else rest

-- A machine integer has at most twenty digits.
unfoldable pub show : ℕ → Text
show n = show_onto 20 n []

parse_digit :
    (bound m d : ℕ) (t : Text)
    → d < 10
    → m * 10 + d < bound
    → parse_digits bound m ((b'0' + d) ∷ t) ≡ parse_digits bound (m * 10 + d) t
unfolding parse_digits
parse_digit bound m d t h k = ground arith

show_onto-last :
    (fuel n : ℕ) (acc : Text) → n < 10 → show_onto (suc fuel) n acc ≡ (b'0' + n % 10) ∷ acc
unfolding show_onto
show_onto-last fuel n acc h = ground arith

show_onto-more :
    (fuel n : ℕ) (acc : Text)
    → 10 ≤ n
    → show_onto (suc fuel) n acc ≡ show_onto fuel (n / 10) ((b'0' + n % 10) ∷ acc)
unfolding show_onto
show_onto-more fuel n acc h = ground arith

-- The digits of `n` are read back to `n`, before whatever stands behind them.
parse_digits-show_onto :
    (bound fuel n : ℕ) (acc : Text)
    → n < bound
    → n < 10 ^ suc fuel
    → parse_digits bound 0 (show_onto (suc fuel) n acc) ≡ parse_digits bound n acc
parse_digits-show_onto bound zero n acc h k =
    ap (parse_digits bound 0) (show_onto-last zero n acc (omega (arith, pow-suc 10 0)))
    ∙ parse_digit bound 0 (n % 10) acc (omega arith) (omega arith)
    ∙ ap (λ m. parse_digits bound m acc) (omega (arith, pow-suc 10 0))
parse_digits-show_onto bound (suc fuel) n acc h k = elim (dec_lt n 10) [
  | yes small ↦
      ap (parse_digits bound 0) (show_onto-last (suc fuel) n acc small)
      ∙ parse_digit bound 0 (n % 10) acc (omega arith) (omega arith)
      ∙ ap (λ m. parse_digits bound m acc) (omega arith)
  | no large ↦
      ap (parse_digits bound 0) (show_onto-more (suc fuel) n acc (omega arith))
      ∙ parse_digits-show_onto bound fuel (n / 10) ((b'0' + n % 10) ∷ acc) (omega arith)
          (omega (arith, pow-suc 10 (suc fuel)))
      ∙ parse_digit bound (n / 10) (n % 10) acc (omega arith) (omega arith)
      ∙ ap (λ m. parse_digits bound m acc) (omega arith)
]

abbrev pub StartsWithDigit : Text → Type 0
StartsWithDigit [] = ⊥
StartsWithDigit (c ∷ t) = b'0' ≤ c

show_onto-StartsWithDigit :
    (fuel n : ℕ) (acc : Text) → StartsWithDigit acc → StartsWithDigit (show_onto fuel n acc)
unfolding show_onto
show_onto-StartsWithDigit zero n acc h = h
show_onto-StartsWithDigit (suc fuel) n acc h =
    ground (arith, show_onto-StartsWithDigit fuel (n / 10) ((b'0' + n % 10) ∷ acc))

parse_unsigned-digits :
    (bound : ℕ) (t : Text) → StartsWithDigit t → parse_unsigned bound t ≡ parse_digits bound 0 t
unfolding parse_unsigned
parse_unsigned-digits bound [] h = absurd h
parse_unsigned-digits bound (c ∷ []) h = ground arith
parse_unsigned-digits bound (c ∷ d ∷ t) h = ground arith

pub show-StartsWithDigit : (n : ℕ) → StartsWithDigit (show n)
unfolding show
show-StartsWithDigit n = elim (dec_lt n 10) [
  | yes small ↦ rw (show_onto-last 19 n [] small) (omega arith)
  | no large ↦
      rw (show_onto-more 19 n [] (omega arith))
        (show_onto-StartsWithDigit 19 (n / 10) ((b'0' + n % 10) ∷ []) (omega arith))
]

parse_digits-show : (bound n : ℕ) → n < bound → n < 10 ^ 20 → parse_digits bound 0 (show n) ≡ some n
unfolding show parse_digits
parse_digits-show bound n h k = parse_digits-show_onto bound 19 n [] h k

-- A number below the bound, of at most twenty digits, is read back from its decimal form.
pub parse_unsigned-show :
    (bound n : ℕ) → n < bound → n < 10 ^ 20 → parse_unsigned bound (show n) ≡ some n
parse_unsigned-show bound n h k =
    parse_unsigned-digits bound (show n) (show-StartsWithDigit n) ∙ parse_digits-show bound n h k
