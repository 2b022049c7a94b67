-- ===== src/Utf8/Ascii.antt =====
-- A byte below 128 of a text is one of its characters, also where the text is malformed.
use neutun.Base.{
  refl, ap, ◌∙◌, true, ℕ, ◌<◌, ◌≤◌, Text, ◌≡◌, Option, none, some, List, [], ◌∷◌, ◌++◌, map, arith,
  All, subst,
}
use neutun.Utf8.{Decoder, Pending, step, decode_from, or_replacement, chars, all_some, from_utf8}

-- In the middle of a character no byte below 128 is expected.
abbrev IsHigh : Decoder → Type 0
IsHigh none = Unit {0}
IsHigh (some p) = 0x80 ≤ p.low

step-IsHigh : (d : Decoder) (b : ℕ) → IsHigh d → IsHigh (step d b).1
unfolding step
step-IsHigh none b h = ground arith
step-IsHigh (some p) b h = ground arith

step_low_fresh : (b : ℕ) → b < 0x80 → step none b ≡ (some b ∷ [], none)
unfolding step
step_low_fresh b k = ground arith

step_low_pending :
    (p : Pending) (b : ℕ) → 0x80 ≤ p.low → b < 0x80 → step (some p) b ≡ (none ∷ some b ∷ [], none)
unfolding step
step_low_pending p b h k = ground arith

module _ {κ} (P : ℕ → Type κ) where
  abbrev Chars : List (Option ℕ) → Type κ
  Chars cs = All P (map or_replacement cs)

  Chars-append : (xs ys : List (Option ℕ)) → Chars (xs ++ ys) → Chars xs × Chars ys
  Chars-append [] ys h = (tt, h)
  Chars-append (x ∷ xs) ys h = let (p, q) = Chars-append xs ys h.1 in ((h.0, p), q)

  step-ascii : (d : Decoder) (b : ℕ) → IsHigh d → b < 0x80 → Chars (step d b).0 → P b
  step-ascii none b h k c = (subst (λ r. Chars r.0) (step_low_fresh b k) c).0
  step-ascii (some p) b h k c = (subst (λ r. Chars r.0) (step_low_pending p b h k) c).1.0

  decode_from-ascii :
      (d : Decoder) (t : Text) → IsHigh d → Chars (decode_from d t) → All (λ b. b < 0x80 → P b) t
  unfolding decode_from
  decode_from-ascii none [] h c = tt
  decode_from-ascii (some p) [] h c = tt
  decode_from-ascii none (b ∷ t) h c =
      let (p, q) = Chars-append (step none b).0 (decode_from (step none b).1 t) c in
      (λ k. step-ascii none b h k p, decode_from-ascii (step none b).1 t (step-IsHigh none b h) q)
  decode_from-ascii (some d) (b ∷ t) h c =
      let (p, q) = Chars-append (step (some d) b).0 (decode_from (step (some d) b).1 t) c in
      (
        λ k. step-ascii (some d) b h k p,
        decode_from-ascii (step (some d) b).1 t (step-IsHigh (some d) b h) q,
      )

  pub chars-ascii : (t : Text) → All P (chars t) → All (λ b. b < 0x80 → P b) t
  unfolding chars
  chars-ascii t h = decode_from-ascii none t tt h

decode_low : (b : ℕ) (t : Text) → b < 0x80 → decode_from none (b ∷ t) ≡ some b ∷ decode_from none t
unfolding decode_from
decode_low b t h = rw (step_low_fresh b h) refl

all_some-ascii : (t : Text) → All (λ b. b < 0x80) t → all_some (decode_from none t) ≡ true
unfolding decode_from
all_some-ascii [] h = refl
all_some-ascii (b ∷ t) h = ap all_some (decode_low b t h.0) ∙ all_some-ascii t h.1

-- A text of bytes below 128 is UTF-8.
pub from_utf8-ascii : (t : Text) → All (λ b. b < 0x80) t → from_utf8 t ≡ some t
unfolding from_utf8
from_utf8-ascii t h = rw (all_some-ascii t h) refl
