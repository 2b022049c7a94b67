-- ===== src/Remote/Host/Exact.antt =====
-- A host is split exactly where a dot stands before an allowed domain.
use neutun.Base.{
  ℕ, suc, zero, ◌-◌, ◌<◌, Text, ◌≡◌, ◌≢◌, refl, ap, ◌∙◌, true, none, some, List, [], ◌∷◌, ◌++◌,
  length, take, get_or, codes, arith, length-append, take-append, Option-cases, inl, inr,
  Text-discrete,
}
use mathlib.Core.List.{append_assoc}
use mathlib.Core.Path.{ap₂}
use neutun.Str.{ends_with, contains}
use neutun.Str.Affix.{ends_with-true, ends_with-append}
use neutun.Remote.Host.{prefix_of, validate_host_prefix}

-- Cut off the byte at `n`.
take-get_or : (n : ℕ) (t : Text) → n < length t → take (suc n) t ≡ take n t ++ get_or t n 0 ∷ []
take-get_or n [] h = absurd (omega arith)
take-get_or zero (x ∷ t) h = refl
take-get_or (suc n) (x ∷ t) h = ap (◌∷◌ x) (take-get_or n t (omega arith))

get_or-append : (p q : Text) (b : ℕ) → get_or (p ++ b ∷ q) (length p) 0 ≡ b
get_or-append [] q b = refl
get_or-append (x ∷ p) q b = get_or-append p q b

prefix_of-some :
    (host allowed p : Text) → prefix_of host allowed ≡ some p → host ≡ p ++ codes "." ++ allowed
unfolding prefix_of
prefix_of-some host allowed p e =
    let n = length host - length allowed - 1 in
    let suffix : ends_with host allowed ≡ true = ground arith in
    let longer : length allowed < length host = ground arith in
    let dot : get_or host n 0 ≡ b'.' = ground arith in
    let front : take n host ≡ p = ground arith in
    let count : length host - length allowed ≡ suc n = omega arith in
    ends_with-true host allowed suffix
    ∙ ap (λ k. take k host ++ allowed) count
    ∙ ap (λ t. t ++ allowed) (take-get_or n host (omega arith))
    ∙ ap₂ (λ t b. (t ++ b ∷ []) ++ allowed) front dot

prefix_of-append : (p allowed : Text) → prefix_of (p ++ codes "." ++ allowed) allowed ≡ some p
unfolding prefix_of
prefix_of-append p allowed =
    let stem = p ++ codes "." in
    let host = stem ++ allowed in
    let at_dot : length host - length allowed - 1 ≡ length p =
      omega (arith, length-append stem allowed, length-append p (codes ".")) in
    let longer : length allowed < length host =
      omega (arith, length-append stem allowed, length-append p (codes ".")) in
    let suffix : ends_with host allowed ≡ true = ends_with-append stem allowed in
    let host_eq : host ≡ p ++ (b'.' ∷ allowed) = append_assoc p (codes ".") allowed in
    let front : take (length host - length allowed - 1) host ≡ p =
      ap₂ take at_dot host_eq ∙ take-append (length p) p (b'.' ∷ allowed) refl in
    let dot : get_or host (length host - length allowed - 1) 0 ≡ b'.' =
      ap₂ (λ k t. get_or t k 0) at_dot host_eq ∙ get_or-append p allowed b'.' in
    ground arith

-- A host that is split is its sub-domain, a dot and an allowed domain.
pub validate_host_prefix-some :
    (allowed : List Text) (host p d : Text)
    → validate_host_prefix allowed host ≡ some (p, d)
    → (host ≡ p ++ codes "." ++ d) × (contains allowed d ≡ true)
unfolding validate_host_prefix
validate_host_prefix-some [] host p d e = absurd (ground arith)
validate_host_prefix-some (a ∷ rest) host p d e = elim (Option-cases (prefix_of host a)) [
  | inl none_here ↦
      let (f, g) = validate_host_prefix-some rest host p d (ground arith) in (f, ground arith)
  | inr (q, here) ↦ (ground (arith, prefix_of-some host a q here), ground arith)
]

-- A text, a dot and an allowed domain are always split in some way.
pub validate_host_prefix-append :
    (allowed : List Text) (p d : Text)
    → contains allowed d ≡ true
    → validate_host_prefix allowed (p ++ codes "." ++ d) ≢ none
unfolding validate_host_prefix
validate_host_prefix-append [] p d h e = absurd (ground arith)
validate_host_prefix-append (a ∷ rest) p d h e = elim (Text-discrete a d) [
  | yes same ↦ ground (arith, prefix_of-append p d, ap (prefix_of (p ++ codes "." ++ d)) same)
  | no other ↦ validate_host_prefix-append rest p d (ground arith) (ground arith)
]
