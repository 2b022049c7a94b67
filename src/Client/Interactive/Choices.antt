-- ===== src/Client/Interactive/Choices.antt =====
-- The interactive mode neither panics on readable lines nor gives a choice that is not offered.
use neutun.Base.{
  ℕ, ◌<◌, Text, ◌≡◌, ◌≢◌, refl, Option, none, some, List, [], ◌∷◌, arith, Option-cases, inl, inr,
}
use neutun.Table
use neutun.Utf8.{chars, from_utf8}
use neutun.Str.{Unicode, to_uppercase, trim}
use neutun.Client.Saved.{SavedJson}
use neutun.Client.Interactive.{Stdin, choice_of, read_line, get_choice}

choice_of-offered :
    (cs : List ℕ) (input : Text) (options : ℕ) → 0 < options → choice_of cs input options < options
unfolding choice_of
choice_of-offered [] input options h = h
choice_of-offered (c ∷ cs) input options h = ground arith

-- Every line can be read, and is UTF-8.
abbrev pub IsReadable : Stdin → Type 0
IsReadable [] = Unit
IsReadable (none ∷ rest) = ⊥
IsReadable (some bytes ∷ rest) = (from_utf8 bytes ≢ none) × IsReadable rest

-- An answer is there, and the lines after it can be read.
abbrev Goes : {A : Type 0} → Option (A × Stdin) → Type 0
Goes {A} r = (a : A) × (rest : Stdin) × (r ≡ some (a, rest)) × IsReadable rest

read_line-Goes : (stdin : Stdin) → IsReadable stdin → Goes (read_line stdin)
unfolding read_line
read_line-Goes [] h = ([], [], refl, tt)
read_line-Goes (none ∷ rest) h = absurd h
read_line-Goes (some bytes ∷ rest) (n, h) = elim (Option-cases (from_utf8 bytes)) [
  | inl e ↦ absurd (n e)
  | inr (line, e) ↦ (trim line, rest, rw e refl, h)
]

module _ (u : Unicode) (j : SavedJson) where
  -- A choice is always one of the options, whatever is typed.
  pub get_choice-offered :
      (options : ℕ) (stdin : Stdin)
      → IsReadable stdin
      → 0 < options
      → (n : ℕ) × (rest : Stdin) × (get_choice u j options stdin ≡ some (n, rest))
        × IsReadable rest
        × (n < options)
  unfolding get_choice
  get_choice-offered options stdin h pos =
      let (line, rest, e, h') = read_line-Goes stdin h in
      let input = to_uppercase u line in
      (
        choice_of (chars input) input options,
        rest,
        rw e refl,
        h',
        choice_of-offered (chars input) input options pos,
      )
