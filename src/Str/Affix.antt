-- ===== src/Str/Affix.antt =====
-- Suffixes of texts.
use neutun.Base.{
  ◌-◌, ◌≡◌, Text, true, ◌++◌, length, take, arith, length-append, take-append-drop, drop-append,
}
use neutun.Str.{ends_with}

-- `ends_with` finds the text before the suffix.
pub ends_with-true :
    (t suffix : Text) → ends_with t suffix ≡ true → t ≡ take (length t - length suffix) t ++ suffix
unfolding ends_with
ends_with-true t suffix e = ground (arith, take-append-drop (length t - length suffix) t)

pub ends_with-append : (p suffix : Text) → ends_with (p ++ suffix) suffix ≡ true
unfolding ends_with
ends_with-append p suffix =
    ground
      (arith, length-append p suffix, drop-append (length (p ++ suffix) - length suffix) p suffix)
