-- ===== src/Client/Daemon/Spawn.antt =====
-- `spawn_detached` of neutun/src/daemon.rs on Windows: the command for PowerShell, and the process
-- id that it prints.
use neutun.Base.{
  ℕ, Text, ◌==◌, eqb, if◌then◌else◌, ◌≡◌, refl, ap, ◌∙◌, Bool, false, ◌||◌, Option, none, some,
  codes, List, [], ◌∷◌, ◌++◌, map, arith, All,
}
use mathlib.Core.List.{append-nil}
use neutun.Utf8.{from_utf8_lossy}
use neutun.Str.{split, trim}
use neutun.Str.Numbers.{parse_u32}
use neutun.Client.Wormhole.{join}

unfoldable pub has_space : Text → Bool
has_space [] = false
has_space (c ∷ t) = eqb c b' ' || has_space t

unfoldable pub quoted : Text → Text
quoted a = if has_space a then codes "\"" ++ (a ++ codes "\"") else a

unfoldable pub args_str : List Text → Text
args_str args = join (codes " ") (map quoted args)

unfoldable pub ps_command : Text → List Text → Text
unfolding args_str
ps_command exe args =
    if args_str args == []
    then codes "$p = Start-Process -FilePath '"
      ++ (exe ++ codes "' -WindowStyle Hidden -PassThru; $p.Id")
    else codes "$p = Start-Process -FilePath '"
      ++ (exe
          ++ (codes "' -ArgumentList '"
              ++ (args_str args ++ codes "' -WindowStyle Hidden -PassThru; $p.Id")))

-- Nothing if PowerShell does not run or does not print a number.
unfoldable pub spawned_pid : Option Text → Option ℕ
spawned_pid none = none
spawned_pid (some stdout) = parse_u32 (trim (from_utf8_lossy stdout))

split-plain : (a : Text) → has_space a ≡ false → split b' ' a ≡ a ∷ []
unfolding has_space split
split-plain [] h = refl
split-plain (c ∷ a) h = ground (arith, split-plain a)

split-append :
    (a rest : Text) → has_space a ≡ false → split b' ' (a ++ b' ' ∷ rest) ≡ a ∷ split b' ' rest
unfolding has_space split
split-append [] rest h = ground arith
split-append (c ∷ a) rest h = ground (arith, split-append a rest)

quoted-plain : (a : Text) → has_space a ≡ false → quoted a ≡ a
unfolding quoted
quoted-plain a h = ground arith

-- Arguments without spaces are read back from the command by splitting it at the spaces.
pub split-args_str :
    (a : Text) (args : List Text)
    → All (λ t. has_space t ≡ false) (a ∷ args)
    → split b' ' (args_str (a ∷ args)) ≡ a ∷ args
unfolding args_str join
split-args_str a [] (h, _) =
    ap (split b' ') (append-nil (quoted a) ∙ quoted-plain a h) ∙ split-plain a h
split-args_str a (b ∷ args) (h, rest) =
    ap (λ t. split b' ' (t ++ b' ' ∷ args_str (b ∷ args))) (quoted-plain a h)
    ∙ split-append a (args_str (b ∷ args)) h
    ∙ ap (λ ts. a ∷ ts) (split-args_str b args rest)
