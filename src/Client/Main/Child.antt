-- ===== src/Client/Main/Child.antt =====
-- The daemon that a run with `--daemon` starts.
use neutun.Base.{ℕ, Text, false, List}
use neutun.Client.Main.{Surroundings, Cli}

module _ (e : Surroundings) (parse : List Text → Cli) (port : ℕ) where
  -- The command line of this run, by the parser of the options.
  abbrev cli : Cli
  cli = parse e.args

  abbrev child_cli : Cli
  child_cli = record cli { daemon = false }
