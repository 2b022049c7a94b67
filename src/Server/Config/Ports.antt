-- ===== src/Server/Config/Ports.antt =====
-- The ports of the configuration.
use neutun.Base.{ℕ, ◌<◌, ◌≡◌, Text, Option, some, ok, arith}
use neutun.Str.Numbers.{show, parse_unsigned-show}
use neutun.Server.Config.{get_port}

-- A variable that holds a number below 65536 in decimal is that port, whatever the default.
pub get_port-show :
    (env : Text → Option Text) (var : Text) (default port : ℕ)
    → env var ≡ some (show port)
    → port < 65536
    → get_port env var default ≡ ok port
unfolding get_port
get_port-show env var default port e h =
    ground (arith, parse_unsigned-show 65536 port h (omega arith))
