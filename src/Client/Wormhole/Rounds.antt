-- ===== src/Client/Wormhole/Rounds.antt =====
-- When the client gives up.
use neutun.Base.{ok, err}
use neutun.Client.Config.{Config, Error, web_socket_error, no_response_from_server, timeout}
use neutun.Client.Session.{Outcome, returned, restarted, panicked}

-- The errors after which the connection is tried again.
abbrev pub IsTransientError : Error → Type 0
IsTransientError web_socket_error = Unit
IsTransientError no_response_from_server = Unit
IsTransientError timeout = Unit
IsTransientError _ = ⊥

abbrev pub IsTransient : Outcome → Type 0
IsTransient (returned (ok _)) = Unit
IsTransient (returned (err e)) = IsTransientError e
IsTransient (restarted _) = Unit
IsTransient panicked = ⊥
