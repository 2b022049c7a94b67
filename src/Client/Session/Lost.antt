-- ===== src/Client/Session/Lost.antt =====
-- A local service that stops reading.
use neutun.Table
use neutun.Client.Tunnel.{Client}
