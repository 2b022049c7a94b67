-- ===== src/Lib.antt =====
-- Verification library of neutun, a tunnel for HTTP: clients open a websocket to the control server
-- and are given a host name; end users who ask for that host reach the client's local service.
--
-- Parts, and the files that model them (paths from the repository's root):
-- - neutun_lib/src/lib.rs, the packets and the hello messages: Protocol, Protocol/Wire and
--   Protocol/Hello. A packet is written and read by `serialize` and `deserialize`.
-- - neutun_server/src/connected_clients.rs and active_stream.rs, the tables of clients and streams:
--   Server and Server/Connections, over association lists (Table) and channels (Channel). The
--   global CONNECTIONS and ACTIVE_STREAMS and all channels are one record, `Server`, that every
--   operation takes and returns.
-- - neutun_server/src/config.rs: Server/Config.
-- - neutun_server/src/auth: Auth/Key (`SigKey`), Auth/Token (reconnect tokens), Auth/Service
--   (`SimpleAuthService`), Auth/SubDomain (`sanitize_sub_domain_and_pre_validate`) and
--   Auth/Handshake (`auth_client`, `handle_reconnect_token`).
-- - neutun_server/src/network: Network. The lookup among instances is disabled in the code, and so
--   it is here.
-- - neutun_server/src/control_server.rs: Control/Address (`client_ip`, the lists of domains),
--   Control/Open (`handle_new_connection`), Control/Client (`process_client_messages`),
--   Control/Ping (the ping loop, `send_client_stream_init`) and Control/Sink (`tunnel_client`).
-- - neutun_server/src/remote.rs: Remote/Host (`validate_host_prefix`), Remote/Peek
--   (`peek_http_request_host`), Remote/Accept (the routing in `accept_connection`), Remote/Connect
--   (all of `accept_connection`, `direct_to_control`, and network/proxy.rs) and Remote/Stream
--   (`process_tcp_stream`, `neutun_stream`).
-- - The server's tasks together: System, a step relation with one constructor for a turn of each.
--   System/Exchange runs the tasks of both programs for one request and its response, System/Mixed
--   those of many streams at the same time, in any order of their turns.
-- - neutun/src/main.rs and local.rs, the client's side of a tunnel: Client/Tunnel
--   (`process_control_flow_message`, `setup_new_stream`, the two tasks of a local stream) and
--   Client/Session (the hellos, the reading loop of `run_wormhole`, the retries of `run_tunnel`).
--   Client/Wormhole is the rest of `connect_to_wormhole` and `run_wormhole`, with the writing task,
--   and the rounds of `run_tunnel`. Client/System is the step relation of the client's tasks.
--   Client/Main is `main` with its subcommands.
-- - neutun/src/config.rs: Client/Config and Client/Options (`from_opts_and_session`).
-- - neutun/src/saved_config.rs and daemon.rs: Client/Saved, the files under the settings directory,
--   and Client/Daemon (Client/Daemon/Spawn for Windows). Client/Settings is `handle_config_action` of
--   main.rs.
-- - neutun/src/introspect: Client/Introspect, the requests that are kept, listed and replayed.
--   neutun/src/cli_ui.rs and update.rs: Client/Ui and Client/Update.
-- - neutun/src/interactive.rs: Client/Interactive (`run_interactive`, `run_onboarding`).
-- Utf8, Str and Base model what the code uses of the language's library. Examples holds tests.
--
-- A Rust `String`, a `Vec<u8>` or a slice is the list of its bytes. A task's loop is a function for
-- one turn, which yields the new state and whether the loop goes on; what a socket yields, whether
-- it takes what is written, random numbers and the clock are arguments. An early return is an
-- `err` or a `stops`. The place of a channel in the store stands for its sender; clones of a sender
-- are equal places. One turn is atomic: the code's own suspension points inside a turn, such as
-- those of the handshake, are not modelled.
--
-- Fuel: `show` writes at most twenty digits, enough for 64 bits; `write_all`, `tunnel_client_all`,
-- `forward_all` and `write_packets` take a number of turns, and the theorems about them say how
-- many are enough. All other recursion is structural.
--
-- Parameters: base64, hex, hmac and sha256 (`Codecs`), serde_json on tokens (`TokenJson`), hellos,
-- saved files (`SavedJson`) and bodies, the resolver of addresses, the test whether a process is
-- alive, httparse (`HttpParse`), semver, the parser of addresses, the answers to HTTP requests that
-- the client makes, and the tables of Unicode beyond ASCII.
--
-- Not modelled: the bytes that are copied between two sockets once they are joined, the routes of
-- the server's web server, the start-up and logging of the server (pure input and output), the
-- parser of arguments (clap), the pages' templates, and the colours and layout of what is printed.
pub mod Base
pub mod Table
pub mod Codecs
pub mod Utf8
pub mod Str
pub mod Protocol
pub mod Channel
pub mod Auth
pub mod Server
pub mod Network
pub mod Control
pub mod Remote
pub mod System
pub mod Client
pub mod Examples
