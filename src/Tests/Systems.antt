-- ===== src/Tests/Systems.antt =====
-- A client and a server that have started, and one connection through both.
use ech_rust.Base.Text.{codes, split, trim, strip_prefix}
use ech_rust.Base.Utf8.{from_utf8}
use ech_rust.Base.{ℕ, ◌≡◌, refl, true, List, [], ◌∷◌, none, some, ok, inl, inr}
use ech_rust.Client.{socks_task}
use ech_rust.Conn.{Conn}
use ech_rust.Policy.{from_config}
use ech_rust.Pool.{BackendPool, pick}
use ech_rust.Router.{decide}
use ech_rust.Server.{Started, read_config, load, start_with, start, tunnel}
use ech_rust.Service.{Effect, frame, handle_tunnel}
use ech_rust.Socks.{relay_grpc, session, connect_target, handle}
use ech_rust.System.{IsOwner, IsPermitted, tunnel-IsPermitted}
use ech_rust.Tests.Channels
use ech_rust.Tests.Ingress
use ech_rust.Tests.Runs.{around, begun, config, host, ready, started_client}
use ech_rust.Tests.Servers
use ech_rust.Tests.Tables.{laws}
use ech_rust.Tests.Targets.{env, frames, bare_reported}
use ech_rust.Tokens.{Config, apply_env, new, authenticate, credentials}
use ech_rust.Tunnel.{Call, open_frame, start_call}
use ech_rust.Users

abbrev pool : BackendPool ℕ
pool = record {
  backend = record Channels.backend { pool_size = 1 };
  channels = 7 ∷ [];
  next = 0;
  stream_permits = 128;
}

abbrev after : Conn
after = record {
  input = codes "GET";
  output = (5 ∷ 2 ∷ []) ∷ (1 ∷ 0 ∷ []) ∷ (5 ∷ 0 ∷ 0 ∷ 1 ∷ 0 ∷ 0 ∷ 0 ∷ 0 ∷ 0 ∷ 0 ∷ []) ∷ [];
}

relayed :
    socks_task around started_client Ingress.client
    ≡ ok (relay_grpc pool (codes "example.org") 443, after)
unfolding handle session connect_target decide Users.authenticate from_utf8
relayed = refl

abbrev call : Call ℕ
call = record {
  channel = some 7;
  authorization = codes "Bearer abc";
  opening = open_frame (codes "example.org") 443 [];
}

called :
    start_call (λ t. true) pool (codes "example.org") 443 [] ≡ (ok call, record pool { next = 1 })
unfolding start_call pick
called = refl

abbrev server_config : Config
server_config = record Servers.config { tokens = codes "abc" ∷ [] }

abbrev server : Started
server = record Servers.started {
  service = record Servers.started.service { auth = record { tokens = codes "abc" ∷ [] } };
}

-- What a run of the server's start computes with.
starting : Unit {0}
unfolding start load read_config apply_env split trim start_with new from_config
starting = tt

loaded : load Servers.host (some (codes "server.toml")) none (some (codes "abc")) ≡ ok server_config
unfolding starting
loaded = refl

server_begun : start Servers.host (some (codes "server.toml")) none (some (codes "abc")) ≡ ok server
unfolding starting
server_begun = refl

abbrev log : List Effect
log = handle_tunnel env server.service.policy (frame (some call.opening) ∷ frames)

answered :
    tunnel env server.service (credentials call.authorization) (frame (some call.opening) ∷ frames)
    ≡ ok log
unfolding tunnel authenticate trim strip_prefix
answered = refl

tunnel-IsPermitted_example :
    IsOwner host laws config started_client ready around Ingress.client after pool
      (codes "example.org")
      443
      []
    × IsPermitted server_config env pool (codes "example.org") 443 []
tunnel-IsPermitted_example =
    tunnel-IsPermitted host laws config started_client ready around Ingress.client after pool
      (record pool { next = 1 }) (codes "example.org") 443 [] (λ t. true) call Servers.host
      (some (codes "server.toml")) none (some (codes "abc")) server_config server env frames log
      begun (inl (refl, relayed)) called loaded server_begun answered (inr bare_reported)
