-- ===== src/Tests/Servers.antt =====
-- A server with a file, whose environment sets its tokens, and one call.
use ech_rust.Base.Net.{v4}
use ech_rust.Base.Text.{codes, split, trim, strip_prefix}
use ech_rust.Base.{◌≡◌, refl, true, List, [], ◌∷◌, none, some, ok, inr}
use ech_rust.Policy.{from_config}
use ech_rust.Proto.{open_target}
use ech_rust.Server.Calls.{IsServed, tunnel-IsServed}
use ech_rust.Server.{Host, Started, ConfigTable, read_config, load, start_with, start, tunnel}
use ech_rust.Service.{Event, frame, Effect, handle_tunnel}
use ech_rust.Tests.Targets.{env, policy, request, frames, reported}
use ech_rust.Tokens.{Config, credentials, apply_env, new, authenticate}

abbrev table : ConfigTable
table = record {
  listen = codes "0.0.0.0:50051";
  cert = none;
  key = none;
  tokens = none;
  policy = record {
    connect_timeout_ms = none;
    idle_timeout_secs = none;
    max_concurrent_streams = none;
    deny_private_ip = none;
    allowed_ports = some (80 ∷ 443 ∷ []);
  };
}

abbrev pub host : Host
host = record {
  read_to_string = λ path. some [];
  parse_toml = λ raw. some table;
  read = λ path. none;
  parse_addr = λ text. some (record { ip = v4 0; port = 50051 });
  takes_identity = λ cert key. true;
}

abbrev pub config : Config
config = record {
  listen = codes "0.0.0.0:50051";
  cert = none;
  key = none;
  tokens = codes "alpha" ∷ codes "beta" ∷ [];
  policy = record {
    connect_timeout_ms = 8000;
    idle_timeout_secs = 300;
    max_concurrent_streams = 4096;
    deny_private_ip = true;
    allowed_ports = 80 ∷ 443 ∷ [];
  };
}

abbrev pub started : Started
started = record {
  listen = record { ip = v4 0; port = 50051 };
  service = record {
    auth = record { tokens = codes "alpha" ∷ codes "beta" ∷ [] };
    policy = policy;
    idle_timeout = 300;
  };
  concurrency_limit = 4096;
  identity = none;
}

abbrev events : List Event
events = frame (some (open_target request)) ∷ frames

abbrev log : List Effect
log = handle_tunnel env started.service.policy events

-- What a run of the start computes with.
starting : Unit {0}
unfolding start load read_config apply_env split trim start_with new from_config
starting = tt

loaded : load host (some (codes "server.toml")) none (some (codes "alpha, beta")) ≡ ok config
unfolding starting
loaded = refl

begun : start host (some (codes "server.toml")) none (some (codes "alpha, beta")) ≡ ok started
unfolding starting
begun = refl

called : tunnel env started.service (credentials (codes "Bearer beta")) events ≡ ok log
unfolding tunnel authenticate trim strip_prefix
called = refl

tunnel-IsServed_example : IsServed env config (credentials (codes "Bearer beta")) events
tunnel-IsServed_example =
    tunnel-IsServed host (some (codes "server.toml")) none (some (codes "alpha, beta")) config
      started env (credentials (codes "Bearer beta")) events log loaded begun called (inr reported)
