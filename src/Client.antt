-- ===== src/Client.antt =====
-- client/src/main.rs, with the accept loops of client/src/ingress_socks5.rs and
-- client/src/ingress_http.rs.
pub mod Started
pub mod Serving
pub mod Channels
use ech_rust.Base.Maps.{get}
use ech_rust.Base.Text.{Text, Bytes}
use ech_rust.Base.{
  ℕ, ◌+◌, Bool, List, [], ◌∷◌, Option, none, some, Result, ok, err, ◌>>=◌, ok_or, map_err,
}
use ech_rust.ChinaIp.Table.{AddrParsers}
use ech_rust.Config.{BackendConfig, EchConfig, Config, ConfigTable, ConfigError, read_config}
use ech_rust.Conn.{Conn}
use ech_rust.Http
use ech_rust.Router.{Names, Router, StartError}
use ech_rust.Router
use ech_rust.Socks.{Socks5Options}
use ech_rust.Socks
use ech_rust.Tls.{Net, World, Failure, Attempt}
use ech_rust.Transport.{connect_channel}
use ech_rust.Users.{AuthStore}

pub data RunError : Type 0 where
  config_unread config_unparsed : RunError
  bad_config : ConfigError → RunError
  start_failed : StartError Failure → RunError
  backend_not_found : Text → RunError
  backend_failed : Failure → RunError
  socks_panicked http_panicked : RunError
  listener_failed no_ctrl_c : Text → RunError
  no_geoip_update no_service : RunError

-- The file system, the parsers of TOML and of addresses, what the channels are made over, and the
-- times at which the i-th channel reads and writes the cache of ECH configurations.
pub record ClientHost (C : Type 0) : Type 0 where
  pub read_to_string : Text → Option Text
  pub parse_toml : Text → Option ConfigTable
  pub parsers : AddrParsers
  pub net : Net C
  pub clock : ℕ → ℕ × ℕ

-- The caches, and the number of channels made so far.
abbrev pub Progress : Type 0
Progress = World × ℕ

abbrev pub at_start : Progress
at_start = (record { ech_cache = []; ssl_cache = []; log = [] }, 0)

-- What the two ingress tasks are started with.
pub record Client (C : Type 0) : Type 0 where
  pub auth : AuthStore
  pub router : Router C
  pub socks_addr : Text
  pub socks_options : Socks5Options
  pub http_addr : Text

-- How an ingress task ends: with what `serve` returns, or by a panic.
pub data TaskEnd : Type 0 where
  returned : Result Text (Unit {0}) → TaskEnd
  panicked : TaskEnd

-- What `select!` sees first.
pub data Ending : Type 0 where
  socks_ended http_ended : TaskEnd → Ending
  interrupted : Result Text (Unit {0}) → Ending

abbrev pub task_result : RunError → TaskEnd → Result RunError (Unit {0})
task_result e panicked = err e
task_result e (returned r) = map_err listener_failed r

unfoldable pub finish : Ending → Result RunError (Unit {0})
finish (socks_ended t) = task_result socks_panicked t
finish (http_ended t) = task_result http_panicked t
finish (interrupted r) = map_err no_ctrl_c r

module _ {C : Type 0} (host : ClientHost C) where
  -- `Config::load`
  unfoldable pub load : Text → Result RunError Config
  load path = do
    raw ← ok_or config_unread (host.read_to_string path)
    table ← ok_or config_unparsed (host.parse_toml raw)
    map_err bad_config (read_config table)

  abbrev pub counted : ℕ → Attempt C → Result Failure (C × Progress)
  counted i (ok (c, w)) = ok (c, (w, i + 1))
  counted i (err e) = err e

  unfoldable pub connect_at : EchConfig → BackendConfig → Progress → Result Failure (C × Progress)
  connect_at ech backend (w, i) =
      counted i (connect_channel host.net backend ech (host.clock i).0 (host.clock i).1 w)

  -- `run`, after the configuration is read, up to where the two tasks are started.
  unfoldable pub start : Config → Result RunError (Client C × Progress)
  start config = do
    ((auth, router), w) ← map_err start_failed (
        Router.start host.parsers (connect_at config.ech)
          (host.read_to_string config.route.china_ipv4_cidrs)
          (host.read_to_string config.route.china_ipv6_cidrs) config.route config.users
          config.backends at_start)
    ok (
      record {
        auth = auth;
        router = router;
        socks_addr = config.listen.socks5;
        socks_options = record {
          allow_no_auth = config.listen.socks5_allow_no_auth;
          default_user = config.listen.socks5_default_user;
        };
        http_addr = config.listen.http;
      },
      w,
    )

  -- `run`, where `ending` is what the tasks of a started client come to.
  unfoldable pub run : (Client C → Ending) → Text → Result RunError (Unit {0})
  run ending path = do config ← load path; (client, w) ← start config; finish (ending client)

  unfoldable pub test_backend : Text → Text → Result RunError (Unit {0})
  test_backend path backend_id = do
    config ← load path
    backend ← ok_or (backend_not_found backend_id) (get backend_id config.backends)
    (channel, w) ← map_err backend_failed (connect_at config.ech backend at_start)
    ok tt

pub data ServiceCommand : Type 0 where
  install : Text → ServiceCommand
  uninstall : ServiceCommand

pub data Command : Type 0 where
  run_client : Text → Command
  check_backend : Text → Text → Command
  update_geoip : Command
  service : ServiceCommand → Command

-- `main`
unfoldable pub main :
    {C : Type 0} → ClientHost C → (Client C → Ending) → Command → Result RunError (Unit {0})
main host ending (run_client config) = run host ending config
main host ending (check_backend config backend) = test_backend host config backend
main host ending update_geoip = err no_geoip_update
main host ending (service command) = err no_service

-- What `accept` gives: a connection, or an error, which ends the task.
pub data Accept : Type 0 where
  accepted : Conn → Accept
  accept_failed : Text → Accept

-- The loop of both `serve` functions: each connection is handled by a task of its own, whose error
-- is only logged. The results of the tasks, and the error where the loop ends.
unfoldable pub accept_loop : {R : Type 0} → (Conn → R) → List Accept → List R × Option Text
accept_loop handle [] = ([], none)
accept_loop handle (accept_failed e ∷ rest) = ([], some e)
accept_loop handle (accepted c ∷ rest) =
    let (results, ended) = accept_loop handle rest in (handle c ∷ results, ended)

-- `bound` is the error of `bind`.
abbrev pub bind_then : {R : Type 0} → Option Text → List R × Option Text → List R × Option Text
bind_then (some e) r = ([], some e)
bind_then none r = r

-- What the connections of a client meet: which of their writes fail, the outcome of a direct
-- connection, the resolver, and the base64 decoder.
pub record Surroundings : Type 0 where
  pub gone : Conn → ℕ → Bool
  pub connect_direct : Text → ℕ → Option Text
  pub names : Names
  pub base64 : Text → Option Bytes

module _ {C : Type 0} (s : Surroundings) (client : Client C) where
  abbrev pub socks_task : Conn → Result Socks.Stop (Socks.Relay C × Conn)
  socks_task c =
      Socks.handle (s.gone c) s.connect_direct client.socks_options client.auth s.names
        client.router c

  abbrev pub http_task : Conn → Result Http.Stop (Http.Relay C × Conn)
  http_task c = Http.handle (s.gone c) s.base64 client.auth s.connect_direct s.names client.router c

  -- `ingress_socks5::serve`
  unfoldable pub serve_socks :
      Option Text → List Accept → List (Result Socks.Stop (Socks.Relay C × Conn)) × Option Text
  serve_socks bound accepts = bind_then bound (accept_loop socks_task accepts)

  -- `ingress_http::serve`
  unfoldable pub serve_http :
      Option Text → List Accept → List (Result Http.Stop (Http.Relay C × Conn)) × Option Text
  serve_http bound accepts = bind_then bound (accept_loop http_task accepts)
