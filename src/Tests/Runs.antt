-- ===== src/Tests/Runs.antt =====
-- A client that starts with one backend, over Encrypted Client Hello, and the runs of its parts.
use ech_rust.Base.Text.{codes, same, split}
use ech_rust.Base.Utf8.{as_bytes}
use ech_rust.Base.{
  ℕ, ◌+◌, ◌*◌, ◌%◌, ◌^◌, max, ◌<◌, ◌≡◌, ◌↔◌, refl, true, false, List, [], ◌∷◌, none, some, Result,
  ok, err, All, arith, length, get_elem?, if◌then◌else◌,
}
use ech_rust.Client.Channels.{start-IsAccepted}
use ech_rust.Client.Serving.{Answered, SocksServed, HttpServed, start-IsServed}
use ech_rust.Client.{
  ClientHost, Client, Progress, RunError, start, connect_at, Accept, accepted, accept_failed,
  Surroundings, serve_socks, serve_http, RunError,
}
use ech_rust.Config.{Config}
use ech_rust.EchCache.Runs.{lookup, store, answers, expected, answers-expected, IsTimed, Call}
use ech_rust.Pool.{acquire_stream_permit, connect, connect_pools, connect_pool, pick}
use ech_rust.Dns.{build_https_query, push_labels, trim_end_matches}
use ech_rust.Users.{from_config, validate_users_backends}
use ech_rust.Router.{Router}
use ech_rust.Router
use ech_rust.Socks.Typed.Requests.{RelayTyped, handle-Typed}
use ech_rust.Socks.Typed.{Typed, octets}
use ech_rust.Socks.{handle}
use ech_rust.Tests.Channels.{net, fresh}
use ech_rust.EchCache.{get_cached_ech_config, put_cached_ech_config}
use ech_rust.EchConnector.{
  build_ssl_connector, load_native_roots, add_roots, cached_ssl_connector, new,
}
use ech_rust.EchConnector
use ech_rust.Tests.Channels
use ech_rust.Tests.Clients.{
  users, auth_store, names, pool, router, connect_channel, pool_connected, route,
}
use ech_rust.Tests.Clients
use ech_rust.Tests.Ingress.{never, options}
use ech_rust.Tests.Ingress
use ech_rust.Tests.Tables.{parsers, laws, file4, file6, table, loads}
use ech_rust.Tests.Messages.{parsed}
use ech_rust.Tls.{backend_tls_name}
use ech_rust.Transport.Accepted.{IsAccepted}
use ech_rust.Transport
use ech_rust.Tunnel.Limiter.{Limiter, idle, enters, starts, Reach, here, next}
use ech_rust.Tunnel.Limiter.Permits.{Reach-stream_permits}
use ech_rust.Tunnel.{start_call}
use ech_rust.Tunnel

abbrev calls : List Call
calls =
    store (codes "a") (1 ∷ []) 5 100
    ∷ lookup (codes "a") 129
    ∷ lookup (codes "a") 130
    ∷ lookup (codes "b") 131
    ∷ []

calls-IsTimed : IsTimed 0 calls
unfolding IsTimed
calls-IsTimed = (omega arith, (omega arith, (omega arith, (omega arith, tt))))

answers-expected_example : answers calls [] ≡ expected calls (λ key. none)
answers-expected_example = answers-expected calls calls-IsTimed

-- The client of the SOCKS5 proxy sends octets, and this is what is relayed.
handle-Typed_example :
    Typed RelayTyped
      (handle never (λ host port. none) options auth_store names router Ingress.client)
handle-Typed_example =
    handle-Typed never (λ host port. none) options auth_store names (λ ip. tt) router Ingress.client
      (octets Ingress.client.input refl, tt)

-- Two streams get their permits, and the first of them a channel.
abbrev entered : Limiter ℕ
entered = record { pool = record pool { stream_permits = 254 }; entered = 2; calls = [] }

abbrev call : Tunnel.Call ℕ
call = record {
  channel = some 0;
  authorization = codes "Bearer abc";
  opening = Tunnel.open_frame (codes "example.org") 443 [];
}

abbrev running : Limiter ℕ
running = record {
  pool = record pool { stream_permits = 254; next = 1 };
  entered = 1;
  calls = call ∷ [];
}

runs : Reach (λ t. true) (idle pool) running
unfolding acquire_stream_permit start_call pick
runs =
    next
      (next (next here (enters (record pool { stream_permits = 255 }) refl refl))
        (enters (record pool { stream_permits = 254 }) refl refl))
      (starts 1 (codes "example.org") 443 [] call (record pool { stream_permits = 254; next = 1 })
        refl refl refl)

Reach-stream_permits_example :
    let total =
      max Clients.backend.pool_size 1 * max Clients.backend.max_streams_per_channel 1 % 2 ^ 64 in
    (running.pool.stream_permits + (running.entered + length running.calls) ≡ total)
    × ((acquire_stream_permit running.pool ≡ none)
        ↔ (running.entered + length running.calls ≡ total))
    × All
        (λ c. (i : ℕ) × (i < length pool.channels) × (c.channel ≡ get_elem? pool.channels i))
        running.calls
Reach-stream_permits_example =
    Reach-stream_permits connect_channel (λ t. true) Clients.backend 0 2 pool running pool_connected
      runs

abbrev pub config : Config
config = record {
  listen = record {
    socks5 = codes "127.0.0.1:1080";
    http = codes "127.0.0.1:8080";
    socks5_allow_no_auth = false;
    socks5_default_user = none;
  };
  users = users;
  backends = (codes "tokyo", record Channels.backend { pool_size = 1 }) ∷ [];
  ech = record { bootstrap_doh = codes "https://doh"; policy = codes "strict" };
  route = route;
}

abbrev pub host : ClientHost ℕ
host = record {
  read_to_string = λ path. if same path (codes "chn_ip.txt") then file4 else file6;
  parse_toml = λ t. none;
  parsers = parsers;
  net = net;
  clock = λ i. (100, 101);
}

abbrev progress_of : Result RunError (Client ℕ × Progress) → Progress
progress_of (ok r) = r.1
progress_of (err e) = (fresh, 0)

abbrev pub ready : Progress
ready = progress_of (start host config)

abbrev pub started_client : Client ℕ
started_client = record {
  auth = auth_store;
  router = record {
    route = route;
    china_ip = table;
    pools =
        (
          codes "tokyo",
          record {
            backend = record Channels.backend { pool_size = 1 };
            channels = 7 ∷ [];
            next = 0;
            stream_permits = 128;
          },
        )
        ∷ [];
  };
  socks_addr = codes "127.0.0.1:1080";
  socks_options = options;
  http_addr = codes "127.0.0.1:8080";
}

pub begun : start host config ≡ ok (started_client, ready)
unfolding start connect_at backend_tls_name get_cached_ech_config Router.start connect connect_pools
    connect_pool from_config validate_users_backends Transport.connect_channel
    Transport.bootstrap_ech_config Transport.fetch_ech_config Transport.connect_ech_channel
    put_cached_ech_config new EchConnector.connect cached_ssl_connector build_ssl_connector
    load_native_roots add_roots build_https_query as_bytes push_labels split trim_end_matches
begun = rw (loads, parsed) refl

start-IsAccepted_example : All (IsAccepted net (record Channels.backend { pool_size = 1 })) (7 ∷ [])
start-IsAccepted_example =
    start-IsAccepted host config started_client ready (codes "tokyo")
      (record {
        backend = record Channels.backend { pool_size = 1 };
        channels = 7 ∷ [];
        next = 0;
        stream_permits = 128;
      })
      begun refl refl refl

abbrev pub around : Surroundings
around = record {
  gone = λ c n. false;
  connect_direct = λ h port. none;
  names = names;
  base64 = λ t. none;
}

-- One client is served, and the listener then fails.
abbrev accepts : List Accept
accepts = accepted Ingress.client ∷ accept_failed (codes "too many open files") ∷ []

start-IsServed_example :
    Answered
      (SocksServed host config started_client around)
      none
      accepts
      (serve_socks around started_client none accepts).0
    × Answered
        (HttpServed host config started_client around)
        none
        accepts
        (serve_http around started_client none accepts).0
start-IsServed_example =
    start-IsServed host laws config started_client ready around none accepts begun
