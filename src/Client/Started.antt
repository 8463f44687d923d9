-- ===== src/Client/Started.antt =====
-- What `start` made its client of.
use ech_rust.Base.{◌≡◌, ap, ◌∙◌, ok, err, >>=-eq-ok, map_err}
use ech_rust.Client.{ClientHost, Client, Progress, at_start, start_failed, connect_at, start}
use ech_rust.Config.{Config}
use ech_rust.Router.Started.{map_err-eq-ok}
use ech_rust.Router

pub start-routed :
    {C : Type 0} (host : ClientHost C) (config : Config) (client : Client C) (p : Progress)
    → start host config ≡ ok (client, p)
    → Router.start host.parsers
        (connect_at host config.ech)
        (host.read_to_string config.route.china_ipv4_cidrs)
        (host.read_to_string config.route.china_ipv6_cidrs)
        config.route
        config.users
        config.backends
        at_start
      ≡ ok ((client.auth, client.router), p)
unfolding start
start-routed host config client p begun =
    let (((auth, router), w), q, e1) =
      >>=-eq-ok
        (map_err start_failed (
          Router.start host.parsers (connect_at host config.ech)
            (host.read_to_string config.route.china_ipv4_cidrs)
            (host.read_to_string config.route.china_ipv6_cidrs) config.route config.users
            config.backends at_start))
        _ begun in
    map_err-eq-ok start_failed _ q
    ∙ ap (elim [ ok r ↦ ok ((r.0.auth, r.0.router), r.1) | err _ ↦ ok ((auth, router), w) ]) e1
