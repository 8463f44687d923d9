-- ===== src/Client/Channels.antt =====
-- What the channels of a started client stand on.
use ech_rust.Base.Maps.{get, All-get}
use ech_rust.Base.Text.{Text, codes}
use ech_rust.Base.{ℕ, ◌≡◌, true, some, ok, err, All, All-map, Holds, Holds-ok}
use ech_rust.Client.{ClientHost, Client, Progress, at_start, counted, connect_at, start}
use ech_rust.Client.Started.{start-routed}
use ech_rust.Config.{BackendConfig, Config, EchConfig, effective_ech_policy}
use ech_rust.EchConnector.Verified.{IsKeyed}
use ech_rust.Pool.Channels.{Serves, connect-Serves}
use ech_rust.Pool.{BackendPool}
use ech_rust.Router.Started.{start-connect}
use ech_rust.Tls.{Attempt}
use ech_rust.Transport.Accepted.{IsAccepted}
use ech_rust.Transport.Keyed.{IsHidden, connect_channel-IsHidden, connect_channel-Keys}
use ech_rust.Transport.{connect_channel}

module _ {C : Type 0} (host : ClientHost C) where
  counted-Holds :
      (P : C → Type 0) (i : ℕ) (r : Attempt C)
      → Holds (λ made. P made.0) r
      → Holds (λ made. IsKeyed host.net.boring made.1.ssl_cache) r
      → Holds (λ made. P made.0 × IsKeyed host.net.boring made.1.0.ssl_cache) (counted host i r)
  counted-Holds P i (ok (c, w)) h k = (h, k)
  counted-Holds P i (err e) h k = tt

  connect_at-IsHidden :
      (ech : EchConfig) (backend : BackendConfig) (p : Progress)
      → IsKeyed host.net.boring p.0.ssl_cache
      → Holds
          (λ made.
            IsHidden host.net ech backend made.0 × IsKeyed host.net.boring made.1.0.ssl_cache)
          (connect_at host ech backend p)
  unfolding connect_at
  connect_at-IsHidden ech backend (w, i) keyed =
      counted-Holds (IsHidden host.net ech backend) i
        (connect_channel host.net backend ech (host.clock i).0 (host.clock i).1 w)
        (connect_channel-IsHidden host.net backend ech (host.clock i).0 (host.clock i).1 w keyed)
        (connect_channel-Keys host.net backend ech (host.clock i).0 (host.clock i).1 w keyed)

-- Every channel that a started client holds for a backend with ECH and the policy `strict` stands on a
-- handshake for the backend's name that was accepted with ECH and HTTP/2, by a connector that verifies
-- its peer, whichever backends and channels were connected before it.
pub start-IsAccepted :
    {C : Type 0} (host : ClientHost C) (config : Config) (client : Client C) (p : Progress)
    (id : Text) (pool : BackendPool C)
    → start host config ≡ ok (client, p)
    → get id client.router.pools ≡ some pool
    → pool.backend.ech ≡ true
    → effective_ech_policy pool.backend config.ech ≡ codes "strict"
    → All (IsAccepted host.net pool.backend) pool.channels
start-IsAccepted host config client p id pool started pooled on strict =
    let connected =
      start-connect host.parsers (connect_at host config.ech) _ _ config.route config.users
        config.backends client.auth client.router at_start p
        (start-routed host config client p started) in
    let made =
      Holds-ok _ _ (client.router.pools, p)
        (connect-Serves (connect_at host config.ech) (λ q. IsKeyed host.net.boring q.0.ssl_cache)
          (IsHidden host.net config.ech) (connect_at-IsHidden host config.ech) config.backends
          at_start tt)
        connected in
    let hidden =
      All-get (Serves (IsHidden host.net config.ech)) client.router.pools id pool made.0 pooled in
    All-map (λ c h. h on strict) pool.channels hidden
