-- ===== src/Client/Serving.antt =====
-- What the connections of a started client are relayed to.
use ech_rust.Base.Maps.{get}
use ech_rust.Base.Net.{IpAddr}
use ech_rust.Base.Text.{Text, Bytes}
use ech_rust.Base.{
  ℕ, ◌≡◌, refl, sym, ◌∙◌, inl, inr, Bool, List, [], ◌∷◌, ◌++◌, Option, none, some, Result, ok, err,
  any,
}
use ech_rust.ChinaIp.Table.Load.{file_lines}
use ech_rust.ChinaIp.Table.Rows.{AddrLaws, line_holds}
use ech_rust.Client.{
  ClientHost, Client, Progress, at_start, connect_at, start, Accept, accepted, accept_failed,
  accept_loop, bind_then, Surroundings, socks_task, http_task, serve_socks, serve_http,
}
use ech_rust.Client.Started.{start-routed}
use ech_rust.Config.{Config}
use ech_rust.Conn.{Conn}
use ech_rust.Http.Login.{handle-Admitted}
use ech_rust.Http.Login
use ech_rust.Http.Request.{RequestParts, parse_request}
use ech_rust.Http.Request
use ech_rust.Http
use ech_rust.Pool.{BackendPool}
use ech_rust.Router.Decisions.{direct_target, decision}
use ech_rust.Router.Started.{start-decide, start-from_config}
use ech_rust.Router.{Router, RouteDecision, RouteError, direct, proxy, decide}
use ech_rust.Router
use ech_rust.Socks.Relays.{IsRelayed, handle-IsRelayed}
use ech_rust.Socks.Relays
use ech_rust.Socks.Session.{Admits}
use ech_rust.Socks
use ech_rust.Users.Grants.{Grants, authenticate-Grants, user-Grants}
use ech_rust.Users.{UserProfile, authenticate}

-- Each connection that was accepted before the first error has its result, in order.
abbrev pub Each : {R : Type 0} → (Conn → R → Type 0) → List Accept → List R → Type 0
Each P [] [] = Unit
Each P [] (r ∷ rs) = ⊥
Each P (accept_failed e ∷ rest) [] = Unit
Each P (accept_failed e ∷ rest) (r ∷ rs) = ⊥
Each P (accepted c ∷ rest) [] = ⊥
Each P (accepted c ∷ rest) (r ∷ rs) = P c r × Each P rest rs

-- No connection has a result where the listener could not be bound.
abbrev pub Answered :
    {R : Type 0} → (Conn → R → Type 0) → Option Text → List Accept → List R → Type 0
Answered P none accepts results = Each P accepts results
Answered P (some e) accepts results = results ≡ []

accept_loop-Each :
    {R : Type 0} (P : Conn → R → Type 0) (handle : Conn → R) (accepts : List Accept)
    → ((c : Conn) → P c (handle c))
    → Each P accepts (accept_loop handle accepts).0
unfolding accept_loop
accept_loop-Each P handle [] h = tt
accept_loop-Each P handle (accept_failed e ∷ rest) h = tt
accept_loop-Each P handle (accepted c ∷ rest) h = (h c, accept_loop-Each P handle rest h)

bind_then-Answered :
    {R : Type 0} (P : Conn → R → Type 0) (bound : Option Text) (accepts : List Accept)
    (r : List R × Option Text)
    → Each P accepts r.0
    → Answered P bound accepts (bind_then bound r).0
bind_then-Answered P none accepts r h = h
bind_then-Answered P (some e) accepts r h = refl

module _ {C : Type 0} (host : ClientHost C) (config : Config) (client : Client C)
    (s : Surroundings) where
  -- An address that a line of the two files holds.
  abbrev pub in_tables : IpAddr → Bool
  in_tables ip = any (line_holds host.parsers ip) (
      file_lines (host.read_to_string config.route.china_ipv4_cidrs)
      ++ file_lines (host.read_to_string config.route.china_ipv6_cidrs))

  -- The configuration grants the user who asked, whose backend has a pool, and the connection goes to the target
  -- itself, or through that pool, as the tables and the strategy say.
  pub record IsServed (Asks : UserProfile → Text → ℕ → Type 0)
      (Carries : RouteDecision C → Text → ℕ → Type 0) : Type 0 where
    pub name : Text
    pub password : Text
    pub user : UserProfile
    pub granted : Grants config.users name password user
    pub pool : BackendPool C
    pub pooled : get user.backend client.router.pools ≡ some pool
    pub target : Text
    pub port : ℕ
    pub asked : Asks user target port
    pub route : RouteDecision C
    pub decided :
        decision pool (direct_target in_tables s.names config.route target port) ≡ ok route
    pub carried : Carries route target port

  -- The connection's negotiation gave the user and the target.
  abbrev pub SocksAsks : Conn → UserProfile → Text → ℕ → Type 0
  SocksAsks c u target port =
      (c1 : Conn) × (Socks.session (s.gone c) client.socks_options client.auth s.names c
        ≡ ok ((u, target, port), c1))

  abbrev pub SocksServed : Conn → Result Socks.Stop (Socks.Relay C × Conn) → Type 0
  SocksServed c (ok (r, c')) = IsServed (SocksAsks c) (Socks.Relays.Carries s.connect_direct r)
  SocksServed c (err e) = Unit

  abbrev pub HttpCarries : Http.Relay C → RouteDecision C → Text → ℕ → Type 0
  HttpCarries r (proxy pool) target port =
      (payload : Bytes) × (r ≡ Http.relay_grpc pool target port payload)
  HttpCarries r (direct h) target port =
      (payload : Bytes) × (s.connect_direct h port ≡ none) × (r ≡ Http.relay_direct h port payload)

  HttpCarries-Relays :
      (r : Http.Relay C) (d : RouteDecision C) (target : Text) (port : ℕ) (payload : Bytes)
      (c : Conn)
      → Http.Login.Relays
          (s.gone c)
          s.base64
          client.auth
          s.connect_direct
          s.names
          client.router
          d
          target
          port
          payload
          r
      → HttpCarries r d target port
  HttpCarries-Relays r (proxy pool) target port payload c k = (payload, k)
  HttpCarries-Relays r (direct h) target port payload c k = (payload, k.0, k.1)

  -- The connection's request has the credentials of the user.
  abbrev pub HttpAsks : Conn → UserProfile → Text → ℕ → Type 0
  HttpAsks c u target port =
      (header : Bytes) × (rest : Bytes) × (request : RequestParts) × (Http.read_header c.input
        ≡ ok (header, rest))
      × (parse_request header ≡ ok request)
      × (Http.Request.authenticate s.base64 request client.auth ≡ ok u)

  abbrev pub HttpServed : Conn → Result Http.Stop (Http.Relay C × Conn) → Type 0
  HttpServed c (ok (r, c')) = IsServed (HttpAsks c) (HttpCarries r)
  HttpServed c (err e) = Unit

  -- Where the client was started so, a decision of its router for an accepted user is one of
  -- `IsServed`.
  module _ (laws : AddrLaws host.parsers) (p : Progress)
      (started : Router.start host.parsers
          (connect_at host config.ech)
          (host.read_to_string config.route.china_ipv4_cidrs)
          (host.read_to_string config.route.china_ipv6_cidrs)
          config.route
          config.users
          config.backends
          at_start
        ≡ ok ((client.auth, client.router), p)) where
    served :
        (Asks : UserProfile → Text → ℕ → Type 0) (Carries : RouteDecision C → Text → ℕ → Type 0)
        (name password : Text) (u : UserProfile) (target : Text) (port : ℕ) (d : RouteDecision C)
        → authenticate client.auth name password ≡ some u
        → decide s.names client.router u target port ≡ ok d
        → Asks u target port
        → Carries d target port
        → IsServed Asks Carries
    served Asks Carries name password u target port d accepts decided asked carried =
        let made =
          start-from_config host.parsers (connect_at host config.ech) _ _ config.route config.users
            config.backends client.auth client.router at_start p started in
        let (pool, pooled, law) =
          start-decide host.parsers laws (connect_at host config.ech) _ _ config.route config.users
            config.backends client.auth client.router name password u s.names target port at_start p
            started accepts in
        record {
          name = name;
          password = password;
          user = u;
          granted = (authenticate-Grants config.users client.auth name password u made).0 accepts;
          pool = pool;
          pooled = pooled;
          target = target;
          port = port;
          asked = asked;
          route = d;
          decided = sym law ∙ decided;
          carried = carried;
        }

    accepted_user :
        (u : UserProfile)
        → Admits client.socks_options client.auth u
        → (name : Text) × (password : Text) × (authenticate client.auth name password ≡ some u)
    accepted_user u (inr known) = known
    accepted_user u (inl (_, (name, _, held))) =
        let made =
          start-from_config host.parsers (connect_at host config.ech) _ _ config.route config.users
            config.backends client.auth client.router at_start p started in
        let granted = user-Grants config.users client.auth name u made held in
        (
          name,
          u.password,
          (authenticate-Grants config.users client.auth name u.password u made).1 granted,
        )

    pub socks_served : (c : Conn) → SocksServed c (socks_task s client c)
    socks_served c = go (socks_task s client c) refl
      where
        go :
            (o : Result Socks.Stop (Socks.Relay C × Conn))
            → socks_task s client c ≡ o
            → SocksServed c o
        go (err e) h = tt
        go (ok (r, c')) h =
            let relayed =
              handle-IsRelayed (s.gone c) s.connect_direct client.socks_options client.auth s.names
                client.router c c' r h in
            let (name, password, accepts) = accepted_user relayed.user relayed.admitted in
            served (SocksAsks c) (Socks.Relays.Carries s.connect_direct r) name password
              relayed.user relayed.host relayed.port relayed.decision accepts relayed.decided
              relayed.opened relayed.carried

    pub http_served : (c : Conn) → HttpServed c (http_task s client c)
    http_served c = go (http_task s client c) refl
      where
        go :
            (o : Result Http.Stop (Http.Relay C × Conn)) → http_task s client c ≡ o → HttpServed c o
        go (err e) h = tt
        go (ok (r, c')) h =
            let admitted =
              handle-Admitted (s.gone c) s.base64 client.auth s.connect_direct s.names client.router
                c c' r h in
            let routed = admitted.routed in
            let (name, password, accepts) = admitted.accepted in
            served (HttpAsks c) (HttpCarries r) name password admitted.user routed.host routed.port
              routed.decision accepts routed.decided
              (
                admitted.header, admitted.rest, admitted.request, admitted.received,
                admitted.parsed, admitted.authenticated,
              )
              (HttpCarries-Relays r routed.decision routed.host routed.port routed.payload c
                routed.relays)

-- What a started client relays, on either ingress and for whatever connections arrive, it relays for
-- a user that its configuration grants, who logged in on that connection or, on the SOCKS5 port,
-- was taken for the default user; and to where the router must send that user: to the target itself
-- where it is an address that a line of the two files holds; under `system_dns`, to a name's first
-- address where they hold all of its addresses; otherwise through the pool of the user's backend. On
-- the SOCKS5 port the target is the one that the connection asked for. Each connection that is
-- accepted before the first error has its own result. The parsers of addresses are held to the laws
-- `AddrLaws`.
pub start-IsServed :
    {C : Type 0} (host : ClientHost C) (laws : AddrLaws host.parsers) (config : Config)
    (client : Client C) (p : Progress) (s : Surroundings) (bound : Option Text)
    (accepts : List Accept)
    → start host config ≡ ok (client, p)
    → Answered
        (SocksServed host config client s)
        bound
        accepts
        (serve_socks s client bound accepts).0
      × Answered
          (HttpServed host config client s)
          bound
          accepts
          (serve_http s client bound accepts).0
unfolding serve_socks serve_http
start-IsServed host laws config client p s bound accepts begun =
    let ran = start-routed host config client p begun in
    (
      bind_then-Answered _ bound accepts _ (
          accept_loop-Each _ (socks_task s client) accepts
            (socks_served host config client s laws p ran)),
      bind_then-Answered _ bound accepts _ (
          accept_loop-Each _ (http_task s client) accepts
            (http_served host config client s laws p ran)),
    )
