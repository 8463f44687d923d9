-- ===== src/Socks/Relays.antt =====
-- What the SOCKS5 proxy relays.
use ech_rust.Base.Text.{Text}
use ech_rust.Base.{ℕ, ◌≡◌, refl, sym, ap, Bool, Option, none, some, Result, ok, err, >>=-eq-ok}
use ech_rust.Conn.{Conn}
use ech_rust.Router.{Names, Router, RouteError, RouteDecision, direct, proxy, decide}
use ech_rust.Socks.Session.{Admits, session-Admits}
use ech_rust.Socks.{
  Socks5Options, Step, bail, routing, direct_failed, Relay, relay_direct, relay_grpc, send_reply,
  session, connect_target, handle,
}
use ech_rust.Users.{UserProfile, AuthStore}

-- The decision is carried out, where `connect_direct` gives the error of a direct connection.
abbrev pub Carries :
    {C : Type 0} → (Text → ℕ → Option Text) → Relay C → RouteDecision C → Text → ℕ → Type 0
Carries connect_direct r (proxy pool) host port = r ≡ relay_grpc pool host port
Carries connect_direct r (direct connect_host) host port =
    (connect_direct connect_host port ≡ none) × (r ≡ relay_direct connect_host port)

-- The negotiation admitted a user, and what the router decided for that user and the target that was
-- asked for is carried out.
pub record IsRelayed {C : Type 0} (gone : ℕ → Bool) (connect_direct : Text → ℕ → Option Text)
    (options : Socks5Options) (auth : AuthStore) (names : Names) (router : Router C) (c : Conn)
    (r : Relay C) : Type 0 where
  pub user : UserProfile
  pub admitted : Admits options auth user
  pub host : Text
  pub port : ℕ
  pub opened : (c1 : Conn) × (session gone options auth names c ≡ ok ((user, host, port), c1))
  pub decision : RouteDecision C
  pub decided : decide names router user host port ≡ ok decision
  pub carried : Carries connect_direct r decision host port

module _ {C : Type 0} (gone : ℕ → Bool) (connect_direct : Text → ℕ → Option Text)
    (options : Socks5Options) (auth : AuthStore) (names : Names) (router : Router C) where
  connect_target-Carries :
      (u : UserProfile) (host : Text) (port : ℕ) (c c' : Conn) (r : Relay C)
      → connect_target gone connect_direct names router u host port c ≡ ok (r, c')
      → (d : RouteDecision C) × (decide names router u host port ≡ ok d)
        × Carries connect_direct r d host port
  unfolding connect_target
  connect_target-Carries u host port c c' r e = go (decide names router u host port) e
    where
      dialled :
          (h : Text) (o : Option Text)
          → ◌≡◌ {A = Step (Relay C)}
              (elim o [
                | some x ↦ bail (direct_failed x) (send_reply gone 5 c)
                | none ↦ ok (relay_direct h port, send_reply gone 0 c)
              ])
              (ok (r, c'))
          → (o ≡ none) × (r ≡ relay_direct h port)
      dialled h (some x) k = cc
      dialled h none k = (refl, sym (ap (elim [ ok p ↦ p.0 | err _ ↦ relay_direct h port ]) k))

      go :
          (m : Result RouteError (RouteDecision C))
          → ◌≡◌ {A = Step (Relay C)}
              (elim m [
                | err x ↦ bail (routing x) c
                | ok (proxy pool) ↦ ok (relay_grpc pool host port, send_reply gone 0 c)
                | ok (direct connect_host) ↦ elim (connect_direct connect_host port) [
                  | some x ↦ bail (direct_failed x) (send_reply gone 5 c)
                  | none ↦ ok (relay_direct connect_host port, send_reply gone 0 c)
                ]
              ])
              (ok (r, c'))
          → (d : RouteDecision C) × (m ≡ ok d) × Carries connect_direct r d host port
      go (err x) k = cc
      go (ok (proxy pool)) k =
          (proxy pool, refl, sym (ap (elim [ ok p ↦ p.0 | err _ ↦ relay_grpc pool host port ]) k))
      go (ok (direct h)) k = (direct h, refl, dialled h (connect_direct h port) k)

  pub handle-IsRelayed :
      (c c' : Conn) (r : Relay C)
      → handle gone connect_direct options auth names router c ≡ ok (r, c')
      → IsRelayed gone connect_direct options auth names router c r
  unfolding handle
  handle-IsRelayed c c' r e =
      let (((u, host, port), c1), opened, e1) = >>=-eq-ok (session gone options auth names c) _ e in
      let (d, decided, carried) = connect_target-Carries u host port c1 c' r e1 in
      record {
        user = u;
        admitted = session-Admits gone options auth names c c1 u host port opened;
        host = host;
        port = port;
        opened = (c1, opened);
        decision = d;
        decided = decided;
        carried = carried;
      }
