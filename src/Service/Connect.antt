-- ===== src/Service/Connect.antt =====
-- Which address a tunnel is opened to.
use ech_rust.Base.Net.{SocketAddr}
use ech_rust.Base.Text.{Text, codes}
use ech_rust.Base.{◌≡◌, refl, List, [], ◌∷◌, ◌++◌, Option, none, some, ok, ◌>>◌, >>=-eq-ok, All, ap}
use ech_rust.Policy.Resolve.{Permits, resolve_target-Permits}
use ech_rust.Policy.{Policy, resolve_target}
use ech_rust.Proto.{Open}
use ech_rust.Service.{
  Attempt, connected, refused, expired, Env, connect_check, connect_loop, connect_any, open_stream,
}

abbrev Fails : Attempt → Type 0
Fails (connected peer) = ⊥
Fails _ = Unit

-- `addr` is the first address of the list that a connection was made to, and its peer passes.
pub record Reaches (env : Env) (p : Policy) (addrs : List SocketAddr) (addr : SocketAddr)
    : Type 0 where
  pub before : List SocketAddr
  pub after : List SocketAddr
  pub peer : Option SocketAddr
  pub splits : addrs ≡ before ++ addr ∷ after
  pub before_fail : All (λ a. Fails (env.attempt a)) before
  pub reached : env.attempt addr ≡ connected peer
  pub passes : connect_check p peer ≡ ok tt

connect_loop-Reaches :
    (env : Env) (p : Policy) (last : Option Text) (addrs : List SocketAddr) (addr : SocketAddr)
    → connect_loop env p last addrs ≡ ok addr
    → Reaches env p addrs addr
unfolding connect_loop
connect_loop-Reaches env p last [] addr e = cc
connect_loop-Reaches env p last (a ∷ rest) addr e =
    go (env.attempt a) refl (λ l. connect_loop-Reaches env p l rest addr) e
  where
    skip : Fails (env.attempt a) → Reaches env p rest addr → Reaches env p (a ∷ rest) addr
    skip failed r = record {
      before = a ∷ r.before;
      after = r.after;
      peer = r.peer;
      splits = ap (◌∷◌ a) r.splits;
      before_fail = (failed, r.before_fail);
      reached = r.reached;
      passes = r.passes;
    }

    hit :
        (peer : Option SocketAddr)
        → env.attempt a ≡ connected peer
        → (connect_check p peer >> ok a) ≡ ok addr
        → Reaches env p (a ∷ rest) addr
    hit peer reached h =
        let (u, passes, done) = >>=-eq-ok (connect_check p peer) _ h in
        let same : a ≡ addr = cc in
        record {
          before = [];
          after = rest;
          peer = peer;
          splits = ap (λ x. x ∷ rest) same;
          before_fail = tt;
          reached = rw (← same) reached;
          passes = passes;
        }

    go :
        (t : Attempt)
        → env.attempt a ≡ t
        → ((l : Option Text) → connect_loop env p l rest ≡ ok addr → Reaches env p rest addr)
        → (elim t [
          | connected peer ↦ connect_check p peer >> ok a
          | refused e ↦ connect_loop env p (some e) rest
          | expired ↦
              connect_loop env p
                (some (codes "connect to " ++ env.show_addr a ++ codes " timed out"))
                rest
        ])
          ≡ ok addr
        → Reaches env p (a ∷ rest) addr
    go (connected peer) t ih h = hit peer t h
    go (refused e) t ih h = skip (rw t tt) (ih (some e) h)
    go expired t ih h = skip (rw t tt) (ih _ h)

-- `addr` is the first address of a permitted target that a connection was made to.
pub record IsOpened (env : Env) (p : Policy) (o : Open) (addr : SocketAddr) : Type 0 where
  pub addrs : List SocketAddr
  pub permits : Permits p o.target_host o.target_port addrs
  pub reaches : Reaches env p addrs addr

-- Where the opening of a target succeeds, the policy permits the target with its addresses, and the
-- stream goes to the first of them, in the resolver's order, that a connection was made to; where
-- the peer's own address is known, it passes the check as well.
pub open_stream-IsOpened :
    (env : Env) (p : Policy) (o : Open) (addr : SocketAddr)
    → open_stream env p o ≡ ok addr
    → IsOpened env p o addr
unfolding open_stream connect_any
open_stream-IsOpened env p o addr e =
    let (addrs, resolved, rest) =
      >>=-eq-ok (resolve_target env.resolver p o.target_host o.target_port) _ e in
    record {
      addrs = addrs;
      permits = resolve_target-Permits env.resolver p o.target_host o.target_port addrs resolved;
      reaches = connect_loop-Reaches env p none addrs addr rest;
    }
