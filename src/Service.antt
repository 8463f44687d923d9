-- ===== src/Service.antt =====
-- server/src/service.rs: the server's end of a tunnel.
pub mod Connect
pub mod Tunnel
use ech_rust.Base.Net.{IpAddr, SocketAddr}
use ech_rust.Base.Text.{Text, Bytes, codes, is_empty, utf8_len, decimal}
use ech_rust.Base.{
  ℕ, zero, suc, ◌+◌, Bool, true, false, List, [], ◌∷◌, ◌++◌, Option, none, some, Result, ok, err,
  ◌>>=◌, ◌>>◌, leb, if◌then◌else◌, take, unwrap_or,
}
use ech_rust.Policy.{
  Policy, PolicyError, invalid_host, invalid_port, no_addresses, port_denied, address_denied,
  resolve_failed, check_connected_addr, Resolver, resolve_target,
}
use ech_rust.Proto.{
  Open, ClientPayload, open_target, client_data, client_half_close, client_reset, ping,
  ServerPayload, open_result, server_data, server_half_close, server_reset, pong,
}

-- What `timeout(connect_timeout, TcpStream::connect(addr))` comes to: a stream, with its peer's
-- address where the system knows it.
pub data Attempt : Type 0 where
  connected : Option SocketAddr → Attempt
  refused : Text → Attempt
  expired : Attempt

-- The system around a tunnel. `write_error n` is the error of the n-th write to the target.
pub record Env : Type 0 where
  pub resolver : Resolver
  pub attempt : SocketAddr → Attempt
  pub write_error : ℕ → Option Text
  pub show_ip : IpAddr → Text
  pub show_addr : SocketAddr → Text

-- `timeout(idle_timeout, inbound.next())`; that the stream is closed is the end of the list.
pub data Event : Type 0 where
  frame : Option ClientPayload → Event
  failed : Text → Event
  timed_out : Event

-- What the server does to its client and to the target.
pub data Effect : Type 0 where
  send : ServerPayload → Effect
  wrote : Bytes → Effect
  write_failed : Bytes → Effect
  shutdown : Effect

abbrev pub connect_check : Policy → Option SocketAddr → Result PolicyError (Unit {0})
connect_check p none = ok tt
connect_check p (some peer) = check_connected_addr p peer

-- The loop of `connect_any`, with the last error; it returns the address that was connected.
pub connect_loop : Env → Policy → Option Text → List SocketAddr → Result PolicyError SocketAddr
connect_loop env p last_err [] =
    err (resolve_failed (unwrap_or last_err (codes "all target addresses failed")))
connect_loop env p last_err (addr ∷ addrs) = elim (env.attempt addr) [
  | connected peer ↦ connect_check p peer >> ok addr
  | refused e ↦ connect_loop env p (some e) addrs
  | expired ↦
      connect_loop env p (some (codes "connect to " ++ env.show_addr addr ++ codes " timed out"))
        addrs
]

unfoldable pub connect_any : Env → Policy → List SocketAddr → Result PolicyError SocketAddr
unfolding connect_loop
connect_any env p addrs = connect_loop env p none addrs

-- `PolicyError`'s messages.
pub show_error : Env → PolicyError → Text
show_error env invalid_host = codes "invalid target host"
show_error env invalid_port = codes "target port is out of range"
show_error env (port_denied port) = codes "target port " ++ decimal port ++ codes " is not allowed"
show_error env no_addresses = codes "target resolved to no addresses"
show_error env (address_denied ip) = codes "target address " ++ env.show_ip ip ++ codes " is denied"
show_error env (resolve_failed e) = codes "failed to resolve target: " ++ e

-- The loop over the client's frames; `n` writes were made before.
unfoldable pub relay : Env → ℕ → List Event → List Effect
relay env n [] = shutdown ∷ []
relay env n (timed_out ∷ events) = send (server_reset (codes "idle timeout")) ∷ []
relay env n (failed status ∷ events) = shutdown ∷ send (server_reset status) ∷ []
relay env n (frame none ∷ events) = send (server_reset (codes "empty client frame")) ∷ []
relay env n (frame (some (client_data bytes)) ∷ events) = elim (env.write_error n) [
  | none ↦ wrote bytes ∷ relay env (n + 1) events
  | some e ↦ write_failed bytes ∷ send (server_reset (codes "target write failed: " ++ e)) ∷ []
]
relay env n (frame (some client_half_close) ∷ events) = shutdown ∷ relay env n events
relay env n (frame (some (client_reset reason)) ∷ events) = shutdown ∷ []
relay env n (frame (some (ping millis)) ∷ events) = send (pong millis) ∷ relay env n events
relay env n (frame (some (open_target o)) ∷ events) =
    send (server_reset (codes "unexpected Open after tunnel established")) ∷ []

-- `send_open_result(&tx, false, error); return Ok(())`
abbrev pub refuse : Text → List Effect
refuse error = send (open_result false error) ∷ []

-- From the first payload on.
unfoldable pub establish : Env → Bytes → List Event → List Effect
establish env [] events = send (open_result true []) ∷ relay env 0 events
establish env (b ∷ bs) events = elim (env.write_error 0) [
  | some e ↦ write_failed (b ∷ bs) ∷ refuse (codes "failed to write first payload: " ++ e)
  | none ↦ wrote (b ∷ bs) ∷ send (open_result true []) ∷ relay env 1 events
]

-- The address that the target is reached at.
unfoldable pub open_stream : Env → Policy → Open → Result PolicyError SocketAddr
open_stream env p o = do
  addrs ← resolve_target env.resolver p o.target_host o.target_port
  connect_any env p addrs

unfoldable pub handle_open : Env → Policy → Open → List Event → List Effect
handle_open env p o events = elim (open_stream env p o) [
  | err e ↦ refuse (show_error env e)
  | ok addr ↦ establish env o.first_payload events
]

unfoldable pub handle_tunnel : Env → Policy → List Event → List Effect
handle_tunnel env p [] = []
handle_tunnel env p (failed status ∷ events) = send (server_reset status) ∷ []
handle_tunnel env p (timed_out ∷ events) =
    send (server_reset (codes "idle timeout waiting for Open")) ∷ []
handle_tunnel env p (frame none ∷ events) = refuse (codes "first frame must be Open")
handle_tunnel env p (frame (some (open_target o)) ∷ events) = handle_open env p o events
handle_tunnel env p (frame (some other) ∷ events) = refuse (codes "first frame must be Open")

-- `target_reader.read`, one call after another.
pub data Read : Type 0 where
  chunk : Bytes → Read
  eof : Read
  read_failed : Text → Read

-- `&token[..4]` counts bytes; a token is ASCII, which `to_str` has checked.
unfoldable pub redact_token : Text → Text
redact_token token =
    if leb (utf8_len token) 8 then codes "<redacted>" else take 4 token ++ codes "..."
