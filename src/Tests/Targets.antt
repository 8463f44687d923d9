-- ===== src/Tests/Targets.antt =====
-- The server's policy and tunnel on one target.
use ech_rust.Base.Net.{v4, SocketAddr}
use ech_rust.Base.Text.{codes, is_ascii_whitespace}
use ech_rust.Base.{
  ◌≡◌, refl, true, List, [], ◌∷◌, none, some, ok, err, arith, inr, ◌&&◌, if◌then◌else◌,
}
use ech_rust.Policy.Blocks.{ipv4, in_blocks, check_ip-in_blocks}
use ech_rust.Policy.Resolve.{Permits, resolve_target-Permits}
use ech_rust.Policy.{
  Policy, Resolver, check_ip, address_denied, resolve_target, check_port, validate_host,
  lookup_addrs, check_addrs, denied, is_private, is_loopback, is_link_local, is_multicast,
  is_broadcast, is_documentation, is_unspecified,
}
use ech_rust.Proto.{Open, open_target, client_data, ping}
use ech_rust.Service.Connect.{IsOpened, open_stream-IsOpened}
use ech_rust.Service.Tunnel.{
  Carries, handle_tunnel-Carries, Admitted, handle_tunnel-Admitted, open_results,
}
use ech_rust.Service.{Env, Event, frame, connected, connect_any, open_stream, handle_tunnel}

-- What a run of the policy computes with.
permitting : Unit {0}
unfolding check_port validate_host lookup_addrs check_addrs denied is_private is_loopback
    is_link_local is_multicast is_broadcast is_documentation is_unspecified is_ascii_whitespace
    check_ip resolve_target
permitting = tt

abbrev pub policy : Policy
policy = record { connect_timeout = 8000; deny_private = true; ports = some (80 ∷ 443 ∷ []) }

check_ip-in_blocks_example : check_ip policy (v4 (ipv4 172 31 0 1)) ≡ (
    if policy.deny_private && in_blocks (v4 (ipv4 172 31 0 1))
    then err (address_denied (v4 (ipv4 172 31 0 1)))
    else ok tt)
check_ip-in_blocks_example = check_ip-in_blocks policy (v4 (ipv4 172 31 0 1)) (omega arith)

abbrev pub target : SocketAddr
target = record { ip = v4 (ipv4 8 8 8 8); port = 443 }

abbrev resolver : Resolver
resolver = record { parse_ip = λ t. none; to_socket_addrs = λ t. ok (target ∷ []) }

abbrev pub env : Env
env = record {
  resolver = resolver;
  attempt = λ a. connected (some a);
  write_error = λ n. none;
  show_ip = λ ip. [];
  show_addr = λ a. [];
}

abbrev pub request : Open
request = record { target_host = codes "dns.google"; target_port = 443; first_payload = codes "hi" }

resolves : resolve_target resolver policy request.target_host 443 ≡ ok (target ∷ [])
unfolding permitting
resolves = refl

resolve_target-Permits_example : Permits policy request.target_host 443 (target ∷ [])
resolve_target-Permits_example =
    resolve_target-Permits resolver policy request.target_host 443 (target ∷ []) resolves

pub opens : open_stream env policy request ≡ ok target
unfolding permitting open_stream connect_any
opens = refl

open_stream-IsOpened_example : IsOpened env policy request target
open_stream-IsOpened_example = open_stream-IsOpened env policy request target opens

abbrev pub frames : List Event
frames = frame (some (ping 7)) ∷ frame (some (client_data (codes "there"))) ∷ []

handle_tunnel-Carries_example :
    Carries request frames (handle_tunnel env policy (frame (some (open_target request)) ∷ frames))
handle_tunnel-Carries_example =
    handle_tunnel-Carries env policy request target frames opens (λ n. refl)

pub reported :
    open_results (handle_tunnel env policy (frame (some (open_target request)) ∷ frames))
    ≡ true ∷ []
reported = handle_tunnel-Carries_example.opened_once

handle_tunnel-Admitted_example : Admitted env policy (frame (some (open_target request)) ∷ frames)
handle_tunnel-Admitted_example =
    handle_tunnel-Admitted env policy (frame (some (open_target request)) ∷ frames) (inr reported)

-- What a client relays for a SOCKS5 connection.
abbrev pub bare_request : Open
bare_request = record { target_host = codes "example.org"; target_port = 443; first_payload = [] }

bare_opens : open_stream env policy bare_request ≡ ok target
unfolding permitting open_stream connect_any
bare_opens = refl

pub bare_reported :
    open_results (handle_tunnel env policy (frame (some (open_target bare_request)) ∷ frames))
    ≡ true ∷ []
bare_reported =
    (handle_tunnel-Carries env policy bare_request target frames bare_opens (λ n. refl)).opened_once
