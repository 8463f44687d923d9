-- ===== src/Lib.antt =====
-- ech-rust relays proxy connections over gRPC. The client (client/) takes SOCKS5 and HTTP proxy
-- connections of configured users. For each it decides, by a table of Chinese IP ranges, whether to
-- connect directly or through a channel of the user's backend; the channel's TLS uses an Encrypted
-- Client Hello configuration, which the client asks a DNS-over-HTTPS resolver for. The server
-- (server/) authenticates the bearer token of each tunnel, checks the requested target against its
-- policy, connects to it and relays the frames of proto/tunnel/v1/tunnel.proto.
--
-- Files and the code they are about:
-- Base: what all share. Base/Text is `str` as a list of scalar values with the operations of the
--   standard library that the code calls, Base/Maps a map as the list of its entries, Base/Results
--   `Result` with `?` as its bind, Base/Bits the laws of `&` and `|`.
-- ChinaIp: client/src/china_ip.rs. ChinaIp has the ranges, their merging (`merge_u32_ranges`,
--   `merge_u128_ranges`, which are one function of the type's largest value) and the lookup
--   (`contains`, `contains_u32`, `contains_u128`, with the standard library's binary search written
--   out); ChinaIp/Table has `load`, `read_ip_table`, `push_net` and `push_range`. The other files
--   below ChinaIp hold the proofs.
-- Dns: the messages of client/src/ech_tls.rs, `build_https_query` and `parse_https_response_for_ech`
--   with all their readers, on lists of bytes; an offset passed by reference is returned instead.
--   Dns/Wire is an independent description of DNS messages as data with an encoder.
-- EchCache: the cache of client/src/ech_tls.rs (`get_cached_ech_config`, `put_cached_ech_config`), with
--   the time passed in. EchCache/Runs has sequences of its calls, and a memory to compare them with.
-- Config: client/src/config.rs, with what a key that the file leaves out stands for.
-- Tls: what the next two share: the outside, the two caches, the log of what is asked of the network,
--   and `backend_tls_name`.
-- EchConnector: client/src/ech_connector.rs, `EchConnector::new`, `connect` and the cached connectors.
-- Transport: `connect_channel`, `connect_ech_channel` and `bootstrap_ech_config` of
--   client/src/ech_tls.rs.
-- Users: client/src/auth.rs and `validate_users_backends` of client/src/main.rs.
-- Pool: client/src/grpc_pool.rs. Router: client/src/router.rs, and as `start` what `run` of
--   client/src/main.rs does to make the router.
-- Client: client/src/main.rs with its commands, and the accept loops of client/src/ingress_socks5.rs
--   and client/src/ingress_http.rs. Here the parts meet: `start` gives Router the channels of Transport,
--   and the two ingress tasks run Socks and Http with the router that it made. A channel reads the
--   cache at times that are passed in (`clock`).
-- Tokens: server/src/auth.rs, and `parse_tokens` and `apply_env` of server/src/config.rs.
-- Policy: server/src/policy.rs. Service: server/src/service.rs, where a tunnel is the list of what
--   arrives from the client, and its run is the list of what the server sends and writes.
-- Server: server/src/main.rs, `Config::load` with the defaults of server/src/config.rs, and the handler
--   `tunnel` of server/src/service.rs.
-- Socks: client/src/ingress_socks5.rs, where a connection is what the client will still send and what
--   was written to it.
-- Http: client/src/ingress_http.rs. Http has `read_header` and `handle`, Http/Request `parse_request`
--   and `authenticate`, Http/Authority `parse_authority`, `parse_absolute_uri` and
--   `rewrite_absolute_request`; texts become bytes by `as_bytes` and back by `from_utf8`
--   (Base/Utf8).
-- Tunnel: client/src/tunnel.rs. Tunnel has `relay_grpc` in pieces, on the list of what arrives from
--   the backend. Tunnel/Limiter has the streams that share a pool and its permits as a step relation.
-- Outbound: one direction of an open tunnel, the same in client/src/tunnel.rs and
--   server/src/service.rs: the task that reads a stream, the channel of 64 frames that it sends into
--   and waits for where it is full, and the call that carries the frames.
-- Duplex: an open tunnel, two directions of Outbound with the loop of client/src/tunnel.rs and that of
--   server/src/service.rs, as a step relation, where any task that can make a round may be the next,
--   writes and sends may fail, and the call may break.
-- System: a started client and a started server together.
-- Tests: runs on concrete inputs.
--
-- Numbers are native; a machine operation that can overflow has its bound written out (`checked_add`
-- below 2 ^ 64, `saturating_add` below the type's largest value, the pool's counter modulo 2 ^ 64).
-- An index out of bounds is a value of its own (`none`, or an error `panicked`), so that its absence
-- is a theorem.
--
-- Four loops run on fuel. `search_loop` of ChinaIp has the length of the table, and halves what is
-- left in each round. `skip_name_loop` and `params_loop` of Dns have one more than the length of
-- the message, and each round moves forward inside it; a loop cut off is the error `out_of_fuel`.
-- The fuel of `read_loop` of Http is the bound that the code itself sets.
--
-- What is not under this repository is a parameter: the parsers of addresses and networks
-- (`AddrParsers`, held to the laws `AddrLaws` where a theorem needs them), the system's resolver
-- (`Resolver`, `Names`), the base64 decoder, the outcome of connecting and of writing (`Env`), and
-- for the client's channels the parser of URIs, the answer of the DNS resolver, BoringSSL and the
-- connections of tonic (`Net`, `Boring`), and for both programs their files, TOML and addresses
-- (`ClientHost`, `Host`). Pool and Router have the making of a channel as a parameter, with what it
-- reads and changes as a state that is passed on. A map is walked in the order of its entries.
--
-- Not modelled: the calls of BoringSSL, tonic and tokio, the reading of TOML, logging and socket
-- options, which are I/O or library code; the stream wrapper of client/src/ech_connector.rs, which
-- forwards each call. The two caches of the client are used by one task at a time. Service and Tunnel
-- have each loop over the frames that arrive, with the errors of its streams; Duplex has all four
-- tasks. There a write that does not return is a round that is not made, the frames that a call has
-- carried wait in a list of any length, and an idle time is known only by that nothing has arrived.
-- The semaphore of a pool is a number: that it is fair to those who wait, and the panic of a number
-- beyond what a semaphore can hold, are not modelled. `relay_direct` only writes its first payload
-- and hands both streams to `copy_bidirectional` of tokio.
pub mod Base
pub mod ChinaIp
pub mod Dns
pub mod Policy
pub mod Proto
pub mod Service
pub mod Users
pub mod Config
pub mod Tls
pub mod EchConnector
pub mod Transport
pub mod Client
pub mod Pool
pub mod Router
pub mod Conn
pub mod Socks
pub mod Http
pub mod Tunnel
pub mod Outbound
pub mod Duplex
pub mod EchCache
pub mod Tokens
pub mod Server
mod Tests
pub mod System
