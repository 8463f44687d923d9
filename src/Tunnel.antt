-- ===== src/Tunnel.antt =====
-- client/src/tunnel.rs: the client's end of a tunnel.
pub mod Received
pub mod Limiter
use ech_rust.Base.Text.{Text, Bytes, codes}
use ech_rust.Base.{
  ℕ, ◌+◌, Bool, true, false, List, [], ◌∷◌, ◌++◌, Option, none, some, Result, ok, err, ◌>>=◌, guard,
  if◌then◌else◌,
}
use ech_rust.Pool.{BackendPool, pick}
use ech_rust.Proto.{
  Open, ClientPayload, open_target, client_data, client_half_close, client_reset, ServerPayload,
  open_result, server_data, server_half_close, server_reset, pong,
}
use ech_rust.Service.{Read, chunk, eof, read_failed}

pub data TunnelError : Type 0 where
  invalid_token closed_before_open unexpected_first_frame : TunnelError
  reset_before_open open_failed : Text → TunnelError
  rpc_failed reset_by_backend : Text → TunnelError
  write_failed shutdown_failed : Text → TunnelError
  duplicate_open_result empty_frame : TunnelError

-- `inbound.message()` and `inbound.next()`: a frame or the status that ends the stream; that the
-- stream is closed is the end of the list.
pub data Incoming : Type 0 where
  message : Option ServerPayload → Incoming
  status : Text → Incoming

-- What is done to the local stream.
pub data LocalEffect : Type 0 where
  local_wrote : Bytes → LocalEffect
  local_shutdown : LocalEffect

-- The local stream: the error of the n-th write, and that of closing its writing half.
pub record LocalStream : Type 0 where
  pub write_error : ℕ → Option Text
  pub shutdown_error : Option Text

-- What a call of the backend starts with.
pub record Call (C : Type 0) : Type 0 where
  pub channel : Option C
  pub authorization : Text
  pub opening : ClientPayload

abbrev pub open_frame : Text → ℕ → Bytes → ClientPayload
open_frame target_host target_port first_payload =
    open_target (record {
      target_host = target_host;
      target_port = target_port;
      first_payload = first_payload;
    })

abbrev pub bearer : Text → Text
bearer token = codes "Bearer " ++ token

-- The first half of `relay_grpc`, up to the call; `is_metadata` says which texts a metadata value
-- may be.
unfoldable pub start_call :
    {C : Type 0}
    → (Text → Bool)
    → BackendPool C
    → Text
    → ℕ
    → Bytes
    → Result TunnelError (Call C) × BackendPool C
start_call is_metadata pool target_host target_port first_payload =
    let (channel, after) = pick pool in
    let token = bearer pool.backend.auth_token in
    (
      (if is_metadata token
          then ok (record {
            channel = channel;
            authorization = token;
            opening = open_frame target_host target_port first_payload;
          })
          else err invalid_token),
      after,
    )

-- The answer to the Open frame, and what comes behind it.
unfoldable pub await_open : List Incoming → Result TunnelError (List Incoming)
await_open [] = err closed_before_open
await_open (status e ∷ rest) = err (rpc_failed e)
await_open (message (some (open_result true error)) ∷ rest) = ok rest
await_open (message (some (open_result false error)) ∷ rest) = err (open_failed error)
await_open (message (some (server_reset reason)) ∷ rest) = err (reset_before_open reason)
await_open (message _ ∷ rest) = err unexpected_first_frame

abbrev pub after_write :
    Bytes
    → List LocalEffect × Result TunnelError (Unit {0})
    → List LocalEffect × Result TunnelError (Unit {0})
after_write bytes (log, r) = (local_wrote bytes ∷ log, r)

-- The loop over the backend's frames, where `n` writes were made before.
unfoldable pub receive :
    LocalStream → ℕ → List Incoming → List LocalEffect × Result TunnelError (Unit {0})
receive s n [] = ([], ok tt)
receive s n (status e ∷ rest) = ([], err (rpc_failed e))
receive s n (message none ∷ rest) = ([], err empty_frame)
receive s n (message (some (server_data bytes)) ∷ rest) = elim (s.write_error n) [
  | some e ↦ ([], err (write_failed e))
  | none ↦ after_write bytes (receive s (n + 1) rest)
]
receive s n (message (some server_half_close) ∷ rest) = elim s.shutdown_error [
  | some e ↦ ([], err (shutdown_failed e))
  | none ↦ (local_shutdown ∷ [], ok tt)
]
receive s n (message (some (server_reset reason)) ∷ rest) = ([], err (reset_by_backend reason))
receive s n (message (some (pong millis)) ∷ rest) = receive s n rest
receive s n (message (some (open_result b error)) ∷ rest) = ([], err duplicate_open_result)

-- The second half of `relay_grpc`, on what the backend sends.
unfoldable pub run_call :
    LocalStream → List Incoming → List LocalEffect × Result TunnelError (Unit {0})
run_call s incoming = elim (await_open incoming) [
  | err e ↦ ([], err e)
  | ok rest ↦ receive s 0 rest
]
