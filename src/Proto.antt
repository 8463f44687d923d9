-- ===== src/Proto.antt =====
-- proto/tunnel/v1/tunnel.proto: the frames of a tunnel. A payload that is not set is `none`.
use ech_rust.Base.Text.{Text, Bytes}
use ech_rust.Base.{ℕ, Bool}

pub record Open : Type 0 where
  pub target_host : Text
  pub target_port : ℕ
  pub first_payload : Bytes

pub data ClientPayload : Type 0 where
  open_target : Open → ClientPayload
  client_data : Bytes → ClientPayload
  client_half_close : ClientPayload
  client_reset : Text → ClientPayload
  ping : ℕ → ClientPayload

pub data ServerPayload : Type 0 where
  open_result : Bool → Text → ServerPayload
  server_data : Bytes → ServerPayload
  server_half_close : ServerPayload
  server_reset : Text → ServerPayload
  pong : ℕ → ServerPayload
