-- ===== src/Conn.antt =====
-- A client's connection, as the ingress code of client/src/ reads and writes it.
use ech_rust.Base.Text.{Bytes}
use ech_rust.Base.{List}

-- What the client will still send, until it closes, and what was written to it.
pub record Conn : Type 0 where
  pub input : Bytes
  pub output : List Bytes
