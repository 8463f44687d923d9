-- ===== src/Tunnel/Received.antt =====
-- What the client's end of a tunnel makes of whatever the backend sends.
use ech_rust.Base.Text.{Text, Bytes}
use ech_rust.Base.{◌≡◌, true, List, [], ◌∷◌, ◌++◌, some, Result, ok}
use ech_rust.Proto.{open_result, server_data, server_half_close, pong}
use ech_rust.Tunnel.{TunnelError, Incoming, message, LocalEffect, local_wrote, local_shutdown}

-- The bytes of the writes to the local stream that succeeded.
abbrev pub local_written : List LocalEffect → Bytes
local_written [] = []
local_written (local_wrote bytes ∷ es) = bytes ++ local_written es
local_written (local_shutdown ∷ es) = local_written es

-- The data that the backend sends up to what ends the tunnel.
abbrev pub sent : List Incoming → Bytes
sent (message (some (server_data bytes)) ∷ rest) = bytes ++ sent rest
sent (message (some (pong millis)) ∷ rest) = sent rest
sent _ = []

-- The tunnel is ended by a half-close or by the end of the backend's stream.
abbrev pub EndsWell : List Incoming → Type 0
EndsWell [] = Unit {0}
EndsWell (message (some (server_data bytes)) ∷ rest) = EndsWell rest
EndsWell (message (some (pong millis)) ∷ rest) = EndsWell rest
EndsWell (message (some server_half_close) ∷ rest) = Unit {0}
EndsWell _ = ⊥

-- What was written is the data in order, up to a write that failed; and success means that all of it
-- was written and that the tunnel ended well.
pub record Carried (rest : List Incoming) (r : List LocalEffect × Result TunnelError (Unit {0}))
    : Type 0 where
  pub missing : Bytes
  pub in_order : local_written r.0 ++ missing ≡ sent rest
  pub complete : r.1 ≡ ok tt → (missing ≡ []) × EndsWell rest

-- The backend says that the target is open, and what it sends behind that.
abbrev pub Opened : List Incoming → List Incoming → Type 0
Opened incoming rest = (error : Text) × (incoming ≡ message (some (open_result true error)) ∷ rest)
