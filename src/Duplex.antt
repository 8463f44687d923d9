-- ===== src/Duplex.antt =====
-- An open tunnel as the two tasks of client/src/tunnel.rs and the two of server/src/service.rs run
-- it, in any order: with channels that fill up, writes that fail, and a call that can break. Both
-- sides set the payload of each frame that they send, so that no frame here is without one.
pub mod Delivery
pub mod Ends
pub mod Order
pub mod Queued
pub mod Progress
pub mod Work
pub mod Termination
use ech_rust.Base.Text.{Text, Bytes, codes}
use ech_rust.Base.{ℕ, ◌<◌, ◌≡◌, Bool, true, false, ◌||◌, List, [], ◌∷◌, ◌++◌, length}
use ech_rust.Outbound.{Outbound, outbound, outbound_queue, enqueue, arrived, abort, Round, HasEnded}
use ech_rust.Proto.{
  ClientPayload, client_data, client_half_close, client_reset, ping, open_target, ServerPayload,
  server_data, server_half_close, server_reset, pong, open_result,
}
use ech_rust.Service.{Read, chunk, eof, read_failed}

-- Where the server's loop is: waiting for a frame or writing one, in the send of a pong, in the send
-- of the reset that it ends with, or behind its end.
pub data Loop : Type 0 where
  serving : Loop
  ponging : ℕ → Loop
  resetting : Text → Loop
  stopped : Loop

-- Both directions, what was written to the two streams and which of them were shut down, whether the
-- client's loop runs, the server's loop, and whether the call is broken.
pub record Duplex : Type 0 where
  pub up : Outbound ClientPayload
  pub down : Outbound ServerPayload
  pub target_got : Bytes
  pub target_closed : Bool
  pub local_got : Bytes
  pub local_closed : Bool
  pub receiving : Bool
  pub server : Loop
  pub broken : Bool

-- The frame that the client's reading task sends for a read.
unfoldable pub client_frame : Read → ClientPayload
client_frame (chunk bytes) = client_data bytes
client_frame eof = client_half_close
client_frame (read_failed e) = client_reset (codes "local read failed: " ++ e)

-- The frame that the server's reading task sends for a read.
unfoldable pub server_frame : Read → ServerPayload
server_frame (chunk bytes) = server_data bytes
server_frame eof = server_half_close
server_frame (read_failed e) = server_reset (codes "target read failed: " ++ e)

-- The server's loop breaks, and its reading task is aborted.
abbrev pub stop_server : Duplex → Duplex
stop_server s = record s { server = stopped; down = abort s.down }

-- The client's loop ends, and its reading task is aborted.
abbrev pub stop_client : Duplex → Duplex
stop_client s = record s { receiving = false; up = abort s.up }

-- The client's function returns an error, which leaves its reading task as it is.
abbrev pub fail_client : Duplex → Duplex
fail_client s = record s { receiving = false }

-- One round of the server's loop, up to the send that it may make.
unfoldable pub serve : ClientPayload → Duplex → Duplex
serve (client_data bytes) s = record s { target_got = s.target_got ++ bytes }
serve client_half_close s = record s { target_closed = true }
serve (client_reset reason) s = stop_server (record s { target_closed = true })
serve (ping millis) s = record s { server = ponging millis }
serve (open_target o) s = record s {
  server = resetting (codes "unexpected Open after tunnel established");
}

-- One round of the client's loop.
unfoldable pub take_frame : ServerPayload → Duplex → Duplex
take_frame (server_data bytes) s = record s { local_got = s.local_got ++ bytes }
take_frame server_half_close s = stop_client (record s { local_closed = true })
take_frame (server_reset reason) s = fail_client s
take_frame (pong millis) s = s
take_frame (open_result b error) s = fail_client s

abbrev pub is_stopped : Loop → Bool
is_stopped stopped = true
is_stopped _ = false

-- The server's loop behind the send of an answer.
unfoldable pub resume : Loop → Duplex → Duplex
resume (resetting reason) s = stop_server s
resume _ s = record s { server = serving }

-- The frame that a loop waits to send.
abbrev pub Answering : Loop → ServerPayload → Type 0
Answering (ponging millis) f = f ≡ pong millis
Answering (resetting reason) f = f ≡ server_reset reason
Answering _ f = ⊥

-- A round of one of the four tasks or of the call. A write may fail behind a part of its bytes. The
-- server's loop gives up waiting where nothing has arrived; it ends with its client's stream, or with
-- a status where the call is broken, and so does the client's loop. The call of a client whose
-- function has returned is dropped. A send fails where the call is broken, and at the client also
-- where the server has ended.
pub data Step (s u : Duplex) : Type 0 where
  client_outbound :
      (o : Outbound ClientPayload)
      → Round client_frame s.broken (s.broken || is_stopped s.server) s.up o
      → u ≡ record s { up = o }
      → Step s u
  server_outbound :
      (o : Outbound ServerPayload)
      → Round server_frame s.broken s.broken s.down o
      → u ≡ record s { down = o }
      → Step s u
  server_takes :
      (f : ClientPayload) (rest : List ClientPayload)
      → s.server ≡ serving
      → s.up.wire ≡ f ∷ rest
      → u ≡ serve f (record s { up = arrived rest s.up })
      → Step s u
  target_fails :
      (done missing : Bytes) (rest : List ClientPayload) (e : Text)
      → s.server ≡ serving
      → s.up.wire ≡ client_data (done ++ missing) ∷ rest
      → u ≡ record s {
        up = arrived rest s.up;
        target_got = s.target_got ++ done;
        server = resetting (codes "target write failed: " ++ e);
      }
      → Step s u
  server_answers :
      (f : ServerPayload)
      → Answering s.server f
      → s.broken ≡ false
      → length s.down.queue < outbound_queue
      → u ≡ resume s.server (record s { down = enqueue f s.down })
      → Step s u
  answer_fails :
      (f : ServerPayload)
      → Answering s.server f
      → s.broken ≡ true
      → u ≡ resume s.server s
      → Step s u
  server_idles :
      s.server ≡ serving
      → s.up.wire ≡ []
      → u ≡ record s { server = resetting (codes "idle timeout") }
      → Step s u
  server_fails :
      (status : Text)
      → s.server ≡ serving
      → s.broken ≡ true
      → u ≡ record s { target_closed = true; server = resetting status }
      → Step s u
  server_ends :
      s.server ≡ serving
      → s.up.wire ≡ []
      → s.up.queue ≡ []
      → HasEnded s.up.task
      → s.receiving ≡ false
      → u ≡ stop_server (record s { target_closed = true })
      → Step s u
  client_takes :
      (f : ServerPayload) (rest : List ServerPayload)
      → s.receiving ≡ true
      → s.down.wire ≡ f ∷ rest
      → u ≡ take_frame f (record s { down = arrived rest s.down })
      → Step s u
  local_fails :
      (done missing : Bytes) (rest : List ServerPayload)
      → s.receiving ≡ true
      → s.down.wire ≡ server_data (done ++ missing) ∷ rest
      → u ≡ fail_client (record s { down = arrived rest s.down; local_got = s.local_got ++ done })
      → Step s u
  shutdown_fails :
      (rest : List ServerPayload)
      → s.receiving ≡ true
      → s.down.wire ≡ server_half_close ∷ rest
      → u ≡ fail_client (record s { down = arrived rest s.down })
      → Step s u
  client_fails : s.receiving ≡ true → s.broken ≡ true → u ≡ fail_client s → Step s u
  client_ends :
      s.receiving ≡ true
      → s.down.wire ≡ []
      → s.down.queue ≡ []
      → s.server ≡ stopped
      → u ≡ stop_client s
      → Step s u
  call_dropped : s.receiving ≡ false → s.broken ≡ false → u ≡ record s { broken = true } → Step s u

-- The network may break the call between any two rounds.
pub data Reach (s : Duplex) : Duplex → Type 0 where
  here : Reach s s
  next : {t u : Duplex} → Reach s t → Step t u → Reach s u
  breaks : {t u : Duplex} → Reach s t → u ≡ record t { broken = true } → Reach s u

-- The tunnel as both ends have just opened it.
abbrev pub opened : List Read → List Read → Bytes → Duplex
opened local_reads target_reads first_payload = record {
  up = outbound local_reads;
  down = outbound target_reads;
  target_got = first_payload;
  target_closed = false;
  local_got = [];
  local_closed = false;
  receiving = true;
  server = serving;
  broken = false;
}
