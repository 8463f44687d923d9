-- ===== src/Outbound.antt =====
-- One direction of an open tunnel, in client/src/tunnel.rs and server/src/service.rs alike: the task
-- that reads a stream, the channel of `OUTBOUND_QUEUE` frames that it sends into, and the call that
-- takes the frames out and carries them.
pub mod Contents
pub mod Load
use ech_rust.Base.{ℕ, ◌<◌, ◌≡◌, Bool, true, false, List, [], ◌∷◌, ◌++◌, if◌then◌else◌, length}
use ech_rust.Service.{Read, chunk, eof, read_failed}

-- A task that reads its stream waits for the read; holds the frame of what it read until its send
-- returns, with whether the loop returns behind that send; has returned behind its last frame; or was
-- cut off, by an abort or by a send that failed.
pub data Task (F : Type 0) : Type 0 where
  waiting : Task F
  sending : F → Bool → Task F
  finished : Task F
  cut : Task F

-- What the stream still gives, the task, the frames in the channel and those that the call has
-- carried and the other side has not taken, oldest first.
pub record Outbound (F : Type 0) : Type 0 where
  pub reads : List Read
  pub task : Task F
  pub queue : List F
  pub wire : List F

abbrev pub outbound_queue : ℕ
outbound_queue = 64

-- Whether the loop of the reading task returns behind the send.
abbrev pub is_last : Read → Bool
is_last (chunk bytes) = false
is_last eof = true
is_last (read_failed e) = true

-- What the task can still read: nothing behind the end or an error.
abbrev pub unread : Read → List Read → List Read
unread (chunk bytes) rest = rest
unread eof rest = []
unread (read_failed e) rest = []

module _ {F : Type 0} where
  unfoldable pub read_stream : (Read → F) → Read → List Read → Outbound F → Outbound F
  read_stream frame r rest o = record o {
    reads = unread r rest;
    task = sending (frame r) (is_last r);
  }

  -- A frame is sent into the channel.
  unfoldable pub enqueue : F → Outbound F → Outbound F
  enqueue f o = record o { queue = o.queue ++ (f ∷ []) }

  -- The send of the task returns.
  unfoldable pub finish_send : F → Bool → Outbound F → Outbound F
  finish_send f last o = record o {
    queue = o.queue ++ (f ∷ []);
    task = if last then finished else waiting;
  }

  -- The send of the task fails: its frame is lost. The loop returns there too.
  unfoldable pub fail_send : Bool → Outbound F → Outbound F
  fail_send last o = record o { task = if last then finished else cut }

  -- The call takes a frame out of the channel.
  unfoldable pub carry : F → List F → Outbound F → Outbound F
  carry f rest o = record o { queue = rest; wire = o.wire ++ (f ∷ []) }

  -- The other side takes the first frame.
  abbrev pub arrived : List F → Outbound F → Outbound F
  arrived rest o = record o { wire = rest }

  abbrev pub abort_task : Task F → Task F
  abort_task finished = finished
  abort_task _ = cut

  -- `JoinHandle::abort`: what the task holds is lost.
  unfoldable pub abort : Outbound F → Outbound F
  abort o = record o { task = abort_task o.task }

  -- One round of the task or of the call. `broken` says that the call is over and nothing is carried
  -- any more, `gone` that a send may fail.
  pub data Round (frame : Read → F) (broken gone : Bool) (o u : Outbound F) : Type 0 where
    reads_next :
        (r : Read) (rest : List Read)
        → o.task ≡ waiting
        → o.reads ≡ r ∷ rest
        → u ≡ read_stream frame r rest o
        → Round frame broken gone o u
    send_returns :
        (f : F) (last : Bool)
        → o.task ≡ sending f last
        → broken ≡ false
        → length o.queue < outbound_queue
        → u ≡ finish_send f last o
        → Round frame broken gone o u
    send_fails :
        (f : F) (last : Bool)
        → o.task ≡ sending f last
        → gone ≡ true
        → u ≡ fail_send last o
        → Round frame broken gone o u
    carries :
        (f : F) (rest : List F)
        → broken ≡ false
        → o.queue ≡ f ∷ rest
        → u ≡ carry f rest o
        → Round frame broken gone o u

  -- The task has returned, or was aborted.
  abbrev pub HasEnded : Task F → Type 0
  HasEnded finished = Unit {0}
  HasEnded cut = Unit {0}
  HasEnded _ = ⊥

-- The direction as it is opened.
abbrev pub outbound : {F : Type 0} → List Read → Outbound F
outbound reads = record { reads = reads; task = waiting; queue = []; wire = [] }
