-- ===== src/Outbound/Load.antt =====
-- How many rounds one direction of a tunnel can still make.
use ech_rust.Base.{
  ℕ, ◌+◌, ◌*◌, ◌≤◌, ◌<◌, ◌≡◌, refl, Bool, true, false, List, [], ◌∷◌, ◌++◌, length, length-append,
  arith, if◌then◌else◌,
}
use ech_rust.Outbound.{
  Task, waiting, sending, finished, cut, Outbound, unread, read_stream, enqueue, finish_send,
  fail_send, carry, abort, Round, reads_next, send_returns, send_fails, carries, HasEnded,
}
use ech_rust.Service.{Read, chunk, eof, read_failed}

length-unread : (r : Read) (rest : List Read) → length (unread r rest) ≤ length rest
length-unread (chunk bytes) rest = omega arith
length-unread eof rest = omega arith
length-unread (read_failed e) rest = omega arith

module _ {F : Type 0} where
  abbrev pub held_frames : Task F → ℕ
  held_frames (sending f last) = 1
  held_frames _ = 0

  -- The rounds that are left: to read, to send and to carry.
  abbrev pub load : Outbound F → ℕ
  load o = 3 * length o.reads + 2 * held_frames o.task + length o.queue

  -- The frames that can still arrive at the other side.
  abbrev pub frames : Outbound F → ℕ
  frames o = length o.reads + held_frames o.task + length o.queue + length o.wire

  pub Round-load :
      (frame : Read → F) (broken gone : Bool) (o u : Outbound F)
      → Round frame broken gone o u
      → (load u < load o) × (frames u ≤ frames o)
  unfolding read_stream finish_send fail_send carry
  Round-load frame broken gone o u (reads_next r rest t e made) =
      let shorter = length-unread r rest in rw (made, t, e) (omega arith, omega arith)
  Round-load frame broken gone o u (send_returns f last t up room made) = rw (made, t) (go last)
    where
      go :
          (b : Bool)
          → (3 * length o.reads
                + 2 * held_frames (if b then finished else waiting)
                + length (o.queue ++ (f ∷ []))
              < 3 * length o.reads + 2 * 1 + length o.queue)
            × (length o.reads
                  + held_frames (if b then finished else waiting)
                  + length (o.queue ++ (f ∷ []))
                  + length o.wire
                ≤ length o.reads + 1 + length o.queue + length o.wire)
      go true = (
        omega (arith, length-append o.queue (f ∷ [])),
        omega (arith, length-append o.queue (f ∷ [])),
      )
      go false = (
        omega (arith, length-append o.queue (f ∷ [])),
        omega (arith, length-append o.queue (f ∷ [])),
      )
  Round-load frame broken gone o u (send_fails f last t off made) = rw (made, t) (go last)
    where
      go :
          (b : Bool)
          → (3 * length o.reads + 2 * held_frames (if b then finished else cut) + length o.queue
              < 3 * length o.reads + 2 * 1 + length o.queue)
            × (length o.reads
                  + held_frames (if b then finished else cut)
                  + length o.queue
                  + length o.wire
                ≤ length o.reads + 1 + length o.queue + length o.wire)
      go true = (omega arith, omega arith)
      go false = (omega arith, omega arith)
  Round-load frame broken gone o u (carries f rest up e made) =
      let more = length-append o.wire (f ∷ []) in rw (made, e) (omega arith, omega arith)

  pub abort-load : (o : Outbound F) → (load (abort o) ≤ load o) × (frames (abort o) ≤ frames o)
  unfolding abort
  abort-load o = go o.task
    where
      go :
          (t : Task F)
          → let s : Outbound F = record o { task = t } in
            (load (abort s) ≤ load s) × (frames (abort s) ≤ frames s)
      go waiting = (omega arith, omega arith)
      go (sending f last) = (omega arith, omega arith)
      go finished = (omega arith, omega arith)
      go cut = (omega arith, omega arith)

  pub enqueue-load :
      (f : F) (o : Outbound F)
      → (load (enqueue f o) ≡ load o + 1) × (frames (enqueue f o) ≡ frames o + 1)
  unfolding enqueue
  enqueue-load f o = let more = length-append o.queue (f ∷ []) in (omega arith, omega arith)

  pub abort-HasEnded : (o : Outbound F) → HasEnded (Outbound.task (abort o))
  unfolding abort
  abort-HasEnded o = go o.task
    where
      go : (t : Task F) → HasEnded (Outbound.task (abort (record o { task = t })))
      go waiting = tt
      go (sending f last) = tt
      go finished = tt
      go cut = tt

  -- A task that has ended reads no more.
  pub Round-HasEnded :
      (frame : Read → F) (broken gone : Bool) (o u : Outbound F)
      → Round frame broken gone o u
      → HasEnded o.task
      → HasEnded u.task × (u.reads ≡ o.reads)
  unfolding carry
  Round-HasEnded frame broken gone o u (reads_next r rest t e made) h = absurd (rw t at h)
  Round-HasEnded frame broken gone o u (send_returns f last t up room made) h = absurd (rw t at h)
  Round-HasEnded frame broken gone o u (send_fails f last t off made) h = absurd (rw t at h)
  Round-HasEnded frame broken gone o u (carries f rest up e made) h = rw made (h, refl)
