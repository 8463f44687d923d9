-- ===== src/Duplex/Progress.antt =====
-- How the local stream's bytes get to the target, one step after the other.
use mathlib.Core.Path.{subst}
use mathlib.Core.List.{append-nil}
use ech_rust.Base.Text.{Bytes}
use ech_rust.Base.{
  ◌≡◌, refl, sym, ◌∙◌, Bool, true, false, List, [], ◌∷◌, ◌++◌, arith, if◌then◌else◌,
}
use ech_rust.Duplex.Delivery.{client_content, Accounted, Reach-accounts}
use ech_rust.Duplex.Ends.{Reach-append}
use ech_rust.Duplex.Order.{IsOrdered, pending, IsOrdered-front}
use ech_rust.Duplex.Queued.{Reach-IsQueued}
use ech_rust.Duplex.{
  serving, Duplex, client_frame, serve, Step, client_outbound, server_takes, Reach, here, next,
  opened,
}
use ech_rust.Outbound.Contents.{bytes_of, contents, Holds}
use ech_rust.Outbound.{
  Task, waiting, sending, finished, cut, is_last, unread, read_stream, finish_send, carry, arrived,
  reads_next, send_returns, carries,
}
use ech_rust.Proto.{ClientPayload, client_data, client_half_close, client_reset, ping, open_target}
use ech_rust.Service.{Read, chunk, eof, read_failed}

-- The server takes frames and the call carries them.
record IsOpen (s : Duplex) : Type 0 where
  takes : s.server ≡ serving
  stands : s.broken ≡ false

-- A state that can be reached, where the tunnel is still open.
abbrev Reached : (Duplex → Type 0) → Duplex → Type 0
Reached P s = (t : Duplex) × Reach s t × IsOpen t × P t

Reached-then :
    (P Q : Duplex → Type 0) (s : Duplex)
    → Reached P s
    → ((t : Duplex) → IsOpen t → P t → Reached Q t)
    → Reached Q s
Reached-then P Q s (t, r, open_still, p) go =
    let (u, more, last, q) = go t open_still p in (u, Reach-append r more, last, q)

-- One round in front.
Reached-step : (P : Duplex → Type 0) (s t : Duplex) → Step s t → Reached P t → Reached P s
Reached-step P s t step (u, more, last, p) = (u, Reach-append (next here step) more, last, p)

-- The task of the local stream as it is, and an empty channel.
abbrev Carried : Task ClientPayload → List Read → Duplex → Type 0
Carried task reads s = (s.up.task ≡ task) × (s.up.reads ≡ reads) × (s.up.queue ≡ [])

-- The call takes all frames out of the channel.
carry_all :
    (fs : List ClientPayload) (s : Duplex)
    → s.up.queue ≡ fs
    → IsOpen s
    → Reached (Carried s.up.task s.up.reads) s
unfolding carry
carry_all [] s e o = (s, here, o, (refl, refl, e))
carry_all (f ∷ fs) s e o =
    let after = carry f fs s.up in
    let t : Duplex = record s { up = after } in
    let step : Step s t = client_outbound after (carries f fs o.stands e refl) refl in
    Reached-step (Carried s.up.task s.up.reads) s t step
      (carry_all fs t refl (record { takes = o.takes; stands = o.stands }))

-- The task sends the frame that it holds, and the call takes it.
send_on :
    (f : ClientPayload) (last : Bool) (reads : List Read) (s : Duplex)
    → Carried (sending f last) reads s
    → IsOpen s
    → Reached (Carried (if last then finished else waiting) reads) s
unfolding finish_send
send_on f last reads s (task, rest, empty) o =
    let after = finish_send f last s.up in
    let t : Duplex = record s { up = after } in
    let step : Step s t =
      client_outbound after (send_returns f last task o.stands (rw empty (omega arith)) refl)
        refl in
    Reached-step (Carried (if last then finished else waiting) reads) s t step (
      subst (λ l. Reached (Carried (if last then finished else waiting) l) t) rest
        (carry_all (s.up.queue ++ f ∷ []) t refl (record { takes = o.takes; stands = o.stands })))

-- A task that holds nothing, and lost nothing.
abbrev IsFree : Task ClientPayload → Type 0
IsFree waiting = Unit {0}
IsFree finished = Unit {0}
IsFree _ = ⊥

-- Nothing is left to read or to send.
abbrev IsSent : Duplex → Type 0
IsSent s = IsFree s.up.task × (s.up.queue ≡ []) × (bytes_of s.up.reads ≡ [])

-- A task that was not cut off, and has nothing left to read behind its last frame.
abbrev pub ReadsOn : Task ClientPayload → List Read → Type 0
ReadsOn waiting reads = Unit {0}
ReadsOn (sending f last) reads = last ≡ true → reads ≡ []
ReadsOn finished reads = reads ≡ []
ReadsOn cut reads = ⊥

-- The task reads to the end of its stream.
read_all : (reads : List Read) (s : Duplex) → Carried waiting reads s → IsOpen s → Reached IsSent s
unfolding read_stream
read_all [] s (task, rest, empty) o = (s, here, o, (rw task tt, empty, rw rest refl))
read_all (r ∷ rest) s (task, left, empty) o = Reached-step IsSent s t step (
    Reached-then (Carried (if is_last r then finished else waiting) (unread r rest)) IsSent t
      (send_on (client_frame r) (is_last r) (unread r rest) t (refl, refl, empty)
        (record { takes = o.takes; stands = o.stands }))
      (λ u open_still p. go r (read_all rest u) open_still p))
  where
    t : Duplex
    t = record s { up = read_stream client_frame r rest s.up }

    step : Step s t
    step =
        client_outbound (read_stream client_frame r rest s.up) (reads_next r rest task left refl)
          refl

    go :
        (r : Read) {u : Duplex}
        → (Carried waiting rest u → IsOpen u → Reached IsSent u)
        → IsOpen u
        → Carried (if is_last r then finished else waiting) (unread r rest) u
        → Reached IsSent u
    go (chunk bytes) {u} again k p = again p k
    go eof {u} again k (done, none_left, empty) =
        (u, here, k, (rw done tt, empty, rw none_left refl))
    go (read_failed e) {u} again k (done, none_left, empty) =
        (u, here, k, (rw done tt, empty, rw none_left refl))

-- All that the task holds and can read is sent and carried.
send_all :
    (t : Task ClientPayload) (reads : List Read) (s : Duplex)
    → ReadsOn t reads
    → Carried t reads s
    → IsOpen s
    → Reached IsSent s
send_all waiting reads s h c o = read_all reads s c o
send_all (sending f true) reads s h c o =
    Reached-then (Carried finished reads) IsSent s (send_on f true reads s c o)
      (λ t k p. (t, here, k, (rw p.0 tt, p.2, rw (p.1, h refl) refl)))
send_all (sending f false) reads s h c o =
    Reached-then (Carried waiting reads) IsSent s (send_on f false reads s c o)
      (λ t k p. read_all reads t p k)
send_all finished reads s h (done, rest, empty) o =
    (s, here, o, (rw done tt, empty, rw (rest, h) refl))
send_all cut reads s h c o = absurd h

-- The server has taken all the data.
abbrev IsTaken : Duplex → Type 0
IsTaken s = IsSent s × (contents client_content s.up.wire ≡ [])

take_all :
    (fs : List ClientPayload) (s : Duplex)
    → s.up.wire ≡ fs
    → IsOrdered fs
    → IsSent s
    → IsOpen s
    → Reached IsTaken s
unfolding serve
take_all [] s e order p o = (s, here, o, (p, rw e refl))
take_all (client_data bytes ∷ fs) s e order p o =
    let t : Duplex = serve (client_data bytes) (record s { up = arrived fs s.up }) in
    Reached-step IsTaken s t (server_takes (client_data bytes) fs o.takes e refl)
      (take_all fs t refl order p (record { takes = o.takes; stands = o.stands }))
take_all (client_half_close ∷ fs) s e order p o = (s, here, o, (p, rw (e, order) refl))
take_all (client_reset reason ∷ fs) s e order p o = (s, here, o, (p, rw (e, order) refl))
take_all (ping millis ∷ fs) s e order p o = (s, here, o, (p, rw (e, order) refl))
take_all (open_target q ∷ fs) s e order p o = (s, here, o, (p, rw (e, order) refl))

free_holds :
    (t : Task ClientPayload) (held : Bytes) → IsFree t → Holds client_content t held → held ≡ []
free_holds waiting held free h = h
free_holds (sending f last) held free h = absurd free
free_holds finished held free h = h
free_holds cut held free h = absurd free

taken_all :
    (whole down : Bytes) (s : Duplex)
    → Accounted whole down s
    → IsOpen s
    → IsTaken s
    → s.target_got ≡ whole
taken_all whole down s accounted o ((free, empty, read), taken) =
    let a = accounted.upward in
    let written : a.unwritten ≡ [] = a.all_written (rw o.takes refl) in
    let held : a.held ≡ [] = free_holds s.up.task a.held free a.holds in
    sym (a.total ∙ rw (written, taken, empty, held, read) (append-nil s.target_got))

-- From each moment at which the server's loop takes frames, the call stands, and the client's task
-- was not cut off (and has nothing left to read behind its last frame), some run delivers to the
-- target the whole first payload and all that the local stream gives.
pub Reach-delivers :
    (local_reads target_reads : List Read) (first_payload : Bytes) {s : Duplex}
    → Reach (opened local_reads target_reads first_payload) s
    → s.server ≡ serving
    → s.broken ≡ false
    → ReadsOn s.up.task s.up.reads
    → (t : Duplex) × Reach s t × (t.target_got ≡ first_payload ++ bytes_of local_reads)
Reach-delivers local_reads target_reads first_payload {s} r takes stands on =
    let start = opened local_reads target_reads first_payload in
    let (a, ra, oa, ca) = carry_all s.up.queue s refl (record { takes = takes; stands = stands }) in
    let (b, rb, ob, cb) = send_all s.up.task s.up.reads a on ca oa in
    let there : Reach start b = Reach-append r (Reach-append ra rb) in
    let q = Reach-IsQueued local_reads target_reads first_payload b there in
    let order =
      IsOrdered-front b.up.wire b.up.queue
        (IsOrdered-front (b.up.wire ++ b.up.queue) (pending b.up.task) q.ordered) in
    let (c, rc, oc, tc) = take_all b.up.wire b refl order cb ob in
    let whole = Reach-accounts local_reads target_reads first_payload (Reach-append there rc) in
    (
      c,
      Reach-append (Reach-append ra rb) rc,
      taken_all (first_payload ++ bytes_of local_reads) (bytes_of target_reads) c whole oc tc,
    )
