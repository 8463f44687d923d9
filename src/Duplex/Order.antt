-- ===== src/Duplex/Order.antt =====
-- In which order the frames of the local stream are on their way.
use mathlib.Core.Path.{subst}
use mathlib.Core.List.{append_assoc, append-nil}
use ech_rust.Base.{
  ◌≡◌, refl, sym, Bool, true, false, List, [], ◌∷◌, ◌++◌, All, All-append, if◌then◌else◌,
}
use ech_rust.Duplex.{client_frame}
use ech_rust.Outbound.{
  Task, waiting, sending, finished, cut, Outbound, is_last, read_stream, finish_send, fail_send,
  carry, abort, arrived, Round, reads_next, send_returns, send_fails, carries,
}
use ech_rust.Proto.{ClientPayload, client_data, client_half_close, client_reset, ping, open_target}
use ech_rust.Service.{Read, chunk, eof, read_failed}

abbrev pub IsData : ClientPayload → Type 0
IsData (client_data bytes) = Unit {0}
IsData _ = ⊥

-- Data frames, and at most one other frame behind them.
abbrev pub IsOrdered : List ClientPayload → Type 0
IsOrdered [] = Unit {0}
IsOrdered (client_data bytes ∷ fs) = IsOrdered fs
IsOrdered (_ ∷ fs) = fs ≡ []

data-IsOrdered :
    (fs : List ClientPayload) (f : ClientPayload) → All IsData fs → IsOrdered (fs ++ f ∷ [])
data-IsOrdered [] (client_data bytes) h = tt
data-IsOrdered [] client_half_close h = refl
data-IsOrdered [] (client_reset reason) h = refl
data-IsOrdered [] (ping millis) h = refl
data-IsOrdered [] (open_target o) h = refl
data-IsOrdered (client_data bytes ∷ fs) f h = data-IsOrdered fs f h.1
data-IsOrdered (client_half_close ∷ fs) f h = absurd h.0
data-IsOrdered (client_reset reason ∷ fs) f h = absurd h.0
data-IsOrdered (ping millis ∷ fs) f h = absurd h.0
data-IsOrdered (open_target o ∷ fs) f h = absurd h.0

IsOrdered-tail : (f : ClientPayload) (fs : List ClientPayload) → IsOrdered (f ∷ fs) → IsOrdered fs
IsOrdered-tail (client_data bytes) fs h = h
IsOrdered-tail client_half_close fs h = rw h tt
IsOrdered-tail (client_reset reason) fs h = rw h tt
IsOrdered-tail (ping millis) fs h = rw h tt
IsOrdered-tail (open_target o) fs h = rw h tt

nil-front : (fs gs : List ClientPayload) → fs ++ gs ≡ [] → fs ≡ []
nil-front [] gs h = refl
nil-front (f ∷ fs) gs h = cc

pub IsOrdered-front : (fs gs : List ClientPayload) → IsOrdered (fs ++ gs) → IsOrdered fs
IsOrdered-front [] gs h = tt
IsOrdered-front (client_data bytes ∷ fs) gs h = IsOrdered-front fs gs h
IsOrdered-front (client_half_close ∷ fs) gs h = nil-front fs gs h
IsOrdered-front (client_reset reason ∷ fs) gs h = nil-front fs gs h
IsOrdered-front (ping millis ∷ fs) gs h = nil-front fs gs h
IsOrdered-front (open_target o ∷ fs) gs h = nil-front fs gs h

abbrev pub pending : Task ClientPayload → List ClientPayload
pending (sending f last) = f ∷ []
pending _ = []

-- The frames on their way, with the one that the task holds.
abbrev pub line : Outbound ClientPayload → List ClientPayload
line o = (o.wire ++ o.queue) ++ pending o.task

-- A task that will send more has data before it only.
abbrev pub OpenEnd : Task ClientPayload → List ClientPayload → Type 0
OpenEnd waiting fs = All IsData fs
OpenEnd (sending f false) fs = All IsData fs
OpenEnd _ fs = Unit {0}

pub record IsQueued (o : Outbound ClientPayload) : Type 0 where
  pub ordered : IsOrdered (line o)
  pub open_end : OpenEnd o.task (line o)

OpenEnd-read :
    (r : Read) (fs : List ClientPayload)
    → All IsData fs
    → OpenEnd (sending (client_frame r) (is_last r)) (fs ++ client_frame r ∷ [])
unfolding client_frame
OpenEnd-read (chunk bytes) fs h = All-append IsData fs (client_data bytes ∷ []) h (tt, tt)
OpenEnd-read eof fs h = tt
OpenEnd-read (read_failed e) fs h = tt

OpenEnd-sent :
    (f : ClientPayload) (last : Bool) (fs gs : List ClientPayload)
    → fs ≡ gs
    → OpenEnd (sending f last) fs
    → OpenEnd (if last then finished else waiting) gs
OpenEnd-sent f true fs gs e h = tt
OpenEnd-sent f false fs gs e h = subst (All IsData) e h

no_pending : (last : Bool) → pending (if last then finished else waiting) ≡ []
no_pending true = refl
no_pending false = refl

no_pending_cut : (last : Bool) → pending (if last then finished else cut) ≡ []
no_pending_cut true = refl
no_pending_cut false = refl

OpenEnd-cut : (last : Bool) (fs : List ClientPayload) → OpenEnd (if last then finished else cut) fs
OpenEnd-cut true fs = tt
OpenEnd-cut false fs = tt

pub Round-IsQueued :
    (broken gone : Bool) (o u : Outbound ClientPayload)
    → Round client_frame broken gone o u
    → IsQueued o
    → IsQueued u
unfolding read_stream finish_send fail_send carry
Round-IsQueued broken gone o u (reads_next r rest t e made) q =
    let bare : (o.wire ++ o.queue) ++ pending o.task ≡ o.wire ++ o.queue =
      rw t (append-nil (o.wire ++ o.queue)) in
    let all : All IsData (o.wire ++ o.queue) =
      subst (All IsData) bare (subst (λ k. OpenEnd k (line o)) t q.open_end) in
    rw made (record {
      ordered = data-IsOrdered (o.wire ++ o.queue) (client_frame r) all;
      open_end = OpenEnd-read r (o.wire ++ o.queue) all;
    })
Round-IsQueued broken gone o u (send_returns f last t up room made) q =
    let moved : (o.wire ++ o.queue) ++ pending o.task
        ≡ (o.wire ++ (o.queue ++ f ∷ [])) ++ pending (if last then finished else waiting) =
      rw (t, no_pending last) (simp (append_assoc, append-nil)) in
    rw made (record {
      ordered = subst IsOrdered moved q.ordered;
      open_end =
          OpenEnd-sent f last (line o) _ moved (subst (λ k. OpenEnd k (line o)) t q.open_end);
    })
Round-IsQueued broken gone o u (send_fails f last t off made) q =
    let none_left : o.wire ++ o.queue
        ≡ (o.wire ++ o.queue) ++ pending (if last then finished else cut) =
      rw (no_pending_cut last) (sym (append-nil (o.wire ++ o.queue))) in
    rw made (record {
      ordered =
          subst IsOrdered none_left
            (IsOrdered-front (o.wire ++ o.queue) (pending o.task) q.ordered);
      open_end = OpenEnd-cut last _;
    })
Round-IsQueued broken gone o u (carries f rest up e made) q =
    let moved : (o.wire ++ o.queue) ++ pending o.task
        ≡ ((o.wire ++ f ∷ []) ++ rest) ++ pending o.task =
      rw e (simp append_assoc) in
    rw made (record {
      ordered = subst IsOrdered moved q.ordered;
      open_end = subst (OpenEnd o.task) moved q.open_end;
    })

OpenEnd-tail :
    (t : Task ClientPayload) (f : ClientPayload) (fs : List ClientPayload)
    → OpenEnd t (f ∷ fs)
    → OpenEnd t fs
OpenEnd-tail waiting f fs h = h.1
OpenEnd-tail (sending g false) f fs h = h.1
OpenEnd-tail (sending g true) f fs h = tt
OpenEnd-tail finished f fs h = tt
OpenEnd-tail cut f fs h = tt

pub arrived-IsQueued :
    (f : ClientPayload) (rest : List ClientPayload) (o : Outbound ClientPayload)
    → o.wire ≡ f ∷ rest
    → IsQueued o
    → IsQueued (arrived rest o)
arrived-IsQueued f rest o e q =
    let front : line o ≡ f ∷ line (arrived rest o) = rw e refl in
    record {
      ordered = IsOrdered-tail f _ (subst IsOrdered front q.ordered);
      open_end = OpenEnd-tail o.task f _ (subst (OpenEnd o.task) front q.open_end);
    }

pub abort-IsQueued : (o : Outbound ClientPayload) → IsQueued o → IsQueued (abort o)
unfolding abort
abort-IsQueued o q = go o.task refl
  where
    front : IsOrdered ((o.wire ++ o.queue) ++ [])
    front =
        subst IsOrdered (sym (append-nil (o.wire ++ o.queue)))
          (IsOrdered-front (o.wire ++ o.queue) (pending o.task) q.ordered)

    go : (t : Task ClientPayload) → o.task ≡ t → IsQueued (abort (record o { task = t }))
    go waiting e = record { ordered = front; open_end = tt }
    go (sending f last) e = record { ordered = front; open_end = tt }
    go finished e = record { ordered = front; open_end = tt }
    go cut e = record { ordered = front; open_end = tt }
