-- ===== src/Outbound/Contents.antt =====
-- Where the bytes of one direction of a tunnel are.
use mathlib.Core.List.{append_assoc, append-nil}
use ech_rust.Base.Text.{Bytes}
use ech_rust.Base.{
  ◌≡◌, refl, sym, ap, ◌∙◌, ◌⊎◌, inl, inr, Bool, true, false, List, [], ◌∷◌, ◌++◌, if◌then◌else◌,
}
use ech_rust.Outbound.{
  Task, waiting, sending, finished, cut, Outbound, is_last, unread, read_stream, enqueue,
  finish_send, fail_send, carry, arrived, abort, Round, reads_next, send_returns, send_fails,
  carries,
}
use ech_rust.Service.{Read, chunk}

-- What a stream gives until it ends or fails.
abbrev pub bytes_of : List Read → Bytes
bytes_of [] = []
bytes_of (chunk bytes ∷ reads) = bytes ++ bytes_of reads
bytes_of (_ ∷ reads) = []

module _ {F : Type 0} (content : F → Bytes) where
  abbrev pub contents : List F → Bytes
  contents [] = []
  contents (f ∷ fs) = content f ++ contents fs

  pub contents-append : (fs gs : List F) → contents (fs ++ gs) ≡ contents fs ++ contents gs
  contents-append [] gs = refl
  contents-append (f ∷ fs) gs =
      ap (λ t. content f ++ t) (contents-append fs gs)
      ∙ sym (append_assoc (content f) (contents fs) (contents gs))

  -- What a task in this state holds: a task that was not cut off has lost nothing, one that was cut
  -- off the data of at most one frame, and the last frame carries no data.
  abbrev pub Holds : Task F → Bytes → Type 0
  Holds waiting held = held ≡ []
  Holds (sending f last) held = (held ≡ content f) × (last ≡ true → content f ≡ [])
  Holds finished held = held ≡ []
  Holds cut held = (held ≡ []) ⊎ ((f : F) × (held ≡ content f))

  -- All bytes `whole` of a direction, in order: what the other side got; what it failed to write,
  -- which is nothing while its loop is `live`; the frames on the way; what the reading task holds, or
  -- lost where it was cut off; and what is still to be read.
  pub record Accounts (whole got : Bytes) (live : Bool) (o : Outbound F) : Type 0 where
    pub unwritten : Bytes
    pub held : Bytes
    pub total :
        whole
        ≡ got
          ++ (unwritten ++ (contents o.wire ++ (contents o.queue ++ (held ++ bytes_of o.reads))))
    pub all_written : live ≡ true → unwritten ≡ []
    pub holds : Holds o.task held

  module _ {whole got : Bytes} {live : Bool} where
    -- A frame without data is sent from elsewhere.
    pub enqueue-Accounts :
        (f : F) (o : Outbound F)
        → content f ≡ []
        → Accounts whole got live o
        → Accounts whole got live (enqueue f o)
    unfolding enqueue
    enqueue-Accounts f o none_in a = record {
      unwritten = a.unwritten;
      held = a.held;
      total = rw (contents-append o.queue (f ∷ []), none_in, append-nil (contents o.queue)) a.total;
      all_written = a.all_written;
      holds = a.holds;
    }

    pub abort-Accounts :
        (o : Outbound F) → Accounts whole got live o → Accounts whole got live (abort o)
    unfolding abort
    abort-Accounts o a = record {
      unwritten = a.unwritten;
      held = a.held;
      total = a.total;
      all_written = a.all_written;
      holds = go o.task a.holds;
    }
      where
        go :
            (t : Task F)
            → Holds t a.held
            → Holds (Outbound.task (abort (record o { task = t }))) a.held
        go waiting h = inl h
        go (sending f last) h = inr (f, h.0)
        go finished h = h
        go cut h = h

    -- The loop that takes the frames ends.
    pub stop-Accounts : (o : Outbound F) → Accounts whole got live o → Accounts whole got false o
    stop-Accounts o a = record {
      unwritten = a.unwritten;
      held = a.held;
      total = a.total;
      all_written = λ on. cc;
      holds = a.holds;
    }

  -- A frame is taken, and its data written.
  pub take-Accounts :
      {whole got : Bytes} (live : Bool) (f : F) (rest : List F) (o : Outbound F)
      → o.wire ≡ f ∷ rest
      → Accounts whole got true o
      → Accounts whole (got ++ content f) live (arrived rest o)
  take-Accounts {whole} {got} live f rest o e a =
      let behind = contents o.queue ++ (a.held ++ bytes_of o.reads) in
      record {
        unwritten = [];
        held = a.held;
        total =
            a.total
            ∙ ap (λ l. got ++ (l ++ (contents o.wire ++ behind))) (a.all_written refl)
            ∙ ap (λ l. got ++ (contents l ++ behind)) e
            ∙ simp append_assoc;
        all_written = λ on. refl;
        holds = a.holds;
      }

  -- A frame is taken, and the write fails after a part of its data.
  pub fail-Accounts :
      {whole got : Bytes} (done missing : Bytes) (f : F) (rest : List F) (o : Outbound F)
      → o.wire ≡ f ∷ rest
      → content f ≡ done ++ missing
      → Accounts whole got true o
      → Accounts whole (got ++ done) false (arrived rest o)
  fail-Accounts {whole} {got} done missing f rest o e split a =
      let behind = contents o.queue ++ (a.held ++ bytes_of o.reads) in
      record {
        unwritten = missing;
        held = a.held;
        total =
            a.total
            ∙ ap (λ l. got ++ (l ++ (contents o.wire ++ behind))) (a.all_written refl)
            ∙ ap (λ l. got ++ (contents l ++ behind)) e
            ∙ ap (λ l. got ++ ((l ++ contents rest) ++ behind)) split
            ∙ simp append_assoc;
        all_written = λ on. cc;
        holds = a.holds;
      }

  -- The frame of each read carries its data, and the last one none.
  abbrev pub Frames : (Read → F) → Type 0
  Frames frame =
      (r : Read)
      → (rest : List Read)
      → (content (frame r) ++ bytes_of (unread r rest) ≡ bytes_of (r ∷ rest))
        × (is_last r ≡ true → content (frame r) ≡ [])

  pub Round-Accounts :
      {whole got : Bytes} {live : Bool} (frame : Read → F) (broken gone : Bool) (o u : Outbound F)
      → Frames frame
      → Round frame broken gone o u
      → Accounts whole got live o
      → Accounts whole got live u
  unfolding read_stream finish_send fail_send carry
  Round-Accounts {whole} {got} {live} frame broken gone o u law (reads_next r rest t e made) a =
      let front = contents o.wire in
      let free : a.held ≡ [] = rw t at a.holds in
      rw made (record {
        unwritten = a.unwritten;
        held = content (frame r);
        total =
            a.total
            ∙ ap
                (λ l.
                  got ++ (a.unwritten ++ (front ++ (contents o.queue ++ (l ++ bytes_of o.reads)))))
                free
            ∙ ap (λ l. got ++ (a.unwritten ++ (front ++ (contents o.queue ++ bytes_of l)))) e
            ∙ ap (λ l. got ++ (a.unwritten ++ (front ++ (contents o.queue ++ l))))
                (sym (law r rest).0);
        all_written = a.all_written;
        holds = (refl, (law r rest).1);
      })
  Round-Accounts {whole} {got} {live} frame broken gone o u law (send_returns f last t up room made)
        a =
      let h : Holds (sending f last) a.held = rw t at a.holds in
      rw made (record {
        unwritten = a.unwritten;
        held = [];
        total =
            a.total
            ∙ ap
                (λ l.
                  got
                  ++ (a.unwritten
                      ++ (contents o.wire ++ (contents o.queue ++ (l ++ bytes_of o.reads)))))
                h.0
            ∙ simp (contents-append, append_assoc, append-nil);
        all_written = a.all_written;
        holds = go last;
      })
    where
      go : (b : Bool) → Holds (if b then finished else waiting) []
      go true = refl
      go false = refl
  Round-Accounts {whole} {got} {live} frame broken gone o u law (send_fails f last t off made) a =
      let h : Holds (sending f last) a.held = rw t at a.holds in
      rw made (record {
        unwritten = a.unwritten;
        held = a.held;
        total = a.total;
        all_written = a.all_written;
        holds = go last h;
      })
    where
      go : (b : Bool) → Holds (sending f b) a.held → Holds (if b then finished else cut) a.held
      go true h = h.0 ∙ h.1 refl
      go false h = inr (f, h.0)
  Round-Accounts {whole} {got} {live} frame broken gone o u law (carries f rest up e made) a =
      let behind = a.held ++ bytes_of o.reads in
      rw made (record {
        unwritten = a.unwritten;
        held = a.held;
        total =
            a.total
            ∙ ap (λ l. got ++ (a.unwritten ++ (contents o.wire ++ (contents l ++ behind)))) e
            ∙ simp (contents-append, append_assoc, append-nil);
        all_written = a.all_written;
        holds = a.holds;
      })
