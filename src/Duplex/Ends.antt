-- ===== src/Duplex/Ends.antt =====
-- What the target misses where the client stops first.
use mathlib.Core.List.{append_assoc}
use ech_rust.Base.Text.{Bytes}
use ech_rust.Base.{◌≡◌, refl, sym, ap, ◌∙◌, true, false, List, ◌∷◌, ◌++◌, ◌||◌}
use ech_rust.Duplex.Delivery.{client_content, Reach-accounts}
use ech_rust.Duplex.{
  Loop, serving, ponging, resetting, stopped, Duplex, client_frame, serve, take_frame, is_stopped,
  resume, Step, client_outbound, server_outbound, server_takes, target_fails, server_answers,
  answer_fails, server_idles, server_fails, server_ends, client_takes, local_fails, shutdown_fails,
  client_fails, client_ends, call_dropped, Reach, here, next, breaks, opened,
}
use ech_rust.Outbound.Contents.{bytes_of, contents}
use ech_rust.Outbound.Load.{abort-HasEnded, Round-HasEnded}
use ech_rust.Outbound.{enqueue, abort, arrived, HasEnded}
use ech_rust.Proto.{
  ClientPayload, client_data, client_half_close, client_reset, ping, open_target, ServerPayload,
  server_data, server_half_close, server_reset, pong, open_result,
}
use ech_rust.Service.{Read}

-- The client's reading task has ended, with `reads` left in the local stream.
record IsCut (reads : List Read) (s : Duplex) : Type 0 where
  ended : HasEnded s.up.task
  left : s.up.reads ≡ reads

module _ {reads : List Read} where
  serve-IsCut : (f : ClientPayload) (s : Duplex) → IsCut reads s → IsCut reads (serve f s)
  unfolding serve
  serve-IsCut (client_data bytes) s c = record { ended = c.ended; left = c.left }
  serve-IsCut client_half_close s c = record { ended = c.ended; left = c.left }
  serve-IsCut (client_reset reason) s c = record { ended = c.ended; left = c.left }
  serve-IsCut (ping millis) s c = record { ended = c.ended; left = c.left }
  serve-IsCut (open_target o) s c = record { ended = c.ended; left = c.left }

  stop_client-IsCut :
      (s : Duplex)
      → IsCut reads s
      → IsCut reads (record s { local_closed = true; receiving = false; up = abort s.up })
  unfolding abort
  stop_client-IsCut s c = record { ended = abort-HasEnded s.up; left = c.left }

  take_frame-IsCut : (f : ServerPayload) (s : Duplex) → IsCut reads s → IsCut reads (take_frame f s)
  unfolding take_frame
  take_frame-IsCut (server_data bytes) s c = record { ended = c.ended; left = c.left }
  take_frame-IsCut server_half_close s c =
      let stopped_now = stop_client-IsCut s c in
      record { ended = stopped_now.ended; left = stopped_now.left }
  take_frame-IsCut (server_reset reason) s c = record { ended = c.ended; left = c.left }
  take_frame-IsCut (pong millis) s c = c
  take_frame-IsCut (open_result b error) s c = record { ended = c.ended; left = c.left }

  resume-IsCut : (l : Loop) (s : Duplex) → IsCut reads s → IsCut reads (resume l s)
  unfolding resume
  resume-IsCut serving s c = record { ended = c.ended; left = c.left }
  resume-IsCut (ponging millis) s c = record { ended = c.ended; left = c.left }
  resume-IsCut (resetting reason) s c = record { ended = c.ended; left = c.left }
  resume-IsCut stopped s c = record { ended = c.ended; left = c.left }

  Step-IsCut : {s u : Duplex} → Step s u → IsCut reads s → IsCut reads u
  Step-IsCut {s} {u} (client_outbound o r made) c =
      let (still, same) =
        Round-HasEnded client_frame s.broken (s.broken || is_stopped s.server) s.up o r c.ended in
      rw made (record { ended = still; left = same ∙ c.left })
  Step-IsCut {s} {u} (server_outbound o r made) c =
      rw made (record { ended = c.ended; left = c.left })
  Step-IsCut {s} {u} (server_takes f rest on e made) c = rw made (
      serve-IsCut f (record s { up = arrived rest s.up })
        (record { ended = c.ended; left = c.left }))
  Step-IsCut {s} {u} (target_fails done missing rest x on e made) c =
      rw made (record { ended = c.ended; left = c.left })
  Step-IsCut {s} {u} (server_answers f a up_still room made) c = rw made (
      resume-IsCut s.server (record s { down = enqueue f s.down })
        (record { ended = c.ended; left = c.left }))
  Step-IsCut {s} {u} (answer_fails f a off made) c = rw made (resume-IsCut s.server s c)
  Step-IsCut {s} {u} (server_idles on e made) c =
      rw made (record { ended = c.ended; left = c.left })
  Step-IsCut {s} {u} (server_fails status on off made) c =
      rw made (record { ended = c.ended; left = c.left })
  Step-IsCut {s} {u} (server_ends on e q t off made) c =
      rw made (record { ended = c.ended; left = c.left })
  Step-IsCut {s} {u} (client_takes f rest on e made) c = rw made (
      take_frame-IsCut f (record s { down = arrived rest s.down })
        (record { ended = c.ended; left = c.left }))
  Step-IsCut {s} {u} (local_fails done missing rest on e made) c =
      rw made (record { ended = c.ended; left = c.left })
  Step-IsCut {s} {u} (shutdown_fails rest on e made) c =
      rw made (record { ended = c.ended; left = c.left })
  Step-IsCut {s} {u} (client_fails on off made) c =
      rw made (record { ended = c.ended; left = c.left })
  Step-IsCut {s} {u} (client_ends on e q off made) c =
      let stopped_now = stop_client-IsCut s c in
      rw made (record { ended = stopped_now.ended; left = stopped_now.left })
  Step-IsCut {s} {u} (call_dropped off still made) c =
      rw made (record { ended = c.ended; left = c.left })

  Reach-IsCut : {s t : Duplex} → Reach s t → IsCut reads s → IsCut reads t
  Reach-IsCut here c = c
  Reach-IsCut (next r step) c = Step-IsCut step (Reach-IsCut r c)
  Reach-IsCut (breaks r made) c =
      let before = Reach-IsCut r c in rw made (record { ended = before.ended; left = before.left })

pub Reach-append : {s t u : Duplex} → Reach s t → Reach t u → Reach s u
Reach-append r here = r
Reach-append r (next more step) = next (Reach-append r more) step
Reach-append r (breaks more made) = breaks (Reach-append r more) made

take_half-IsCut : (s : Duplex) → IsCut s.up.reads (take_frame server_half_close s)
unfolding take_frame abort
take_half-IsCut s = record { ended = abort-HasEnded s.up; left = refl }

-- The client takes the half-close of the target's side: from then on nothing more is read from the
-- local stream, and in every run what the target gets, with some bytes behind it, is the first
-- payload and the local stream's bytes without those that were still to be read.
pub Reach-cut :
    (up down : List Read) (first : Bytes) {s u t : Duplex} (rest : List ServerPayload)
    → Reach (opened up down first) s
    → s.receiving ≡ true
    → s.down.wire ≡ server_half_close ∷ rest
    → u ≡ take_frame server_half_close (record s { down = arrived rest s.down })
    → Reach u t
    → (t.up.reads ≡ s.up.reads)
      × (missing : Bytes) × ((t.target_got ++ missing) ++ bytes_of s.up.reads
          ≡ first ++ bytes_of up)
Reach-cut up down first {s} {u} {t} rest r runs wire taken more =
    let step : Step s u = client_takes server_half_close rest runs wire taken in
    let a = (Reach-accounts up down first (Reach-append (next r step) more)).upward in
    let c : IsCut s.up.reads u =
      rw taken (take_half-IsCut (record s { down = arrived rest s.down })) in
    let end = Reach-IsCut more c in
    let middle =
      a.unwritten
      ++ (contents client_content t.up.wire ++ (contents client_content t.up.queue ++ a.held)) in
    let whole = ap (λ l. (t.target_got ++ middle) ++ bytes_of l) (sym end.left) in
    (end.left, middle, whole ∙ (simp append_assoc) ∙ sym a.total)
