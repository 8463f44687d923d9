-- ===== src/Duplex/Delivery.antt =====
-- What every run of a tunnel delivers.
use mathlib.Core.Path.{subst}
use mathlib.Core.List.{append-nil}
use ech_rust.Base.Text.{Bytes}
use ech_rust.Base.{◌≡◌, refl, Bool, true, false, ◌||◌, List, [], ◌∷◌, ◌++◌}
use ech_rust.Outbound.Contents.{
  bytes_of, Accounts, enqueue-Accounts, abort-Accounts, stop-Accounts, take-Accounts, fail-Accounts,
  Round-Accounts, Frames,
}
use ech_rust.Outbound.{enqueue, arrived}
use ech_rust.Proto.{
  ClientPayload, client_data, client_half_close, client_reset, ping, open_target, ServerPayload,
  server_data, server_half_close, server_reset, pong, open_result,
}
use ech_rust.Service.{Read, chunk, eof, read_failed}
use ech_rust.Duplex.{
  Loop, serving, ponging, resetting, stopped, Duplex, client_frame, server_frame, serve, take_frame,
  is_stopped, resume, Answering, Step, client_outbound, server_outbound, server_takes, target_fails,
  server_answers, answer_fails, server_idles, server_fails, server_ends, client_takes, local_fails,
  shutdown_fails, client_fails, client_ends, call_dropped, Reach, here, next, breaks, opened,
}

-- The bytes of the stream that a frame carries.
abbrev pub client_content : ClientPayload → Bytes
client_content (client_data bytes) = bytes
client_content _ = []

abbrev pub server_content : ServerPayload → Bytes
server_content (server_data bytes) = bytes
server_content _ = []

-- Whether the server's loop goes on to take frames.
abbrev pub is_live : Loop → Bool
is_live serving = true
is_live (ponging millis) = true
is_live _ = false

client-Frames : Frames client_content client_frame
unfolding client_frame
client-Frames (chunk bytes) rest = (refl, λ last. cc)
client-Frames eof rest = (refl, λ last. refl)
client-Frames (read_failed e) rest = (refl, λ last. refl)

server-Frames : Frames server_content server_frame
unfolding server_frame
server-Frames (chunk bytes) rest = (refl, λ last. cc)
server-Frames eof rest = (refl, λ last. refl)
server-Frames (read_failed e) rest = (refl, λ last. refl)

answer_empty : (l : Loop) (f : ServerPayload) → Answering l f → server_content f ≡ []
answer_empty serving f h = absurd h
answer_empty (ponging millis) f h = rw h refl
answer_empty (resetting reason) f h = rw h refl
answer_empty stopped f h = absurd h

-- Where the bytes of the two directions are, `up` and `down` being all of them.
pub record Accounted (up down : Bytes) (s : Duplex) : Type 0 where
  pub upward : Accounts client_content up s.target_got (is_live s.server) s.up
  pub downward : Accounts server_content down s.local_got s.receiving s.down

module _ {up down : Bytes} where
  serve-Accounted :
      (f : ClientPayload) (rest : List ClientPayload) (s : Duplex)
      → s.server ≡ serving
      → s.up.wire ≡ f ∷ rest
      → Accounted up down s
      → Accounted up down (serve f (record s { up = arrived rest s.up }))
  unfolding serve
  serve-Accounted f rest s on e a = go f e
    where
      free : Accounts client_content up s.target_got true s.up
      free = rw on at a.upward

      go :
          (f : ClientPayload)
          → s.up.wire ≡ f ∷ rest
          → Accounted up down (serve f (record s { up = arrived rest s.up }))
      go (client_data bytes) e = record {
        upward =
            take-Accounts client_content (is_live s.server) (client_data bytes) rest s.up e free;
        downward = a.downward;
      }
      go client_half_close e = record {
        upward =
            rw (← append-nil s.target_got)
              (take-Accounts client_content (is_live s.server) client_half_close rest s.up e free);
        downward = a.downward;
      }
      go (client_reset reason) e = record {
        upward =
            rw (← append-nil s.target_got)
              (take-Accounts client_content false (client_reset reason) rest s.up e free);
        downward = abort-Accounts server_content s.down a.downward;
      }
      go (ping millis) e = record {
        upward =
            rw (← append-nil s.target_got)
              (take-Accounts client_content true (ping millis) rest s.up e free);
        downward = a.downward;
      }
      go (open_target o) e = record {
        upward =
            rw (← append-nil s.target_got)
              (take-Accounts client_content false (open_target o) rest s.up e free);
        downward = a.downward;
      }

  take_frame-Accounted :
      (f : ServerPayload) (rest : List ServerPayload) (s : Duplex)
      → s.receiving ≡ true
      → s.down.wire ≡ f ∷ rest
      → Accounted up down s
      → Accounted up down (take_frame f (record s { down = arrived rest s.down }))
  unfolding take_frame
  take_frame-Accounted f rest s on e a = go f e
    where
      free : Accounts server_content down s.local_got true s.down
      free = rw on at a.downward

      none_in :
          (live : Bool) (f : ServerPayload)
          → s.down.wire ≡ f ∷ rest
          → server_content f ≡ []
          → Accounts server_content down s.local_got live (arrived rest s.down)
      none_in live f e nothing =
          subst (λ l. Accounts server_content down l live (arrived rest s.down))
            (rw nothing (append-nil s.local_got))
            (take-Accounts server_content live f rest s.down e free)

      go :
          (f : ServerPayload)
          → s.down.wire ≡ f ∷ rest
          → Accounted up down (take_frame f (record s { down = arrived rest s.down }))
      go (server_data bytes) e = record {
        upward = a.upward;
        downward = take-Accounts server_content s.receiving (server_data bytes) rest s.down e free;
      }
      go server_half_close e = record {
        upward = abort-Accounts client_content s.up a.upward;
        downward = none_in false server_half_close e refl;
      }
      go (server_reset reason) e = record {
        upward = a.upward;
        downward = none_in false (server_reset reason) e refl;
      }
      go (pong millis) e = record {
        upward = a.upward;
        downward = none_in s.receiving (pong millis) e refl;
      }
      go (open_result b error) e = record {
        upward = a.upward;
        downward = none_in false (open_result b error) e refl;
      }

  resume-Accounted :
      (l : Loop) (f : ServerPayload) (s : Duplex)
      → s.server ≡ l
      → Answering l f
      → Accounted up down s
      → Accounted up down (resume l s)
  unfolding resume
  resume-Accounted serving f s e h a = absurd h
  resume-Accounted (ponging millis) f s e h a = record {
    upward = rw e at a.upward;
    downward = a.downward;
  }
  resume-Accounted (resetting reason) f s e h a = record {
    upward = stop-Accounts client_content s.up a.upward;
    downward = abort-Accounts server_content s.down a.downward;
  }
  resume-Accounted stopped f s e h a = absurd h

  Step-Accounted : {s u : Duplex} → Step s u → Accounted up down s → Accounted up down u
  Step-Accounted {s} {u} (client_outbound o r made) a = rw made (record {
    upward =
        Round-Accounts client_content client_frame s.broken (s.broken || is_stopped s.server) s.up o
          client-Frames r a.upward;
    downward = a.downward;
  })
  Step-Accounted {s} {u} (server_outbound o r made) a = rw made (record {
    upward = a.upward;
    downward =
        Round-Accounts server_content server_frame s.broken s.broken s.down o server-Frames r
          a.downward;
  })
  Step-Accounted {s} {u} (server_takes f rest on e made) a =
      rw made (serve-Accounted f rest s on e a)
  Step-Accounted {s} {u} (target_fails done missing rest x on e made) a = rw made (record {
    upward =
        fail-Accounts client_content done missing (client_data (done ++ missing)) rest s.up e refl
          (rw on at a.upward);
    downward = a.downward;
  })
  Step-Accounted {s} {u} (server_answers f h up_still room made) a = rw made (
      resume-Accounted s.server f (record s { down = enqueue f s.down }) refl h
        (record {
          upward = a.upward;
          downward =
              enqueue-Accounts server_content f s.down (answer_empty s.server f h) a.downward;
        }))
  Step-Accounted {s} {u} (answer_fails f h off made) a =
      rw made (resume-Accounted s.server f s refl h a)
  Step-Accounted {s} {u} (server_idles on e made) a =
      rw made
        (record { upward = stop-Accounts client_content s.up a.upward; downward = a.downward })
  Step-Accounted {s} {u} (server_fails status on off made) a =
      rw made
        (record { upward = stop-Accounts client_content s.up a.upward; downward = a.downward })
  Step-Accounted {s} {u} (server_ends on e q t off made) a = rw made (record {
    upward = stop-Accounts client_content s.up a.upward;
    downward = abort-Accounts server_content s.down a.downward;
  })
  Step-Accounted {s} {u} (client_takes f rest on e made) a =
      rw made (take_frame-Accounted f rest s on e a)
  Step-Accounted {s} {u} (local_fails done missing rest on e made) a = rw made (record {
    upward = a.upward;
    downward =
        fail-Accounts server_content done missing (server_data (done ++ missing)) rest s.down e refl
          (rw on at a.downward);
  })
  Step-Accounted {s} {u} (shutdown_fails rest on e made) a = rw made (record {
    upward = a.upward;
    downward =
        subst (λ l. Accounts server_content down l false (arrived rest s.down))
          (append-nil s.local_got)
          (take-Accounts server_content false server_half_close rest s.down e
            (rw on at a.downward));
  })
  Step-Accounted {s} {u} (client_fails on off made) a =
      rw made
        (record { upward = a.upward; downward = stop-Accounts server_content s.down a.downward })
  Step-Accounted {s} {u} (client_ends on e q off made) a = rw made (record {
    upward = abort-Accounts client_content s.up a.upward;
    downward = stop-Accounts server_content s.down a.downward;
  })
  Step-Accounted {s} {u} (call_dropped off still made) a =
      rw made (record { upward = a.upward; downward = a.downward })

pub Reach-accounts :
    (local_reads target_reads : List Read) (first_payload : Bytes) {s : Duplex}
    → Reach (opened local_reads target_reads first_payload) s
    → Accounted (first_payload ++ bytes_of local_reads) (bytes_of target_reads) s
Reach-accounts local_reads target_reads first_payload here = record {
  upward = record {
    unwritten = [];
    held = [];
    total = refl;
    all_written = λ on. refl;
    holds = refl;
  };
  downward = record {
    unwritten = [];
    held = [];
    total = refl;
    all_written = λ on. refl;
    holds = refl;
  };
}
Reach-accounts local_reads target_reads first_payload (next r step) =
    Step-Accounted step (Reach-accounts local_reads target_reads first_payload r)
Reach-accounts local_reads target_reads first_payload (breaks r made) =
    let a = Reach-accounts local_reads target_reads first_payload r in
    rw made (record { upward = a.upward; downward = a.downward })
