-- ===== src/Duplex/Queued.antt =====
-- That the frames of the local stream stay in order in every run.
use ech_rust.Base.Text.{Bytes}
use ech_rust.Base.{◌≡◌, refl, ◌||◌, List, ◌++◌}
use ech_rust.Duplex.Order.{IsQueued, Round-IsQueued, arrived-IsQueued, abort-IsQueued}
use ech_rust.Duplex.{
  Loop, serving, ponging, resetting, stopped, Duplex, serve, take_frame, is_stopped, resume, Step,
  client_outbound, server_outbound, server_takes, target_fails, server_answers, answer_fails,
  server_idles, server_fails, server_ends, client_takes, local_fails, shutdown_fails, client_fails,
  client_ends, call_dropped, Reach, here, next, breaks, opened,
}
use ech_rust.Outbound.{enqueue, arrived}
use ech_rust.Proto.{
  ClientPayload, client_data, client_half_close, client_reset, ping, open_target, ServerPayload,
  server_data, server_half_close, server_reset, pong, open_result,
}
use ech_rust.Service.{Read}

serve-up : (f : ClientPayload) (s : Duplex) → Duplex.up (serve f s) ≡ s.up
unfolding serve
serve-up (client_data bytes) s = refl
serve-up client_half_close s = refl
serve-up (client_reset reason) s = refl
serve-up (ping millis) s = refl
serve-up (open_target o) s = refl

resume-up : (l : Loop) (s : Duplex) → Duplex.up (resume l s) ≡ s.up
unfolding resume
resume-up serving s = refl
resume-up (ponging millis) s = refl
resume-up (resetting reason) s = refl
resume-up stopped s = refl

take_frame-IsQueued :
    (f : ServerPayload) (s : Duplex) → IsQueued s.up → IsQueued (Duplex.up (take_frame f s))
unfolding take_frame
take_frame-IsQueued (server_data bytes) s q = q
take_frame-IsQueued server_half_close s q = abort-IsQueued s.up q
take_frame-IsQueued (server_reset reason) s q = q
take_frame-IsQueued (pong millis) s q = q
take_frame-IsQueued (open_result b error) s q = q

Step-IsQueued : (s u : Duplex) → Step s u → IsQueued s.up → IsQueued u.up
Step-IsQueued s u (client_outbound o r made) q =
    rw made (Round-IsQueued s.broken (s.broken || is_stopped s.server) s.up o r q)
Step-IsQueued s u (server_outbound o r made) q = rw made q
Step-IsQueued s u (server_takes f rest on e made) q =
    rw (made, serve-up f (record s { up = arrived rest s.up })) (arrived-IsQueued f rest s.up e q)
Step-IsQueued s u (target_fails done missing rest x on e made) q =
    rw made (arrived-IsQueued (client_data (done ++ missing)) rest s.up e q)
Step-IsQueued s u (server_answers f a up_still room made) q =
    rw (made, resume-up s.server (record s { down = enqueue f s.down })) q
Step-IsQueued s u (answer_fails f a off made) q = rw (made, resume-up s.server s) q
Step-IsQueued s u (server_idles on e made) q = rw made q
Step-IsQueued s u (server_fails status on off made) q = rw made q
Step-IsQueued s u (server_ends on e k t off made) q = rw made q
Step-IsQueued s u (client_takes f rest on e made) q =
    rw made (take_frame-IsQueued f (record s { down = arrived rest s.down }) q)
Step-IsQueued s u (local_fails done missing rest on e made) q = rw made q
Step-IsQueued s u (shutdown_fails rest on e made) q = rw made q
Step-IsQueued s u (client_fails on off made) q = rw made q
Step-IsQueued s u (client_ends on e k off made) q = rw made (abort-IsQueued s.up q)
Step-IsQueued s u (call_dropped off still made) q = rw made q

pub Reach-IsQueued :
    (local_reads target_reads : List Read) (first_payload : Bytes) (u : Duplex)
    → Reach (opened local_reads target_reads first_payload) u
    → IsQueued u.up
Reach-IsQueued local_reads target_reads first_payload u here = record {
  ordered = tt;
  open_end = tt;
}
Reach-IsQueued local_reads target_reads first_payload u (next {t = t} r step) =
    Step-IsQueued t u step (Reach-IsQueued local_reads target_reads first_payload t r)
Reach-IsQueued local_reads target_reads first_payload u (breaks {t = t} r made) =
    rw made (Reach-IsQueued local_reads target_reads first_payload t r)
