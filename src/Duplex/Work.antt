-- ===== src/Duplex/Work.antt =====
-- How many rounds the tasks of an open tunnel can make.
use ech_rust.Base.{
  ℕ, suc, ◌+◌, ◌*◌, ◌≤◌, ◌<◌, ◌≡◌, refl, true, ◌||◌, List, ◌∷◌, arith, if◌then◌else◌,
}
use ech_rust.Duplex.{
  Loop, serving, ponging, resetting, stopped, Duplex, client_frame, server_frame, serve, take_frame,
  is_stopped, resume, Answering, Step, client_outbound, server_outbound, server_takes, target_fails,
  server_answers, answer_fails, server_idles, server_fails, server_ends, client_takes, local_fails,
  shutdown_fails, client_fails, client_ends, call_dropped, Reach, here, next, breaks,
}
use ech_rust.Outbound.Load.{load, frames, Round-load, abort-load, enqueue-load}
use ech_rust.Outbound.{enqueue, arrived}
use ech_rust.Proto.{
  ClientPayload, client_data, client_half_close, client_reset, ping, open_target, ServerPayload,
  server_data, server_half_close, server_reset, pong, open_result,
}

-- The rounds that the server's loop can make without another frame: to send an answer, and to end.
abbrev pub loop_load : Loop → ℕ
loop_load serving = 4
loop_load (ponging millis) = 7
loop_load (resetting reason) = 3
loop_load stopped = 0

-- A bound on the rounds that are still to come: a frame of the client is taken and may be answered,
-- one of the server is taken.
unfoldable pub work : Duplex → ℕ
work s =
    load s.up
    + 4 * frames s.up
    + load s.down
    + frames s.down
    + loop_load s.server
    + (if s.receiving then 1 else 0)
    + (if s.broken then 0 else 1)

serve-work :
    (f : ClientPayload) (rest : List ClientPayload) (s : Duplex)
    → s.server ≡ serving
    → s.up.wire ≡ f ∷ rest
    → work (serve f (record s { up = arrived rest s.up })) < work s
unfolding work serve
serve-work (client_data bytes) rest s on e = rw (e, on) (omega arith)
serve-work client_half_close rest s on e = rw (e, on) (omega arith)
serve-work (client_reset reason) rest s on e =
    let (l, k) = abort-load s.down in rw (e, on) (omega arith)
serve-work (ping millis) rest s on e = rw (e, on) (omega arith)
serve-work (open_target o) rest s on e = rw (e, on) (omega arith)

take_frame-work :
    (f : ServerPayload) (rest : List ServerPayload) (s : Duplex)
    → s.receiving ≡ true
    → s.down.wire ≡ f ∷ rest
    → work (take_frame f (record s { down = arrived rest s.down })) < work s
unfolding work take_frame
take_frame-work (server_data bytes) rest s on e = rw (e, on) (omega arith)
take_frame-work server_half_close rest s on e =
    let (l, k) = abort-load s.up in rw (e, on) (omega arith)
take_frame-work (server_reset reason) rest s on e = rw (e, on) (omega arith)
take_frame-work (pong millis) rest s on e = rw (e, on) (omega arith)
take_frame-work (open_result b error) rest s on e = rw (e, on) (omega arith)

resume-work :
    (l : Loop) (f : ServerPayload) (s : Duplex)
    → s.server ≡ l
    → Answering l f
    → work (resume l s) + 3 ≤ work s
unfolding work resume
resume-work serving f s e h = absurd h
resume-work (ponging millis) f s e h = rw e (omega arith)
resume-work (resetting reason) f s e h = let (l, k) = abort-load s.down in rw e (omega arith)
resume-work stopped f s e h = absurd h

-- Each round leaves less to do.
Step-work : (s u : Duplex) → Step s u → work u < work s
unfolding work
Step-work s u (client_outbound o r made) =
    let (l, k) = Round-load client_frame s.broken (s.broken || is_stopped s.server) s.up o r in
    rw made (omega arith)
Step-work s u (server_outbound o r made) =
    let (l, k) = Round-load server_frame s.broken s.broken s.down o r in rw made (omega arith)
Step-work s u (server_takes f rest on e made) = rw made (serve-work f rest s on e)
Step-work s u (target_fails done missing rest x on e made) = rw (made, e, on) (omega arith)
Step-work s u (server_answers f h up_still room made) =
    let (l, k) = enqueue-load f s.down in
    let r = resume-work s.server f (record s { down = enqueue f s.down }) refl h in
    rw made (omega arith)
Step-work s u (answer_fails f h off made) =
    let r = resume-work s.server f s refl h in rw made (omega arith)
Step-work s u (server_idles on e made) = rw (made, on) (omega arith)
Step-work s u (server_fails status on off made) = rw (made, on) (omega arith)
Step-work s u (server_ends on e q t off made) =
    let (l, k) = abort-load s.down in rw (made, on) (omega arith)
Step-work s u (client_takes f rest on e made) = rw made (take_frame-work f rest s on e)
Step-work s u (local_fails done missing rest on e made) = rw (made, e, on) (omega arith)
Step-work s u (shutdown_fails rest on e made) = rw (made, e, on) (omega arith)
Step-work s u (client_fails on off made) = rw (made, on) (omega arith)
Step-work s u (client_ends on e q off made) =
    let (l, k) = abort-load s.up in rw (made, on) (omega arith)
Step-work s u (call_dropped off still made) = rw (made, still) (omega arith)

-- The rounds of a run; that the network breaks the call is none.
pub rounds : {s u : Duplex} → Reach s u → ℕ
rounds here = 0
rounds (next before step) = suc (rounds before)
rounds (breaks before made) = rounds before

broken-work : (s : Duplex) → work (record s { broken = true }) ≤ work s
unfolding work
broken-work s = ground arith

pub Reach-work : (s u : Duplex) (run : Reach s u) → rounds run + work u ≤ work s
unfolding rounds
Reach-work s u here = omega arith
Reach-work s u (next {t = t} before step) = omega (arith, Reach-work s t before, Step-work t u step)
Reach-work s u (breaks {t = t} before made) =
    rw made (omega (arith, Reach-work s t before, broken-work t))
