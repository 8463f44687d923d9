-- ===== src/Duplex/Termination.antt =====
-- How the tasks of an open tunnel come to an end.
use native.Mathlib.Decide.{dec_lt}
use ech_rust.Base.Text.{Bytes}
use ech_rust.Base.{
  ◌+◌, ◌*◌, ◌≤◌, ◌<◌, ◌≡◌, refl, ◌⊎◌, inl, inr, true, false, Bool-cases, List, [], ◌∷◌, length,
  arith,
}
use ech_rust.Duplex.{
  Loop, serving, ponging, resetting, stopped, Duplex, server_frame, serve, take_frame, resume,
  Answering, Step, client_outbound, server_outbound, server_takes, target_fails, server_answers,
  answer_fails, server_idles, server_fails, server_ends, client_takes, local_fails, shutdown_fails,
  client_fails, client_ends, call_dropped, Reach, here, next, breaks, opened,
}
use ech_rust.Duplex.Work.{work, rounds, Reach-work}
use ech_rust.Outbound.Load.{abort-HasEnded, Round-HasEnded}
use ech_rust.Outbound.{
  Task, waiting, sending, finished, cut, outbound_queue, enqueue, arrived, reads_next, send_fails,
  carries, HasEnded,
}
use ech_rust.Proto.{
  ClientPayload, client_data, client_half_close, client_reset, ping, open_target, ServerPayload,
  server_data, server_half_close, server_reset, pong, open_result,
}
use ech_rust.Service.{Read}

-- A server that has stopped has ended its reading task too.
abbrev IsPaired : Duplex → Type 0
IsPaired s = s.server ≡ stopped → HasEnded s.down.task

serve-IsPaired : (f : ClientPayload) (s : Duplex) → s.server ≡ serving → IsPaired (serve f s)
unfolding serve
serve-IsPaired (client_data bytes) s on = λ off. cc
serve-IsPaired client_half_close s on = λ off. cc
serve-IsPaired (client_reset reason) s on = λ off. abort-HasEnded s.down
serve-IsPaired (ping millis) s on = λ off. cc
serve-IsPaired (open_target o) s on = λ off. cc

take_frame-IsPaired : (f : ServerPayload) (s : Duplex) → IsPaired s → IsPaired (take_frame f s)
unfolding take_frame
take_frame-IsPaired (server_data bytes) s h = h
take_frame-IsPaired server_half_close s h = h
take_frame-IsPaired (server_reset reason) s h = h
take_frame-IsPaired (pong millis) s h = h
take_frame-IsPaired (open_result b error) s h = h

resume-IsPaired : (l : Loop) (s : Duplex) → IsPaired (resume l s)
unfolding resume
resume-IsPaired serving s = λ off. cc
resume-IsPaired (ponging millis) s = λ off. cc
resume-IsPaired (resetting reason) s = λ off. abort-HasEnded s.down
resume-IsPaired stopped s = λ off. cc

Step-IsPaired : (s u : Duplex) → Step s u → IsPaired s → IsPaired u
Step-IsPaired s u (client_outbound o r made) h = rw made h
Step-IsPaired s u (server_outbound o r made) h =
    rw made (λ off. (Round-HasEnded server_frame s.broken s.broken s.down o r (h off)).0)
Step-IsPaired s u (server_takes f rest on e made) h =
    rw made (serve-IsPaired f (record s { up = arrived rest s.up }) on)
Step-IsPaired s u (target_fails done missing rest x on e made) h = rw made (λ off. cc)
Step-IsPaired s u (server_answers f a up_still room made) h =
    rw made (resume-IsPaired s.server (record s { down = enqueue f s.down }))
Step-IsPaired s u (answer_fails f a off made) h = rw made (resume-IsPaired s.server s)
Step-IsPaired s u (server_idles on e made) h = rw made (λ off. cc)
Step-IsPaired s u (server_fails status on off made) h = rw made (λ off. cc)
Step-IsPaired s u (server_ends on e q t off made) h = rw made (λ o. abort-HasEnded s.down)
Step-IsPaired s u (client_takes f rest on e made) h =
    rw made (take_frame-IsPaired f (record s { down = arrived rest s.down }) h)
Step-IsPaired s u (local_fails done missing rest on e made) h = rw made h
Step-IsPaired s u (shutdown_fails rest on e made) h = rw made h
Step-IsPaired s u (client_fails on off made) h = rw made h
Step-IsPaired s u (client_ends on e q off made) h = rw made h
Step-IsPaired s u (call_dropped off still made) h = rw made h

Reach-IsPaired : (s u : Duplex) → Reach s u → IsPaired s → IsPaired u
Reach-IsPaired s u here h = h
Reach-IsPaired s u (next {t = t} before step) h =
    Step-IsPaired t u step (Reach-IsPaired s t before h)
Reach-IsPaired s u (breaks {t = t} before made) h = rw made (Reach-IsPaired s t before h)

-- Both loops and the server's reading task have ended; the client's has too, or it still waits for a
-- local stream that gives nothing, as a function that failed leaves it behind.
abbrev pub IsOver : Duplex → Type 0
IsOver s =
    (s.server ≡ stopped)
    × HasEnded s.down.task
    × (s.receiving ≡ false)
    × (HasEnded s.up.task ⊎ ((s.up.task ≡ waiting) × (s.up.reads ≡ [])))

-- While a loop runs or a task can still read or send, some round can follow.
Step_or_IsOver : (s : Duplex) → IsPaired s → ((u : Duplex) × Step s u) ⊎ IsOver s
Step_or_IsOver s h = by_loop s.server refl
  where
    serve_on :
        s.server ≡ serving → (fs : List ClientPayload) → s.up.wire ≡ fs → (u : Duplex) × Step s u
    serve_on on [] e = (_, server_idles on e refl)
    serve_on on (f ∷ fs) e = (_, server_takes f fs on e refl)

    make_room :
        s.broken ≡ false
        → (fs : List ServerPayload) → s.down.queue ≡ fs
        → ¬ (length fs < outbound_queue)
        → (u : Duplex) × Step s u
    make_room up_still [] e full = absurd (omega arith)
    make_room up_still (f ∷ fs) e full = (_, server_outbound _ (carries f fs up_still e refl) refl)

    answer : (f : ServerPayload) → Answering s.server f → (u : Duplex) × Step s u
    answer f a = elim (Bool-cases s.broken) [
      | inl off ↦ (_, answer_fails f a off refl)
      | inr up_still ↦ elim (dec_lt (length s.down.queue) outbound_queue) [
        | yes room ↦ (_, server_answers f a up_still room refl)
        | no full ↦ make_room up_still s.down.queue refl full
      ]
    ]

    empty_call :
        s.receiving ≡ true
        → s.server ≡ stopped
        → s.broken ≡ false
        → s.down.wire ≡ []
        → (fs : List ServerPayload) → s.down.queue ≡ fs
        → (u : Duplex) × Step s u
    empty_call on off up_still e [] q = (_, client_ends on e q off refl)
    empty_call on off up_still e (f ∷ fs) q =
        (_, server_outbound _ (carries f fs up_still q refl) refl)

    take_on :
        s.receiving ≡ true
        → s.server ≡ stopped
        → s.broken ≡ false
        → (fs : List ServerPayload) → s.down.wire ≡ fs
        → (u : Duplex) × Step s u
    take_on on off up_still [] e = empty_call on off up_still e s.down.queue refl
    take_on on off up_still (f ∷ fs) e = (_, client_takes f fs on e refl)

    read_on :
        s.up.task ≡ waiting
        → s.server ≡ stopped
        → s.receiving ≡ false
        → (reads : List Read) → s.up.reads ≡ reads
        → ((u : Duplex) × Step s u) ⊎ IsOver s
    read_on t off gone [] e = inr (off, h off, gone, inr (t, e))
    read_on t off gone (r ∷ rest) e = inl (_, client_outbound _ (reads_next r rest t e refl) refl)

    left_behind :
        s.server ≡ stopped
        → s.receiving ≡ false
        → s.broken ≡ true
        → (t : Task ClientPayload) → s.up.task ≡ t
        → ((u : Duplex) × Step s u) ⊎ IsOver s
    left_behind off gone lost waiting e = read_on e off gone s.up.reads refl
    left_behind off gone lost (sending f last) e =
        inl (_, client_outbound _ (send_fails f last e (rw lost refl) refl) refl)
    left_behind off gone lost finished e = inr (off, h off, gone, inl (rw e tt))
    left_behind off gone lost cut e = inr (off, h off, gone, inl (rw e tt))

    behind : s.server ≡ stopped → ((u : Duplex) × Step s u) ⊎ IsOver s
    behind off = elim (Bool-cases s.receiving) [
      | inl on ↦ elim (Bool-cases s.broken) [
        | inl lost ↦ inl (_, client_fails on lost refl)
        | inr up_still ↦ inl (take_on on off up_still s.down.wire refl)
      ]
      | inr gone ↦ elim (Bool-cases s.broken) [
        | inl lost ↦ left_behind off gone lost s.up.task refl
        | inr up_still ↦ inl (_, call_dropped gone up_still refl)
      ]
    ]

    by_loop : (l : Loop) → s.server ≡ l → ((u : Duplex) × Step s u) ⊎ IsOver s
    by_loop serving e = inl (serve_on e s.up.wire refl)
    by_loop (ponging millis) e = inl (answer (pong millis) (rw e refl))
    by_loop (resetting reason) e = inl (answer (server_reset reason) (rw e refl))
    by_loop stopped e = behind e

-- However the four tasks of an open tunnel and the call take turns, whichever writes and sends fail
-- and wherever the network breaks the call, they make at most seven rounds for each read of the local
-- stream, four for each of the target, and six more; and at each moment another round can follow, or
-- the tunnel is over: both loops and the server's reading task have ended, and the client's reading
-- task has ended or waits for a local stream that gives nothing.
pub Reach-rounds :
    (local_reads target_reads : List Read) (first_payload : Bytes) (u : Duplex)
    (run : Reach (opened local_reads target_reads first_payload) u)
    → (rounds run ≤ 7 * length local_reads + 4 * length target_reads + 6)
      × (((t : Duplex) × Step u t) ⊎ IsOver u)
unfolding work
Reach-rounds local_reads target_reads first_payload u run =
    let start = opened local_reads target_reads first_payload in
    let bound = Reach-work start u run in
    (omega arith, Step_or_IsOver u (Reach-IsPaired start u run (λ off. cc)))
