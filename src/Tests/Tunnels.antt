-- ===== src/Tests/Tunnels.antt =====
-- Both ends of a tunnel on concrete streams.
use ech_rust.Base.Text.{codes}
use ech_rust.Base.{
  ℕ, ◌+◌, ◌*◌, ◌≤◌, ◌≡◌, ◌⊎◌, refl, false, List, [], ◌∷◌, ◌++◌, some, none, length, arith, true,
  if◌then◌else◌, ltb,
}
use ech_rust.Duplex.Termination.{IsOver, Reach-rounds}
use ech_rust.Duplex.Work.{rounds}
use ech_rust.Duplex.Ends.{Reach-cut}
use ech_rust.Duplex.Progress.{Reach-delivers}
use ech_rust.Duplex.{
  Duplex, Step, serve, take_frame, client_frame, server_frame, client_outbound, server_outbound,
  server_takes, Reach, here, next, opened,
}
use ech_rust.Outbound.Contents.{bytes_of}
use ech_rust.Outbound.{
  Outbound, arrived, read_stream, finish_send, carry, reads_next, send_returns, carries, abort,
}
use ech_rust.Proto.{
  ClientPayload, ServerPayload, client_data, server_data, server_half_close, open_result,
}
use ech_rust.Service.{Read, chunk, eof}
use ech_rust.Tunnel.{Incoming, message, LocalStream}

-- A local stream that fails at its second write.
abbrev stream : LocalStream
stream = record {
  write_error = λ n. if ltb n 1 then none else some (codes "broken pipe");
  shutdown_error = none;
}

abbrev answers : List Incoming
answers =
    message (some (open_result true []))
    ∷ message (some (server_data (codes "200")))
    ∷ message (some (server_data (codes " OK")))
    ∷ []

abbrev upload : List Read
upload = chunk (codes "GET") ∷ chunk (codes " /") ∷ eof ∷ []

abbrev download : List Read
download = chunk (codes "200") ∷ eof ∷ []

abbrev start : Duplex
start = opened upload download (codes "hi")

-- Three rounds bring the first read to the other side, which takes it in a fourth.
abbrev one : Outbound ClientPayload
one = read_stream client_frame (chunk (codes "GET")) (chunk (codes " /") ∷ eof ∷ []) start.up

abbrev two : Outbound ClientPayload
two = finish_send (client_data (codes "GET")) false one

abbrev three : Outbound ClientPayload
three = carry (client_data (codes "GET")) [] two

abbrev got_up : Duplex
got_up = serve (client_data (codes "GET")) (record start { up = arrived [] three })

run_up : Reach start got_up
unfolding read_stream finish_send carry serve client_frame
run_up =
    next
      (next
        (next (next here (client_outbound one (reads_next _ _ refl refl refl) refl))
          (client_outbound two (send_returns _ false refl refl (omega arith) refl) refl))
        (client_outbound three (carries _ [] refl refl refl) refl))
      (server_takes (client_data (codes "GET")) [] refl refl refl)

-- The target closes at once.
abbrev closing : List Read
closing = eof ∷ []

abbrev quiet : Duplex
quiet = opened upload closing (codes "hi")

abbrev end_one : Outbound ServerPayload
end_one = read_stream server_frame eof [] quiet.down

abbrev end_two : Outbound ServerPayload
end_two = finish_send server_half_close true end_one

abbrev end_three : Outbound ServerPayload
end_three = carry server_half_close [] end_two

abbrev closed : Duplex
closed = record quiet { down = end_three }

run_closed : Reach quiet closed
unfolding read_stream finish_send carry server_frame
run_closed =
    next
      (next (next here (server_outbound end_one (reads_next eof [] refl refl refl) refl))
        (server_outbound end_two (send_returns _ true refl refl (omega arith) refl) refl))
      (server_outbound end_three (carries _ [] refl refl refl) refl)

abbrev after : Duplex
after = take_frame server_half_close (record closed { down = arrived [] closed.down })

Reach-cut_example :
    (after.up.reads ≡ upload)
    × (missing : List ℕ) × ((after.target_got ++ missing) ++ bytes_of upload ≡ codes "hiGET /")
unfolding read_stream finish_send carry server_frame take_frame abort
Reach-cut_example = Reach-cut upload closing (codes "hi") [] run_closed refl refl refl here

Reach-delivers_example :
    (t : Duplex) × Reach got_up t × (t.target_got ≡ codes "hi" ++ bytes_of upload)
unfolding read_stream finish_send carry serve client_frame
Reach-delivers_example = Reach-delivers upload download (codes "hi") run_up refl refl tt

Reach-rounds_example :
    (rounds run_up ≤ 7 * length upload + 4 * length download + 6)
    × (((t : Duplex) × Step got_up t) ⊎ IsOver got_up)
Reach-rounds_example = Reach-rounds upload download (codes "hi") got_up run_up
