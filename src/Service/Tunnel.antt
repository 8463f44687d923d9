-- ===== src/Service/Tunnel.antt =====
-- What the client and the target see of a tunnel.
use ech_rust.Base.Net.{SocketAddr}
use ech_rust.Base.Text.{Bytes}
use ech_rust.Base.{
  ℕ, ◌+◌, ◌≤◌, ◌≡◌, ◌≢◌, refl, ap, ◌⊎◌, inl, inr, Bool, true, List, [], ◌∷◌, ◌++◌, none, some, ok,
  arith, Result-cases, length,
}
use ech_rust.Policy.{Policy}
use ech_rust.Proto.{
  Open, ClientPayload, open_target, client_data, client_half_close, client_reset, ping, open_result,
  pong,
}
use ech_rust.Service.Connect.{IsOpened, open_stream-IsOpened}
use ech_rust.Service.{
  Env, Event, frame, failed, timed_out, Effect, send, wrote, relay, establish, open_stream,
  handle_open, handle_tunnel,
}

-- The bytes that reached the target.
abbrev pub written : List Effect → Bytes
written [] = []
written (wrote bytes ∷ es) = bytes ++ written es
written (_ ∷ es) = written es

-- The results of opening that the client is sent.
abbrev pub open_results : List Effect → List Bool
open_results [] = []
open_results (send (open_result done error) ∷ es) = done ∷ open_results es
open_results (_ ∷ es) = open_results es

abbrev pub pongs : List Effect → List ℕ
pongs [] = []
pongs (send (pong millis) ∷ es) = millis ∷ pongs es
pongs (_ ∷ es) = pongs es

-- The frames up to the one that ends the tunnel: a reset, a second Open, an empty frame, a failure
-- of the stream or a silence.
abbrev pub live : List Event → List ClientPayload
live [] = []
live (frame (some (client_data bytes)) ∷ es) = client_data bytes ∷ live es
live (frame (some client_half_close) ∷ es) = client_half_close ∷ live es
live (frame (some (ping millis)) ∷ es) = ping millis ∷ live es
live (_ ∷ es) = []

abbrev pub data_of : List ClientPayload → Bytes
data_of [] = []
data_of (client_data bytes ∷ fs) = bytes ++ data_of fs
data_of (_ ∷ fs) = data_of fs

abbrev pub pings_of : List ClientPayload → List ℕ
pings_of [] = []
pings_of (ping millis ∷ fs) = millis ∷ pings_of fs
pings_of (_ ∷ fs) = pings_of fs

relay-open_results : (env : Env) (n : ℕ) (es : List Event) → open_results (relay env n es) ≡ []
unfolding relay
relay-open_results env n [] = refl
relay-open_results env n (timed_out ∷ es) = refl
relay-open_results env n (failed status ∷ es) = refl
relay-open_results env n (frame none ∷ es) = refl
relay-open_results env n (frame (some (client_data bytes)) ∷ es) =
    ground (arith, relay-open_results env (n + 1) es)
relay-open_results env n (frame (some client_half_close) ∷ es) = relay-open_results env n es
relay-open_results env n (frame (some (client_reset reason)) ∷ es) = refl
relay-open_results env n (frame (some (ping millis)) ∷ es) = relay-open_results env n es
relay-open_results env n (frame (some (open_target o)) ∷ es) = refl

abbrev pub NoErrors : Env → Type 0
NoErrors env = (n : ℕ) → env.write_error n ≡ none

relay-written :
    (env : Env) (n : ℕ) (es : List Event)
    → NoErrors env
    → written (relay env n es) ≡ data_of (live es)
unfolding relay
relay-written env n [] ok' = refl
relay-written env n (timed_out ∷ es) ok' = refl
relay-written env n (failed status ∷ es) ok' = refl
relay-written env n (frame none ∷ es) ok' = refl
relay-written env n (frame (some (client_data bytes)) ∷ es) ok' =
    ground (arith, ok' n, relay-written env (n + 1) es ok')
relay-written env n (frame (some client_half_close) ∷ es) ok' = relay-written env n es ok'
relay-written env n (frame (some (client_reset reason)) ∷ es) ok' = refl
relay-written env n (frame (some (ping millis)) ∷ es) ok' = relay-written env n es ok'
relay-written env n (frame (some (open_target o)) ∷ es) ok' = refl

relay-pongs :
    (env : Env) (n : ℕ) (es : List Event)
    → NoErrors env
    → pongs (relay env n es) ≡ pings_of (live es)
unfolding relay
relay-pongs env n [] ok' = refl
relay-pongs env n (timed_out ∷ es) ok' = refl
relay-pongs env n (failed status ∷ es) ok' = refl
relay-pongs env n (frame none ∷ es) ok' = refl
relay-pongs env n (frame (some (client_data bytes)) ∷ es) ok' =
    ground (arith, ok' n, relay-pongs env (n + 1) es ok')
relay-pongs env n (frame (some client_half_close) ∷ es) ok' = relay-pongs env n es ok'
relay-pongs env n (frame (some (client_reset reason)) ∷ es) ok' = refl
relay-pongs env n (frame (some (ping millis)) ∷ es) ok' = ap (◌∷◌ millis) (relay-pongs env n es ok')
relay-pongs env n (frame (some (open_target o)) ∷ es) ok' = refl

-- What a tunnel that was opened carries.
pub record Carries (o : Open) (es : List Event) (log : List Effect) : Type 0 where
  pub target_bytes : written log ≡ o.first_payload ++ data_of (live es)
  pub answered : pongs log ≡ pings_of (live es)
  pub opened_once : open_results log ≡ true ∷ []

establish-Carries :
    (env : Env) (o : Open) (es : List Event)
    → NoErrors env
    → (first : Bytes)
    → (written (establish env first es) ≡ first ++ data_of (live es))
      × (pongs (establish env first es) ≡ pings_of (live es))
      × (open_results (establish env first es) ≡ true ∷ [])
unfolding establish
establish-Carries env o es ok' [] = (
  relay-written env 0 es ok',
  relay-pongs env 0 es ok',
  ap (◌∷◌ true) (relay-open_results env 0 es),
)
establish-Carries env o es ok' (b ∷ bs) = ground (
  arith,
  ok' 0,
  relay-written env 1 es ok',
  relay-pongs env 1 es ok',
  relay-open_results env 1 es,
)

-- Where the target was reached and takes what is written to it, it gets the first payload and then
-- the data frames in order, up to the frame that ends the tunnel; each ping up to there is
-- answered by a pong with its time, in order; and the client is told once, and no more, that the
-- target is open.
pub handle_tunnel-Carries :
    (env : Env) (p : Policy) (o : Open) (addr : SocketAddr) (es : List Event)
    → open_stream env p o ≡ ok addr
    → NoErrors env
    → Carries o es (handle_tunnel env p (frame (some (open_target o)) ∷ es))
unfolding handle_tunnel handle_open
handle_tunnel-Carries env p o addr es reached ok' =
    let (w, q, r) = establish-Carries env o es ok' o.first_payload in
    record {
      target_bytes = ground (arith, reached, w);
      answered = ground (arith, reached, q);
      opened_once = ground (arith, reached, r);
    }

-- Bytes reached a target only after an Open frame that came first.
pub record Admitted (env : Env) (p : Policy) (es : List Event) : Type 0 where
  pub request : Open
  pub rest : List Event
  pub addr : SocketAddr
  pub comes_first : es ≡ frame (some (open_target request)) ∷ rest
  pub opened : IsOpened env p request addr

-- Nothing is written to any target, and no success is reported, unless the client's first frame is
-- an Open whose target the policy permits and that was reached at an address it permits.
pub handle_tunnel-Admitted :
    (env : Env) (p : Policy) (es : List Event)
    → (written (handle_tunnel env p es) ≢ []) ⊎ (open_results (handle_tunnel env p es) ≡ true ∷ [])
    → Admitted env p es
unfolding handle_tunnel handle_open
handle_tunnel-Admitted env p [] h = absurd (ground arith)
handle_tunnel-Admitted env p (failed status ∷ es) h = absurd (ground arith)
handle_tunnel-Admitted env p (timed_out ∷ es) h = absurd (ground arith)
handle_tunnel-Admitted env p (frame none ∷ es) h = absurd (ground arith)
handle_tunnel-Admitted env p (frame (some (client_data bytes)) ∷ es) h = absurd (ground arith)
handle_tunnel-Admitted env p (frame (some client_half_close) ∷ es) h = absurd (ground arith)
handle_tunnel-Admitted env p (frame (some (client_reset reason)) ∷ es) h = absurd (ground arith)
handle_tunnel-Admitted env p (frame (some (ping millis)) ∷ es) h = absurd (ground arith)
handle_tunnel-Admitted env p (frame (some (open_target o)) ∷ es) h =
    elim (Result-cases (open_stream env p o)) [
      | inl (addr, reached) ↦ record {
        request = o;
        rest = es;
        addr = addr;
        comes_first = refl;
        opened = open_stream-IsOpened env p o addr reached;
      }
      | inr (e, refused) ↦ absurd (ground (arith, refused))
    ]

establish-open_results :
    (env : Env) (es : List Event) (first : Bytes)
    → length (open_results (establish env first es)) ≤ 1
unfolding establish
establish-open_results env es [] = ground (arith, relay-open_results env 0 es)
establish-open_results env es (b ∷ bs) = ground (arith, relay-open_results env 1 es)

-- Whatever the client sends, it is told at most once how opening the target went.
pub handle_tunnel-open_results :
    (env : Env) (p : Policy) (es : List Event) → length (open_results (handle_tunnel env p es)) ≤ 1
unfolding handle_tunnel handle_open
handle_tunnel-open_results env p [] = omega arith
handle_tunnel-open_results env p (failed status ∷ es) = omega arith
handle_tunnel-open_results env p (timed_out ∷ es) = omega arith
handle_tunnel-open_results env p (frame none ∷ es) = omega arith
handle_tunnel-open_results env p (frame (some (open_target o)) ∷ es) =
    ground (arith, establish-open_results env es o.first_payload)
handle_tunnel-open_results env p (frame (some _) ∷ es) = omega arith
