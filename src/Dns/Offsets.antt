-- ===== src/Dns/Offsets.antt =====
-- The parser stays inside the message: no index panics, and no loop runs out of its fuel.
use ech_rust.Dns.Outcomes.{
  Ends, Ends-bind, Ends-map, guard-Ends, ok_or-Ends, skip_bytes-Ends, IsPast, read_u16-Ends,
  read_u16_at-Ends, read_u32_at-Ends,
}
use ech_rust.Dns.Names.{skip_name_inner-Ends}
use ech_rust.Base.{
  ℕ, zero, suc, ◌+◌, ◌-◌, ◌≤◌, ◌<◌, ◌≡◌, refl, Bool, true, false, Option, none, some, ok, ◌>>=◌,
  arith, ltb, ltb→lt, leb, leb→le, not, if◌then◌else◌, length, drop, length-take, length-drop, inl,
  inr, Bool-cases, ◌==◌,
}
use Prim.Native.Nat.{bit_and}
use ech_rust.Base.Text.{Bytes}
use ech_rust.Dns.{
  truncated_param, rdata_overflow, rdata_exceeds, too_short, not_a_response, rcode, checked_add,
  ParamStep, found, onward, param_step, AnswerStep, answer, skip_to, answer_step, read_rdata,
  param_round, params_loop, parse_https_rdata_for_ech, skip_questions, parse_answer, parse_answers,
  parse_https_response_for_ech,
}

abbrev Onward : Bytes → ℕ → ℕ → ParamStep → Type 0
Onward message offset end (found value) = length value ≤ length message
Onward message offset end (onward o) = (offset + 4 ≤ o) × (o ≤ end)

param_step-Ends :
    (message : Bytes) (end key len offset : ℕ)
    → end ≤ length message
    → Ends
        (λ s. (o : ℕ) → offset ≡ o + 4 → Onward message o end s)
        (param_step message end key len offset)
unfolding param_step
param_step-Ends message end key len offset h = ground (
  arith,
  length-take {0} {A = ℕ} (offset + len - offset) (drop offset message),
  length-drop {0} {A = ℕ} offset message,
)

param_round-Ends :
    (message : Bytes) (end offset : ℕ)
    → end ≤ length message
    → Ends (Onward message offset end) (param_round message end offset)
unfolding param_round
param_round-Ends message end offset h =
    Ends-bind _ (guard-Ends (not (ltb (end - offset) 4)) truncated_param tt) λ _ _.
      Ends-bind (IsPast message (offset + 2)) (read_u16_at-Ends message offset) λ (key, o) p.
        Ends-bind (IsPast message (o + 2)) (read_u16_at-Ends message o) λ (len, o') p'.
          Ends-map _ (param_step-Ends message end key len o' h) (λ s k. k offset (omega arith))

-- A value that was found is no longer than the message.
abbrev Fits : Bytes → Option Bytes → Type 0
Fits message none = Unit
Fits message (some value) = length value ≤ length message

params_loop-Ends :
    (fuel : ℕ) (message : Bytes) (end offset : ℕ)
    → end ≤ length message
    → end - offset < fuel
    → Ends (Fits message) (params_loop fuel message end offset)
unfolding params_loop
params_loop-Ends zero message end offset h f = absurd (omega arith)
params_loop-Ends (suc fuel) message end offset h f =
    go (ltb offset end) refl (λ o. params_loop-Ends fuel message end o h)
  where
    after :
        ltb offset end ≡ true
        → ((o : ℕ) → end - o < fuel → Ends (Fits message) (params_loop fuel message end o))
        → (s : ParamStep) → Onward message offset end s
        → Ends
            (Fits message)
            (elim s [ found value ↦ ok (some value) | onward o ↦ params_loop fuel message end o ])
    after more ih (found value) a = record { outcome = a }
    after more ih (onward o) a = ih o (omega (arith, ltb→lt offset end more))

    go :
        (b : Bool)
        → ltb offset end ≡ b
        → ((o : ℕ) → end - o < fuel → Ends (Fits message) (params_loop fuel message end o))
        → Ends (Fits message) (elim b [
          | false ↦ ok none
          | true ↦
              param_round message end offset
              >>= elim [ found value ↦ ok (some value) | onward o ↦ params_loop fuel message end o ]
        ])
    go false e ih = record { outcome = tt }
    go true e ih =
        Ends-bind (Onward message offset end) (param_round-Ends message end offset h) (after e ih)

parse_https_rdata_for_ech-Ends :
    (message : Bytes) (offset end : ℕ)
    → end ≤ length message
    → Ends (Fits message) (parse_https_rdata_for_ech message offset end)
unfolding parse_https_rdata_for_ech
parse_https_rdata_for_ech-Ends message offset end h =
    Ends-bind _ (skip_bytes-Ends message offset 2) λ o p.
      Ends-bind _ (skip_name_inner-Ends message o end)
        λ o' p'. params_loop-Ends (suc (length message)) message end o' h (omega arith)

skip_questions-Ends :
    (n : ℕ) (message : Bytes) (offset : ℕ)
    → offset ≤ length message
    → Ends (λ o. o ≤ length message) (skip_questions n message offset)
unfolding skip_questions
skip_questions-Ends zero message offset h = record { outcome = h }
skip_questions-Ends (suc n) message offset h =
    Ends-bind _ (skip_name_inner-Ends message offset (length message)) λ o p.
      Ends-bind _ (skip_bytes-Ends message o 4) λ o' p'. skip_questions-Ends n message o' p'.1

-- What an answer yields: a configuration that fits with a time to live that is not zero.
abbrev Yields : Bytes → AnswerStep → Type 0
Yields message (answer config ttl) = (length config ≤ length message) × (0 < ttl)
Yields message (skip_to o) = Unit

answer_step-Yields :
    (message : Bytes) (ttl end : ℕ) (ech : Option Bytes)
    → Fits message ech
    → Yields message (answer_step ttl end ech)
answer_step-Yields message ttl end none h = tt
answer_step-Yields message ttl end (some config) h = ground arith

read_rdata-Ends :
    (message : Bytes) (rr_type ttl start rdlen : ℕ)
    → Ends (Yields message) (read_rdata message rr_type ttl start rdlen)
unfolding read_rdata
read_rdata-Ends message rr_type ttl start rdlen =
    Ends-bind _ (ok_or-Ends rdata_overflow (checked_add start rdlen) tt) λ end _.
      Ends-bind _ (guard-Ends (leb end (length message)) rdata_exceeds tt) λ _ h.
        Ends-bind (Fits message) (svcb end (leb→le end (length message) h))
          λ ech f. record { outcome = answer_step-Yields message ttl end ech f }
  where
    svcb :
        (end : ℕ)
        → end ≤ length message
        → Ends
            (Fits message)
            (if rr_type == 65 then parse_https_rdata_for_ech message start end else ok none)
    svcb end h = elim (Bool-cases (rr_type == 65)) [
      | inl e ↦ rw e (parse_https_rdata_for_ech-Ends message start end h)
      | inr e ↦ rw e (record { outcome = tt })
    ]

parse_answer-Ends :
    (message : Bytes) (offset : ℕ) → Ends (Yields message) (parse_answer message offset)
unfolding parse_answer
parse_answer-Ends message offset =
    Ends-bind _ (skip_name_inner-Ends message offset (length message)) λ o p.
      Ends-bind (IsPast message (o + 2)) (read_u16_at-Ends message o) λ (rr_type, o1) p1.
        Ends-bind (IsPast message (o1 + 2)) (read_u16_at-Ends message o1) λ (class, o2) p2.
          Ends-bind (IsPast message (o2 + 4)) (read_u32_at-Ends message o2) λ (ttl, o3) p3.
            Ends-bind (IsPast message (o3 + 2)) (read_u16_at-Ends message o3)
              λ (rdlen, o4) p4. read_rdata-Ends message rr_type ttl o4 rdlen

parse_answers-Ends :
    (n : ℕ) (message : Bytes) (offset : ℕ)
    → Ends {A = Bytes × ℕ}
        (λ r. (length r.0 ≤ length message) × (0 < r.1))
        (parse_answers n message offset)
unfolding parse_answers
parse_answers-Ends zero message offset = record { outcome = tt }
parse_answers-Ends (suc n) message offset =
    Ends-bind (Yields message) (parse_answer-Ends message offset)
      (after (parse_answers-Ends n message))
  where
    after :
        ((o : ℕ)
          → Ends {A = Bytes × ℕ}
              (λ r. (length r.0 ≤ length message) × (0 < r.1))
              (parse_answers n message o))
        → (s : AnswerStep) → Yields message s
        → Ends {A = Bytes × ℕ}
            (λ r. (length r.0 ≤ length message) × (0 < r.1))
            (elim s [
              | answer config ttl ↦ ok (config, ttl)
              | skip_to o ↦ parse_answers n message o
            ])
    after ih (answer config ttl) y = record { outcome = y }
    after ih (skip_to o) y = ih o

-- Whatever bytes the resolver sends, the parser ends with an error that the code reports, and
-- never with an index panic or a loop cut off, or with a configuration no longer than the message
-- and a time to live that is not zero.
pub parse_https_response_for_ech-Ends :
    (message : Bytes)
    → Ends {A = Bytes × ℕ}
        (λ r. (length r.0 ≤ length message) × (0 < r.1))
        (parse_https_response_for_ech message)
unfolding parse_https_response_for_ech
parse_https_response_for_ech-Ends message =
    Ends-bind _ (guard-Ends (not (ltb (length message) 12)) too_short tt) λ _ h.
      Ends-bind (λ _. Unit {0}) (read_u16-Ends message 2)
        λ flags _.
          Ends-bind _ (guard-Ends (not (bit_and flags 0x8000 == 0)) not_a_response tt) λ _ _.
            Ends-bind _ (guard-Ends (bit_and flags 0x000f == 0) (rcode (bit_and flags 0x000f)) tt)
              λ _ _.
                Ends-bind (λ _. Unit {0}) (read_u16-Ends message 4)
                  λ qdcount _.
                    Ends-bind (λ _. Unit {0}) (read_u16-Ends message 6)
                      λ ancount _.
                        Ends-bind _ (skip_questions-Ends qdcount message 12 (ground arith))
                          λ offset _. parse_answers-Ends ancount message offset
