-- ===== src/Dns/Decode.antt =====
-- A whole response, answer by answer.
use ech_rust.Base.{
  ℕ, ◌+◌, ◌/◌, ◌%◌, ◌^◌, ◌≤◌, ◌<◌, ◌≡◌, ◌≢◌, refl, ap, ◌∙◌, List, [], ◌∷◌, ◌++◌, ok, err, ok_or,
  arith, length, All, length-append,
}
use ech_rust.Base.Bits.{bit_and-0x0f, bit_and-0x8000}
use ech_rust.Base.Text.{Bytes}
use ech_rust.Dns.{
  no_ech, too_short, not_a_response, rcode, be16, read_u16, answer_step, read_rdata, skip_questions,
  parse_answer, parse_answers, parse_https_response_for_ech,
}
use ech_rust.Dns.Cursor.{
  At, At-length, At-append, At-assoc, read_u16-be16, read_u16_at-be16, read_u32_at-be32,
  skip_bytes-append,
}
use ech_rust.Dns.Response.{skip_name_inner-encode, parse_https_rdata-encode}
use ech_rust.Dns.Wire.{
  encode_name, IsWireName, be32, RData, svcb, opaque, rr_type, encode_rdata, IsRData, Answer,
  encode_answer, IsAnswer, encode_answers, Question, encode_questions, Message, encode, IsMessage,
  ech_of, first_ech,
}

read_rdata-encode :
    {message : Bytes} {o : ℕ} (ttl : ℕ) (r : RData) (ys : Bytes)
    → IsRData r
    → At message o (encode_rdata r ++ ys)
    → read_rdata message (rr_type r) ttl o (length (encode_rdata r))
      ≡ ok (answer_step ttl (o + length (encode_rdata r)) (ech_of r))
unfolding read_rdata
read_rdata-encode {message} {o} ttl (svcb priority target ps) ys w a =
    let len = length (encode_rdata (svcb priority target ps)) in
    let inside = At-append (encode_rdata (svcb priority target ps)) ys a in
    let parsed = parse_https_rdata-encode (o + len) priority target ps ys w a refl in
    ground (arith, inside.inside, inside.fits, parsed)
read_rdata-encode {message} {o} ttl (opaque t bytes) ys w a =
    let inside = At-append bytes ys a in ground (arith, inside.inside, inside.fits)

rr_type-lt : (r : RData) → IsRData r → rr_type r < 2 ^ 16
rr_type-lt (svcb priority target ps) w = omega arith
rr_type-lt (opaque t bytes) w = w.0

module _ {message : Bytes} where
  parse_answer-encode :
      {o : ℕ} (a : Answer) (ys : Bytes)
      → IsAnswer a
      → At message o (encode_answer a ++ ys)
      → parse_answer message o
        ≡ ok (answer_step a.ttl (o + length (encode_answer a)) (ech_of a.rdata))
  unfolding parse_answer
  parse_answer-encode {o} a ys w at =
      let rdata = encode_rdata a.rdata in
      let len = length rdata in
      let t4 = rdata ++ ys in
      let t3 = be16 len ++ t4 in
      let t2 = be32 a.ttl ++ t3 in
      let t1 = be16 a.class ++ t2 in
      let t0 = be16 (rr_type a.rdata) ++ t1 in
      let a0 : At message o (encode_name a.owner ++ t0) = At-assoc (encode_name a.owner) _ ys at in
      let a1 = At-append (encode_name a.owner) t0 a0 in
      let a2 = At-append (be16 (rr_type a.rdata)) t1 a1 in
      let a3 = At-append (be16 a.class) t2 a2 in
      let a4 = At-append (be32 a.ttl) t3 a3 in
      let a5 = At-append (be16 len) t4 a4 in
      let skip =
        skip_name_inner-encode {message = message} (length message) a.owner t0 w.owner_ok a0
          a1.inside in
      let m1 : rr_type a.rdata % 2 ^ 16 ≡ rr_type a.rdata =
        omega (arith, rr_type-lt a.rdata w.rdata_ok) in
      let m4 : len % 2 ^ 16 ≡ len = omega (arith, w.rdata_fits) in
      let r1 = rw m1 at (read_u16_at-be16 (rr_type a.rdata) t1 a1) in
      let r2 = read_u16_at-be16 a.class t2 a2 in
      let r3 = read_u32_at-be32 a.ttl t3 w.ttl_fits a3 in
      let r4 = rw m4 at (read_u16_at-be16 len t4 a4) in
      let end : o + length (encode_name a.owner) + 2 + 2 + 4 + 2 + len
          ≡ o + length (encode_answer a) =
        omega (
          arith,
          length-append (encode_name a.owner)
              (be16 (rr_type a.rdata) ++ (be16 a.class ++ (be32 a.ttl ++ (be16 len ++ rdata)))),
        ) in
      rw (skip, r1, r2, r3, r4)
        (read_rdata-encode a.ttl a.rdata ys w.rdata_ok a5
          ∙ ap (λ (e : ℕ). ok (answer_step a.ttl e (ech_of a.rdata))) end)

  parse_answers-encode :
      {o : ℕ} (answers : List Answer) (ys : Bytes)
      → All IsAnswer answers
      → At message o (encode_answers answers ++ ys)
      → parse_answers (length answers) message o ≡ ok_or no_ech (first_ech answers)
  unfolding parse_answers
  parse_answers-encode [] ys w at = refl
  parse_answers-encode {o} (a ∷ rest) ys w at =
      let at' = At-assoc (encode_answer a) (encode_answers rest) ys at in
      let one = parse_answer-encode a (encode_answers rest ++ ys) w.0 at' in
      let more =
        parse_answers-encode {o = o + length (encode_answer a)} rest ys w.1
          (At-append (encode_answer a) (encode_answers rest ++ ys) at') in
      ground (arith, one, more)

  skip_questions-encode :
      {o : ℕ} (qs : List Question) (ys : Bytes)
      → All (λ q. IsWireName q.qname) qs
      → At message o (encode_questions qs ++ ys)
      → skip_questions (length qs) message o ≡ ok (o + length (encode_questions qs))
  unfolding skip_questions
  skip_questions-encode [] ys w at = ground arith
  skip_questions-encode {o} (q ∷ qs) ys w at =
      let rest = encode_questions qs in
      let fixed = be16 q.qtype ++ be16 q.qclass in
      let a0 : At message o (encode_name q.qname ++ (fixed ++ (rest ++ ys))) =
        At-assoc (encode_name q.qname) (be16 q.qtype ++ (be16 q.qclass ++ rest)) ys at in
      let a1 = At-append (encode_name q.qname) (fixed ++ (rest ++ ys)) a0 in
      let a2 = At-append fixed (rest ++ ys) a1 in
      let skip =
        skip_name_inner-encode {message = message} (length message) q.qname (fixed ++ (rest ++ ys))
          w.0 a0 a1.inside in
      let four = skip_bytes-append fixed (rest ++ ys) a1 in
      let more = skip_questions-encode {o = o + length (encode_name q.qname) + 4} qs ys w.1 a2 in
      rw (skip, four, more)
        (ap ok (
          omega
            (arith, length-append (encode_name q.qname) (be16 q.qtype ++ (be16 q.qclass ++ rest)))))

accepted_header :
    (message : Bytes) (flags qdcount ancount offset : ℕ)
    → 12 ≤ length message
    → read_u16 message 2 ≡ ok flags
    → flags / 2 ^ 15 ≡ 1
    → flags % 16 ≡ 0
    → read_u16 message 4 ≡ ok qdcount
    → read_u16 message 6 ≡ ok ancount
    → skip_questions qdcount message 12 ≡ ok offset
    → parse_https_response_for_ech message ≡ parse_answers ancount message offset
unfolding parse_https_response_for_ech
accepted_header message flags qdcount ancount offset len f qr ok0 q a s =
    ground (arith, bit_and-0x8000 flags, bit_and-0x0f flags)

-- A message of fewer than twelve bytes is too short; in any other, `flags` is the word at byte 2.
-- Without its highest bit the message is no response, whatever its code; with that bit, a code
-- other than 0 in the four lowest bits is reported as it is.
pub parse_https_response_for_ech-rejects :
    (message : Bytes) (flags : ℕ)
    → read_u16 message 2 ≡ ok flags
    → (length message < 12 → parse_https_response_for_ech message ≡ err too_short)
      × (12 ≤ length message
          → flags < 2 ^ 15
          → parse_https_response_for_ech message ≡ err not_a_response)
      × (12 ≤ length message
          → flags / 2 ^ 15 ≡ 1
          → flags % 16 ≢ 0
          → parse_https_response_for_ech message ≡ err (rcode (flags % 16)))
unfolding parse_https_response_for_ech
parse_https_response_for_ech-rejects message flags f = (
  λ h. ground arith,
  λ h k. ground (arith, bit_and-0x8000 flags),
  λ h qr bad. ground (arith, bit_and-0x8000 flags, bit_and-0x0f flags),
)

-- The header of a message: twelve bytes with the body behind them.
header_of : (m : Message) → IsMessage m → At (encode m) 0 (encode m)
header_of m w = record { inside = omega arith; rest_is = refl; fits = w.fits }

-- A well-formed response (QR bit set, response code 0) is read as the wire format means it: the
-- first answer that carries an ECH configuration, with its time to live, or 300 where that is 0;
-- without such an answer it is the error that says so. Names may be compressed, records of other
-- types and parameters with other keys are skipped, and what stands behind the answers is not
-- read.
pub parse_https_response_for_ech-encode :
    (m : Message)
    → IsMessage m
    → m.flags / 2 ^ 15 ≡ 1
    → m.flags % 16 ≡ 0
    → parse_https_response_for_ech (encode m) ≡ ok_or no_ech (first_ech m.answers)
unfolding parse_https_response_for_ech
parse_https_response_for_ech-encode m w qr ok0 =
    let message = encode m in
    let body = encode_answers m.answers ++ m.trailer in
    let t6 = encode_questions m.questions ++ body in
    let t5 = be16 m.arcount ++ t6 in
    let t4 = be16 m.nscount ++ t5 in
    let t3 = be16 (length m.answers) ++ t4 in
    let t2 = be16 (length m.questions) ++ t3 in
    let t1 = be16 m.flags ++ t2 in
    let a0 : At message 0 (be16 m.id ++ t1) = header_of m w in
    let a1 = At-append (be16 m.id) t1 a0 in
    let a2 = At-append (be16 m.flags) t2 a1 in
    let a3 = At-append (be16 (length m.questions)) t3 a2 in
    let a4 = At-append (be16 (length m.answers)) t4 a3 in
    let a5 = At-append (be16 m.nscount) t5 a4 in
    let a6 = At-append (be16 m.arcount) t6 a5 in
    let a7 = At-append (encode_questions m.questions) body a6 in
    let mf : m.flags % 2 ^ 16 ≡ m.flags = omega (arith, w.flags_fit) in
    let mq : length m.questions % 2 ^ 16 ≡ length m.questions = omega (arith, w.questions_fit) in
    let ma : length m.answers % 2 ^ 16 ≡ length m.answers = omega (arith, w.answers_fit) in
    let flags = rw mf at (read_u16-be16 m.flags t2 a1) in
    let questions = rw mq at (read_u16-be16 (length m.questions) t3 a2) in
    let answers = rw ma at (read_u16-be16 (length m.answers) t4 a3) in
    let skipped = skip_questions-encode m.questions body w.questions_ok a6 in
    let parsed = parse_answers-encode m.answers m.trailer w.answers_ok a7 in
    accepted_header message m.flags (length m.questions) (length m.answers)
      (12 + length (encode_questions m.questions)) (omega (arith, At-length a7)) flags qr ok0
      questions answers skipped
    ∙ parsed
