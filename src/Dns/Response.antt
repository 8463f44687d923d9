-- ===== src/Dns/Response.antt =====
-- The parser reads a well-formed message as the wire format means it.
use mathlib.Core.List.{append_assoc}
use ech_rust.Base.{
  ℕ, zero, suc, ◌+◌, ◌-◌, ◌%◌, ◌^◌, ◌≤◌, ◌<◌, ◌≡◌, ap, ◌∙◌, true, List, [], ◌∷◌, ◌++◌, ok, arith,
  ltb, lt→ltb, ◌==◌, length, All, length-append, if◌then◌else◌,
}
use ech_rust.Base.Bits.{bit_and-0xc0}
use ech_rust.Base.Text.{Bytes}
use ech_rust.Dns.{
  be16, done, next, name_step, name_round, skip_name_loop, skip_name_inner, ParamStep, found,
  onward, param_step, param_round, params_loop, parse_https_rdata_for_ech,
}
use ech_rust.Dns.Cursor.{
  At, At-length, At-append, At-step, At-slice, At-byte, read_u16_at-be16, skip_bytes-append,
}
use ech_rust.Dns.Wire.{
  WireName, root, pointer, label, encode_name, IsWireName, Param, encode_params, IsParam, svcb,
  encode_rdata, IsRData, ech_value,
}

module _ {message : Bytes} {o : ℕ} where
  name_round-label :
      (end : ℕ) (l ys : Bytes)
      → 1 ≤ length l
      → length l ≤ 63
      → At message o (length l ∷ (l ++ ys))
      → o < end
      → name_round message end o ≡ ok (next (o + suc (length l)))
  unfolding name_round name_step
  name_round-label end l ys p q a e =
      ground (arith, At-byte a, At-length a, a.fits, length-append l ys, bit_and-0xc0 (length l))

  name_round-root :
      (end : ℕ) (ys : Bytes)
      → At message o (0 ∷ ys)
      → o < end
      → name_round message end o ≡ ok (done (o + 1))
  unfolding name_round name_step
  name_round-root end ys a e = ground (arith, At-byte a, At-length a)

  name_round-pointer :
      (end hi lo : ℕ) (ys : Bytes)
      → 192 ≤ hi
      → hi < 256
      → At message o (hi ∷ lo ∷ ys)
      → o + 2 ≤ end
      → name_round message end o ≡ ok (done (o + 2))
  unfolding name_round name_step
  name_round-pointer end hi lo ys p q a e = ground (arith, At-byte a, At-length a, bit_and-0xc0 hi)

skip_name_loop-encode :
    {message : Bytes} (fuel o end : ℕ) (n : WireName) (ys : Bytes)
    → IsWireName n
    → At message o (encode_name n ++ ys)
    → o + length (encode_name n) ≤ end
    → length message - o < fuel
    → skip_name_loop fuel message end o ≡ ok (o + length (encode_name n))
unfolding skip_name_loop
skip_name_loop-encode zero o end n ys w a e f = absurd (omega arith)
skip_name_loop-encode (suc fuel) o end root ys w a e f = rw (name_round-root end ys a (omega arith))
skip_name_loop-encode (suc fuel) o end (pointer hi lo) ys w a e f =
    rw (name_round-pointer end hi lo ys w.0 w.1 a e)
skip_name_loop-encode {message} (suc fuel) o end (label l n) ys w a e f =
    let here : At message o (length l ∷ (l ++ (encode_name n ++ ys))) = record {
      inside = a.inside;
      rest_is = a.rest_is ∙ ap (◌∷◌ (length l)) (append_assoc l (encode_name n) ys);
      fits = a.fits;
    } in
    let split = length-append l (encode_name n) in
    let tail =
      skip_name_loop-encode {message = message} fuel (o + suc (length l)) end n ys w.2
        (At-step (length l) l (encode_name n ++ ys) here) (omega (arith, split))
        (omega (arith, At-length a)) in
    rw (name_round-label end l (encode_name n ++ ys) w.0 w.1 here (omega arith))
      (tail ∙ ap ok (omega (arith, split)))

pub skip_name_inner-encode :
    {message : Bytes} {o : ℕ} (end : ℕ) (n : WireName) (ys : Bytes)
    → IsWireName n
    → At message o (encode_name n ++ ys)
    → o + length (encode_name n) ≤ end
    → skip_name_inner message o end ≡ ok (o + length (encode_name n))
unfolding skip_name_inner
skip_name_inner-encode {message} {o} end n ys w a e =
    skip_name_loop-encode (suc (length message)) o end n ys w a e (omega arith)

abbrev step_of : Param → ℕ → ParamStep
step_of p o = if p.key == 5 then found p.value else onward (o + length p.value)

param_step-encode :
    {message : Bytes} {o : ℕ} (end : ℕ) (p : Param) (ys : Bytes)
    → At message o (p.value ++ ys)
    → o + length p.value ≤ end
    → end ≤ length message
    → param_step message end p.key (length p.value) o ≡ ok (step_of p o)
unfolding param_step
param_step-encode {message} {o} end p ys a e f =
    ground (arith, At-slice p.value ys a, a.fits, At-length a, length-append p.value ys)

-- One parameter, with the rest of the record data behind it.
param_round-encode :
    {message : Bytes} {o : ℕ} (end : ℕ) (p : Param) (ys : Bytes)
    → IsParam p
    → At message o (be16 p.key ++ (be16 (length p.value) ++ (p.value ++ ys)))
    → o + 2 + 2 + length p.value ≤ end
    → end ≤ length message
    → param_round message end o ≡ ok (step_of p (o + 2 + 2))
unfolding param_round
param_round-encode {message} {o} end p ys w a e f =
    let a1 = At-append (be16 p.key) (be16 (length p.value) ++ (p.value ++ ys)) a in
    let a2 = At-append (be16 (length p.value)) (p.value ++ ys) a1 in
    let r1 = read_u16_at-be16 p.key (be16 (length p.value) ++ (p.value ++ ys)) a in
    let r2 = read_u16_at-be16 (length p.value) (p.value ++ ys) a1 in
    let m1 : p.key % 2 ^ 16 ≡ p.key = omega arith in
    let m2 : length p.value % 2 ^ 16 ≡ length p.value = omega arith in
    ground (arith, rw m1 at r1, rw m2 at r2, param_step-encode end p ys a2 e f)

params_loop-encode :
    {message : Bytes} (fuel o end : ℕ) (ps : List Param) (ys : Bytes)
    → All IsParam ps
    → At message o (encode_params ps ++ ys)
    → end ≡ o + length (encode_params ps)
    → length message - o < fuel
    → params_loop fuel message end o ≡ ok (ech_value ps)
unfolding params_loop
params_loop-encode zero o end ps ys w a e f = absurd (omega arith)
params_loop-encode (suc fuel) o end [] ys w a e f = ground arith
params_loop-encode {message} (suc fuel) o end (p ∷ ps) ys w a e f =
    let rest = encode_params ps ++ ys in
    let here : At message o (be16 p.key ++ (be16 (length p.value) ++ (p.value ++ rest))) = record {
      inside = a.inside;
      rest_is =
          a.rest_is
          ∙ ap (λ (t : Bytes). be16 p.key ++ (be16 (length p.value) ++ t))
              (append_assoc p.value (encode_params ps) ys);
      fits = a.fits;
    } in
    let a1 = At-append (be16 p.key) (be16 (length p.value) ++ (p.value ++ rest)) here in
    let a2 = At-append (be16 (length p.value)) (p.value ++ rest) a1 in
    let a3 = At-append p.value rest a2 in
    let sizes = length-append p.value (encode_params ps) in
    let more : ltb o end ≡ true = lt→ltb o end (omega (arith, sizes)) in
    let past = At-length a3 in
    let whole = length-append (encode_params ps) ys in
    let round =
      param_round-encode end p rest w.0 here (omega (arith, sizes))
        (omega (arith, sizes, past, whole)) in
    let tail =
      params_loop-encode {message = message} fuel (o + 2 + 2 + length p.value) end ps ys w.1 a3
        (omega (arith, sizes)) (omega (arith, past, At-length here)) in
    ground (arith, more, round, tail)

pub parse_https_rdata-encode :
    {message : Bytes} {o : ℕ} (end priority : ℕ) (target : WireName) (ps : List Param) (ys : Bytes)
    → IsRData (svcb priority target ps)
    → At message o (encode_rdata (svcb priority target ps) ++ ys)
    → end ≡ o + length (encode_rdata (svcb priority target ps))
    → parse_https_rdata_for_ech message o end ≡ ok (ech_value ps)
unfolding parse_https_rdata_for_ech
parse_https_rdata-encode {message} {o} end priority target ps ys w a e =
    let rest = encode_params ps ++ ys in
    let here : At message o (be16 priority ++ (encode_name target ++ rest)) = record {
      inside = a.inside;
      rest_is =
          a.rest_is
          ∙ ap (λ (t : Bytes). be16 priority ++ t)
              (append_assoc (encode_name target) (encode_params ps) ys);
      fits = a.fits;
    } in
    let a1 = At-append (be16 priority) (encode_name target ++ rest) here in
    let a2 = At-append (encode_name target) rest a1 in
    let sizes = length-append (encode_name target) (encode_params ps) in
    let skipped =
      skip_name_inner-encode {message = message} end target rest w.0 a1 (omega (arith, sizes)) in
    let tail =
      params_loop-encode {message = message} (suc (length message))
        (o + 2 + length (encode_name target)) end ps ys w.1 a2 (omega (arith, sizes))
        (omega arith) in
    ground
      (arith, skip_bytes-append (be16 priority) (encode_name target ++ rest) here, skipped, tail)
