-- ===== src/Dns.antt =====
-- client/src/ech_tls.rs: the DNS messages of the ECH bootstrap. A message is its list of bytes.
pub mod Query
pub mod Offsets
pub mod Outcomes
pub mod Names
pub mod Wire
pub mod Cursor
pub mod Response
pub mod Decode
use Prim.Native.Nat.{bit_and}
use ech_rust.Base.{
  ℕ, zero, suc, ◌+◌, ◌-◌, ◌*◌, ◌/◌, ◌%◌, ◌^◌, ◌≤◌, Bool, true, false, not, ◌&&◌, ◌||◌, List, [],
  ◌∷◌, ◌++◌, Option, none, some, Result, ok, err, ◌>>=◌, ◌>>◌, guard, ok_or, ltb, leb, ◌==◌,
  if◌then◌else◌, length, take, drop, get_elem?,
}
use ech_rust.Base.Text.{Bytes, is_empty, split}

-- The messages of `bail!` and `context`. `panicked` is an index out of bounds and `out_of_fuel` a
-- loop that was cut off; neither is reached (`Dns.Offsets`).
pub data DnsError : Type 0 where
  invalid_name invalid_label : DnsError
  too_short not_a_response no_ech : DnsError
  rcode : ℕ → DnsError
  rdata_overflow rdata_exceeds : DnsError
  truncated_param param_overflow param_exceeds : DnsError
  truncated_name truncated_pointer label_type label_overflow : DnsError
  offset_overflow truncated_message truncated_u16 truncated_u32 : DnsError
  panicked out_of_fuel : DnsError

abbrev pub usize_mod : ℕ
usize_mod = 2 ^ 64

abbrev pub checked_add : ℕ → ℕ → Option ℕ
checked_add a b = if ltb (a + b) usize_mod then some (a + b) else none

-- `message.get(a..b)`
abbrev pub slice : Bytes → ℕ → ℕ → Option Bytes
slice message a b =
    if leb a b && leb b (length message) then some (take (b - a) (drop a message)) else none

-- `u16::to_be_bytes`
abbrev pub be16 : ℕ → Bytes
be16 n = n / 256 % 256 ∷ n % 256 ∷ []

-- `str::trim_end_matches`
unfoldable pub trim_end_matches : ℕ → Bytes → Bytes
trim_end_matches sep [] = []
trim_end_matches sep (c ∷ cs) =
    let rest = trim_end_matches sep cs in if c == sep && is_empty rest then [] else c ∷ rest

-- The loop over the labels of the name.
unfoldable pub push_labels : List Bytes → Bytes → Result DnsError Bytes
push_labels [] out = ok out
push_labels (label ∷ labels) out =
    if is_empty label || ltb 63 (length label)
    then err invalid_label
    else push_labels labels ((out ++ length label % 256 ∷ []) ++ label)

abbrev pub query_header : Bytes
query_header = be16 0x4543 ++ be16 0x0100 ++ be16 1 ++ be16 0 ++ be16 0 ++ be16 0

unfoldable pub build_https_query : Bytes → Result DnsError Bytes
build_https_query name = do
  guard (not (is_empty name || ltb 253 (length name))) invalid_name
  out ← push_labels (split b'.' (trim_end_matches b'.' name)) query_header
  ok (((out ++ 0 ∷ []) ++ be16 65) ++ be16 1)

-- A big-endian number of the bytes.
abbrev pub from_be : ℕ → Bytes → ℕ
from_be acc [] = acc
from_be acc (b ∷ bs) = from_be (acc * 256 + b) bs

unfoldable pub read_u16 : Bytes → ℕ → Result DnsError ℕ
read_u16 message offset = do
  end ← ok_or offset_overflow (checked_add offset 2)
  bytes ← ok_or truncated_u16 (slice message offset end)
  ok (from_be 0 bytes)

-- The readers that advance the offset return the value and the new offset.
pub read_u16_at : Bytes → ℕ → Result DnsError (ℕ × ℕ)
read_u16_at message offset = do value ← read_u16 message offset; ok (value, offset + 2)

pub read_u32_at : Bytes → ℕ → Result DnsError (ℕ × ℕ)
read_u32_at message offset = do
  end ← ok_or offset_overflow (checked_add offset 4)
  bytes ← ok_or truncated_u32 (slice message offset end)
  ok (from_be 0 bytes, end)

pub skip_bytes : Bytes → ℕ → ℕ → Result DnsError ℕ
skip_bytes message offset count = do
  end ← ok_or offset_overflow (checked_add offset count)
  guard (leb end (length message)) truncated_message
  ok end

-- One round of the loop of `skip_name_inner`, on the byte at `pos`: the offset behind the name, or
-- the position of the next label.
pub data NameStep : Type 0 where
  done : ℕ → NameStep
  next : ℕ → NameStep

pub name_step : Bytes → ℕ → ℕ → ℕ → Result DnsError NameStep
name_step message end pos len =
    if bit_and len 0xc0 == 0xc0
    then (if leb end (pos + 1) || leb (length message) (pos + 1)
        then err truncated_pointer
        else ok (done (pos + 2)))
    else if not (bit_and len 0xc0 == 0)
    then err label_type
    else if len == 0
    then ok (done (pos + 1))
    else (do after ← ok_or label_overflow (checked_add (pos + 1) len); ok (next after))

pub name_round : Bytes → ℕ → ℕ → Result DnsError NameStep
name_round message end pos = do
  guard (not (leb end pos || leb (length message) pos)) truncated_name
  len ← ok_or panicked (get_elem? message pos)
  name_step message end pos len

pub skip_name_loop : ℕ → Bytes → ℕ → ℕ → Result DnsError ℕ
skip_name_loop zero message end pos = err out_of_fuel
skip_name_loop (suc fuel) message end pos =
    name_round message end pos
    >>= elim [ done offset ↦ ok offset | next pos' ↦ skip_name_loop fuel message end pos' ]

-- Each round moves forward inside the message, so its length bounds the rounds.
pub skip_name_inner : Bytes → ℕ → ℕ → Result DnsError ℕ
skip_name_inner message offset end = skip_name_loop (suc (length message)) message end offset

abbrev pub skip_name : Bytes → ℕ → Result DnsError ℕ
skip_name message offset = skip_name_inner message offset (length message)

abbrev pub skip_name_bounded : Bytes → ℕ → ℕ → Result DnsError ℕ
skip_name_bounded message offset end = skip_name_inner message offset end

-- One round over the SVCB parameters: the value of the `ech` parameter, or the next offset.
pub data ParamStep : Type 0 where
  found : Bytes → ParamStep
  onward : ℕ → ParamStep

pub param_step : Bytes → ℕ → ℕ → ℕ → ℕ → Result DnsError ParamStep
param_step message end key len offset = do
  value_end ← ok_or param_overflow (checked_add offset len)
  guard (leb value_end end) param_exceeds
  if key == 5
      then (do value ← ok_or panicked (slice message offset value_end); ok (found value))
      else ok (onward value_end)

pub param_round : Bytes → ℕ → ℕ → Result DnsError ParamStep
param_round message end offset = do
  guard (not (ltb (end - offset) 4)) truncated_param
  (key, o) ← read_u16_at message offset
  (len, o') ← read_u16_at message o
  param_step message end key len o'

pub params_loop : ℕ → Bytes → ℕ → ℕ → Result DnsError (Option Bytes)
params_loop zero message end offset = err out_of_fuel
params_loop (suc fuel) message end offset = elim (ltb offset end) [
  | false ↦ ok none
  | true ↦ param_round message end offset >>= elim [
    | found value ↦ ok (some value)
    | onward offset' ↦ params_loop fuel message end offset'
  ]
]

-- Each round moves at least four bytes forward, so the length of the message bounds the rounds.
pub parse_https_rdata_for_ech : Bytes → ℕ → ℕ → Result DnsError (Option Bytes)
parse_https_rdata_for_ech message offset end = do
  o ← skip_bytes message offset 2
  o' ← skip_name_bounded message o end
  params_loop (suc (length message)) message end o'

-- `for _ in 0..qdcount`
pub skip_questions : ℕ → Bytes → ℕ → Result DnsError ℕ
skip_questions zero message offset = ok offset
skip_questions (suc n) message offset = do
  o ← skip_name message offset
  o' ← skip_bytes message o 4
  skip_questions n message o'

abbrev pub default_ech_cache_ttl : ℕ
default_ech_cache_ttl = 300

-- One answer: the ECH configuration with its time to live in seconds, or the offset behind the
-- record where it has none.
pub data AnswerStep : Type 0 where
  answer : Bytes → ℕ → AnswerStep
  skip_to : ℕ → AnswerStep

abbrev pub answer_step : ℕ → ℕ → Option Bytes → AnswerStep
answer_step ttl rdata_end none = skip_to rdata_end
answer_step ttl rdata_end (some config) =
    answer config (if ttl == 0 then default_ech_cache_ttl else ttl)

pub read_rdata : Bytes → ℕ → ℕ → ℕ → ℕ → Result DnsError AnswerStep
read_rdata message rr_type ttl rdata_start rdlen = do
  rdata_end ← ok_or rdata_overflow (checked_add rdata_start rdlen)
  guard (leb rdata_end (length message)) rdata_exceeds
  ech ← if rr_type == 65 then parse_https_rdata_for_ech message rdata_start rdata_end else ok none
  ok (answer_step ttl rdata_end ech)

pub parse_answer : Bytes → ℕ → Result DnsError AnswerStep
parse_answer message offset = do
  o ← skip_name message offset
  (rr_type, o1) ← read_u16_at message o
  (class, o2) ← read_u16_at message o1
  (ttl, o3) ← read_u32_at message o2
  (rdlen, rdata_start) ← read_u16_at message o3
  read_rdata message rr_type ttl rdata_start rdlen

-- `for _ in 0..ancount`
pub parse_answers : ℕ → Bytes → ℕ → Result DnsError (Bytes × ℕ)
parse_answers zero message offset = err no_ech
parse_answers (suc n) message offset =
    parse_answer message offset
    >>= elim [ answer config ttl ↦ ok (config, ttl) | skip_to o ↦ parse_answers n message o ]

unfoldable pub parse_https_response_for_ech : Bytes → Result DnsError (Bytes × ℕ)
parse_https_response_for_ech message = do
  guard (not (ltb (length message) 12)) too_short
  flags ← read_u16 message 2
  guard (not (bit_and flags 0x8000 == 0)) not_a_response
  guard (bit_and flags 0x000f == 0) (rcode (bit_and flags 0x000f))
  qdcount ← read_u16 message 4
  ancount ← read_u16 message 6
  offset ← skip_questions qdcount message 12
  parse_answers ancount message offset
