-- ===== src/Dns/Wire.antt =====
-- The wire format of RFC 1035 and RFC 9460, as far as an HTTPS response uses it: what the parser
-- is measured against.
use ech_rust.Base.{
  ℕ, ◌/◌, ◌%◌, ◌^◌, ◌≤◌, ◌<◌, ◌≢◌, List, [], ◌∷◌, ◌++◌, Option, none, some, length, All, ◌==◌,
  if◌then◌else◌,
}
use ech_rust.Base.Text.{Bytes}
use ech_rust.Dns.{be16, default_ech_cache_ttl}

-- A domain name, which may end in a compression pointer.
pub data WireName : Type 0 where
  root : WireName
  pointer : ℕ → ℕ → WireName
  label : Bytes → WireName → WireName

abbrev pub encode_name : WireName → Bytes
encode_name root = 0 ∷ []
encode_name (pointer hi lo) = hi ∷ lo ∷ []
encode_name (label l n) = length l ∷ (l ++ encode_name n)

-- Labels of 1 to 63 bytes; a pointer's first byte has its two high bits set.
abbrev pub IsWireName : WireName → Type 0
IsWireName root = Unit
IsWireName (pointer hi lo) = (192 ≤ hi) × (hi < 256)
IsWireName (label l n) = (1 ≤ length l) × (length l ≤ 63) × IsWireName n

abbrev pub be32 : ℕ → Bytes
be32 n = n / 0x100_0000 % 256 ∷ n / 0x1_0000 % 256 ∷ n / 256 % 256 ∷ n % 256 ∷ []

-- One SVCB parameter.
pub record Param : Type 0 where
  pub key : ℕ
  pub value : Bytes

abbrev pub encode_params : List Param → Bytes
encode_params [] = []
encode_params (p ∷ ps) = be16 p.key ++ (be16 (length p.value) ++ (p.value ++ encode_params ps))

abbrev pub IsParam : Param → Type 0
IsParam p = (p.key < 2 ^ 16) × (length p.value < 2 ^ 16)

-- Record data: an SVCB record, or that of another type than 65.
pub data RData : Type 0 where
  svcb : ℕ → WireName → List Param → RData
  opaque : ℕ → Bytes → RData

abbrev pub rr_type : RData → ℕ
rr_type (svcb _ _ _) = 65
rr_type (opaque t _) = t

abbrev pub encode_rdata : RData → Bytes
encode_rdata (svcb priority target params) =
    be16 priority ++ (encode_name target ++ encode_params params)
encode_rdata (opaque t bytes) = bytes

abbrev pub IsRData : RData → Type 0
IsRData (svcb priority target params) = IsWireName target × All IsParam params
IsRData (opaque t bytes) = (t < 2 ^ 16) × (t ≢ 65)

pub record Answer : Type 0 where
  pub owner : WireName
  pub class : ℕ
  pub ttl : ℕ
  pub rdata : RData

abbrev pub encode_answer : Answer → Bytes
encode_answer a =
    encode_name a.owner
    ++ (be16 (rr_type a.rdata)
        ++ (be16 a.class
            ++ (be32 a.ttl ++ (be16 (length (encode_rdata a.rdata)) ++ encode_rdata a.rdata))))

pub record IsAnswer (a : Answer) : Type 0 where
  pub owner_ok : IsWireName a.owner
  pub ttl_fits : a.ttl < 2 ^ 32
  pub rdata_ok : IsRData a.rdata
  pub rdata_fits : length (encode_rdata a.rdata) < 2 ^ 16

abbrev pub encode_answers : List Answer → Bytes
encode_answers [] = []
encode_answers (a ∷ as') = encode_answer a ++ encode_answers as'

pub record Question : Type 0 where
  pub qname : WireName
  pub qtype : ℕ
  pub qclass : ℕ

abbrev pub encode_questions : List Question → Bytes
encode_questions [] = []
encode_questions (q ∷ qs) =
    encode_name q.qname ++ (be16 q.qtype ++ (be16 q.qclass ++ encode_questions qs))

-- A message: the authority and additional sections stand behind the answers, unread.
pub record Message : Type 0 where
  pub id : ℕ
  pub flags : ℕ
  pub questions : List Question
  pub answers : List Answer
  pub nscount : ℕ
  pub arcount : ℕ
  pub trailer : Bytes

abbrev pub encode : Message → Bytes
encode m =
    be16 m.id
    ++ (be16 m.flags
        ++ (be16 (length m.questions)
            ++ (be16 (length m.answers)
                ++ (be16 m.nscount
                    ++ (be16 m.arcount
                        ++ (encode_questions m.questions
                            ++ (encode_answers m.answers ++ m.trailer)))))))

-- A message whose counts fit their fields and that an address space can hold.
pub record IsMessage (m : Message) : Type 0 where
  pub flags_fit : m.flags < 2 ^ 16
  pub questions_fit : length m.questions < 2 ^ 16
  pub answers_fit : length m.answers < 2 ^ 16
  pub questions_ok : All (λ q. IsWireName q.qname) m.questions
  pub answers_ok : All IsAnswer m.answers
  pub fits : length (encode m) < 2 ^ 63

-- The value of the first parameter with the key of `ech`.
abbrev pub ech_value : List Param → Option Bytes
ech_value [] = none
ech_value (p ∷ ps) = if p.key == 5 then some p.value else ech_value ps

abbrev pub ech_of : RData → Option Bytes
ech_of (svcb _ _ params) = ech_value params
ech_of (opaque _ _) = none

abbrev pub with_ttl : ℕ → Option Bytes → Option (Bytes × ℕ) → Option (Bytes × ℕ)
with_ttl ttl none rest = rest
with_ttl ttl (some config) rest = some (config, if ttl == 0 then default_ech_cache_ttl else ttl)

-- The first answer that carries an ECH configuration, with its time to live, or 300 for 0.
abbrev pub first_ech : List Answer → Option (Bytes × ℕ)
first_ech [] = none
first_ech (a ∷ as') = with_ttl a.ttl (ech_of a.rdata) (first_ech as')
