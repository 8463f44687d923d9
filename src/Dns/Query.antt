-- ===== src/Dns/Query.antt =====
-- `build_https_query`: which names are refused, and what the query for the others is.
use ech_rust.Base.{
  ◌≤◌, ◌<◌, ◌≡◌, Bool, true, ◌||◌, List, [], ◌∷◌, ◌++◌, Result, ok, err, ◌>>=◌, ltb, ◌⊎◌, length,
  any,
}
use ech_rust.Base.Text.{Bytes, is_empty, split}
use ech_rust.Dns.{
  DnsError, invalid_name, invalid_label, be16, trim_end_matches, push_labels, query_header,
}
use ech_rust.Dns.Wire.{WireName, root, label, IsWireName, Message, encode}

abbrev pub wire_name : List Bytes → WireName
wire_name [] = root
wire_name (l ∷ ls) = label l (wire_name ls)

-- The labels with a dot between each two.
abbrev pub dotted : List Bytes → Bytes
dotted [] = []
dotted (l ∷ []) = l
dotted (l ∷ m ∷ ls) = l ++ b'.' ∷ dotted (m ∷ ls)

abbrev is_bad : Bytes → Bool
is_bad l = is_empty l || ltb 63 (length l)

-- A standard query, recursion desired, for the HTTPS records (type 65) of a name in class IN.
abbrev pub query_for : List Bytes → Message
query_for ls = record {
  id = 0x4543;
  flags = 0x0100;
  questions = record { qname = wire_name ls; qtype = 65; qclass = 1 } ∷ [];
  answers = [];
  nscount = 0;
  arcount = 0;
  trailer = [];
}

abbrev pushed : List Bytes → Bytes
pushed [] = []
pushed (l ∷ ls) = length l ∷ (l ++ pushed ls)

-- A name of 1 to 253 bytes.
abbrev pub Fits : Bytes → Type 0
Fits name = (1 ≤ length name) × (length name ≤ 253)

-- What the query is, or which fault of the name refuses it.
abbrev pub Answers : Bytes → Result DnsError Bytes → Type 0
Answers name (ok out) =
    Fits name
    × (ls : List Bytes) × (dotted ls ≡ trim_end_matches b'.' name)
    × IsWireName (wire_name ls)
    × (out ≡ encode (query_for ls))
    × (length out ≤ 271)
Answers name (err invalid_name) = (name ≡ []) ⊎ (253 < length name)
Answers name (err invalid_label) =
    Fits name × (any is_bad (split b'.' (trim_end_matches b'.' name)) ≡ true)
Answers name (err _) = ⊥

abbrev query_of : List Bytes → Result DnsError Bytes
query_of ls = do out ← push_labels ls query_header; ok (((out ++ 0 ∷ []) ++ be16 65) ++ be16 1)
