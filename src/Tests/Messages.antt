-- ===== src/Tests/Messages.antt =====
-- The DNS messages of client/src/ech_tls.rs: a compressed response, and what goes wrong.
use ech_rust.Base.Text.{Bytes, codes, split}
use ech_rust.Base.{ℕ, ◌<◌, ◌≤◌, ◌≡◌, refl, [], ◌∷◌, some, ok, arith, length, ok_or}
use ech_rust.Dns.Decode.{parse_https_response_for_ech-encode}
use ech_rust.Dns.Offsets.{parse_https_response_for_ech-Ends}
use ech_rust.Dns.Outcomes.{Ends}
use ech_rust.Dns.Query.{query_for}
use ech_rust.Dns.Wire.{
  WireName, root, pointer, label, Answer, Message, Param, encode, IsMessage, IsAnswer, first_ech,
  svcb, opaque,
}
use ech_rust.Dns.{
  push_labels, trim_end_matches, no_ech, build_https_query, parse_https_response_for_ech,
}

-- A CNAME, then the HTTPS record with `alpn` and `ech`, both owned by the question's name.
abbrev alpn_param : Param
alpn_param = record { key = 1; value = 2 ∷ 104 ∷ 50 ∷ [] }

abbrev ech_param : Param
ech_param = record { key = 5; value = 0 ∷ 4 ∷ 254 ∷ 13 ∷ 0 ∷ 0 ∷ [] }

abbrev cname : Answer
cname = record { owner = pointer 192 12; class = 1; ttl = 60; rdata = opaque 5 (192 ∷ 12 ∷ []) }

abbrev https : Answer
https = record {
  owner = pointer 192 12;
  class = 1;
  ttl = 0;
  rdata = svcb 1 root (alpn_param ∷ ech_param ∷ []);
}

abbrev example_name : WireName
example_name = label (codes "example") (label (codes "org") root)

abbrev pub response : Message
response = record {
  id = 0;
  flags = 0x8180;
  questions = record { qname = example_name; qtype = 65; qclass = 1 } ∷ [];
  answers = cname ∷ https ∷ [];
  nscount = 0;
  arcount = 0;
  trailer = [];
}

cname-IsAnswer : IsAnswer cname
cname-IsAnswer = record {
  owner_ok = omega arith;
  ttl_fits = omega arith;
  rdata_ok = (omega arith, omega arith);
  rdata_fits = omega arith;
}

https-IsAnswer : IsAnswer https
https-IsAnswer = record {
  owner_ok = omega arith;
  ttl_fits = omega arith;
  rdata_ok = (tt, omega arith);
  rdata_fits = omega arith;
}

response-IsMessage : IsMessage response
response-IsMessage = record {
  flags_fit = omega arith;
  questions_fit = omega arith;
  answers_fit = omega arith;
  questions_ok = omega arith;
  answers_ok = (cname-IsAnswer, (https-IsAnswer, tt));
  fits = omega arith;
}

first_ech_value : first_ech response.answers ≡ some (ech_param.value, 300)
first_ech_value = refl

parse_https_response_for_ech-encode_example :
    parse_https_response_for_ech (encode response) ≡ ok_or no_ech (first_ech response.answers)
parse_https_response_for_ech-encode_example =
    parse_https_response_for_ech-encode response response-IsMessage refl refl

pub parsed : parse_https_response_for_ech (encode response) ≡ ok (ech_param.value, 300)
parsed = parse_https_response_for_ech-encode response response-IsMessage refl refl

query_example :
    build_https_query (codes "example.org.")
    ≡ ok (encode (query_for (codes "example" ∷ codes "org" ∷ [])))
unfolding build_https_query push_labels trim_end_matches split
query_example = refl

parse_https_response_for_ech-Ends_example :
    Ends {A = Bytes × ℕ}
      (λ r. (length r.0 ≤ length (encode response)) × (0 < r.1))
      (parse_https_response_for_ech (encode response))
parse_https_response_for_ech-Ends_example = parse_https_response_for_ech-Ends (encode response)
