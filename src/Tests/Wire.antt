-- ===== src/Tests/Wire.antt =====
-- The theorems on crates/pb-network/src/dns/wire.rs at concrete messages.
use dev_browse.Prelude.{
  ℕ, ◌*◌, ◌+◌, ◌≤◌, ◌<◌, ◌≡◌, refl, List, [], ◌∷◌, ◌++◌, some, Outcome, ok, err, length, is_empty,
  if◌then◌else◌,
}
use dev_browse.Prelude.Fallible.{Post}
use dev_browse.Network.Dns.Wire.{
  WireError, type_a, type_aaaa, a_record, truncated, compression_loop, encode_query,
}
use dev_browse.Network.Dns.Wire.Reader.{
  decode_response, read_advance, skip_name, skip_loop, skip_fuel, skip_from,
}
use dev_browse.Network.Dns.Wire.Walk.{Ends, skip_loop-Ends}
use dev_browse.Network.Dns.Wire.Decode.{Answer, decode_response-Answer}
use dev_browse.Network.Dns.Wire.RoundTrip.{skip_name-encode_query}

-- `a.b` as bytes, and the query for its IPv4 address.
abbrev a_dot_b : List ℕ
a_dot_b = 97 ∷ 46 ∷ 66 ∷ []

abbrev question : List ℕ
question = 1 ∷ 97 ∷ 1 ∷ 98 ∷ 0 ∷ 0 ∷ 1 ∷ 0 ∷ 1 ∷ []

abbrev query : List ℕ
query = 0 ∷ 0 ∷ 1 ∷ 0 ∷ 0 ∷ 1 ∷ 0 ∷ 0 ∷ 0 ∷ 0 ∷ 0 ∷ 0 ∷ question

query_bytes : encode_query a_dot_b type_a ≡ ok query
unfolding encode_query dev_browse.Network.Dns.Wire.encode_name
    dev_browse.Network.Dns.Wire.encode_labels dev_browse.Network.Blocklist.RadixTree.split_dots
    dev_browse.Network.Dns.Wire.all_name_bytes dev_browse.Network.Dns.Wire.name_byte
    dev_browse.Network.Dns.Wire.query_header dev_browse.Network.Blocklist.Rule.to_ascii_lowercase
query_bytes = refl

-- A response with one record, of the root name, which the header may count wrong.
abbrev record_a : List ℕ
record_a = 0 ∷ 0 ∷ 1 ∷ 0 ∷ 1 ∷ 0 ∷ 0 ∷ 1 ∷ 44 ∷ 0 ∷ 4 ∷ 1 ∷ 2 ∷ 3 ∷ 4 ∷ []

abbrev response : ℕ → List ℕ
response count =
    (0 ∷ 0 ∷ 129 ∷ 128 ∷ 0 ∷ 1 ∷ 0 ∷ count ∷ 0 ∷ 0 ∷ 0 ∷ 0 ∷ 0 ∷ 0 ∷ 1 ∷ 0 ∷ 1 ∷ []) ++ record_a

response_cut : decode_response (response 2) ≡ err truncated
unfolding decode_response dev_browse.Prelude.Fallible.index
    dev_browse.Network.Dns.Wire.Reader.check_rcode skip_name skip_loop
    dev_browse.Network.Dns.Wire.Reader.skip_round read_advance
    dev_browse.Network.Dns.Wire.Reader.decode_records
    dev_browse.Network.Dns.Wire.Reader.decode_record dev_browse.Network.Dns.Wire.Reader.read_u16
    dev_browse.Network.Dns.Wire.Reader.read_u32 dev_browse.Network.Dns.Wire.Reader.take_rdata
    dev_browse.Network.Dns.Wire.Reader.a_rdata dev_browse.Prelude.Fallible.slice
    dev_browse.Prelude.Fallible.take dev_browse.Prelude.Fallible.drop
    dev_browse.Network.Dns.Wire.Reader.push_record
response_cut = refl

response_one :
    decode_response (response 1)
    ≡ ok (record { records = a_record (record { a = 1; b = 2; c = 3; d = 4 }) ∷ []; min_ttl = 300 })
unfolding decode_response dev_browse.Prelude.Fallible.index
    dev_browse.Network.Dns.Wire.Reader.check_rcode skip_name skip_loop
    dev_browse.Network.Dns.Wire.Reader.skip_round read_advance
    dev_browse.Network.Dns.Wire.Reader.decode_records
    dev_browse.Network.Dns.Wire.Reader.decode_record dev_browse.Network.Dns.Wire.Reader.read_u16
    dev_browse.Network.Dns.Wire.Reader.read_u32 dev_browse.Network.Dns.Wire.Reader.take_rdata
    dev_browse.Network.Dns.Wire.Reader.a_rdata dev_browse.Prelude.Fallible.slice
    dev_browse.Prelude.Fallible.take dev_browse.Prelude.Fallible.drop
    dev_browse.Network.Dns.Wire.Reader.push_record
response_one = refl

-- A pointer to itself.
self_pointer : skip_name (192 ∷ 0 ∷ []) 0 ≡ err compression_loop
unfolding skip_name skip_loop dev_browse.Network.Dns.Wire.Reader.skip_round
    dev_browse.Prelude.Fallible.index dev_browse.Network.Dns.Wire.Reader.follow_pointer
self_pointer = refl

skip_loop-Ends_example :
    (r : Outcome WireError ℕ) × (skip_loop skip_fuel (192 ∷ 0 ∷ []) (skip_from 0) ≡ some r)
    × Ends (192 ∷ 0 ∷ []) 0 r
skip_loop-Ends_example = skip_loop-Ends (192 ∷ 0 ∷ []) 0

decode_response-Answer_example : Post (Answer (response 1)) (decode_response (response 1))
decode_response-Answer_example = decode_response-Answer (response 1)

skip_name-encode_query_example :
    (c : ℕ) × (skip_name query 12 ≡ ok c) × (read_advance query c 4 ≡ ok 21) × (21 ≤ 272)
skip_name-encode_query_example = skip_name-encode_query a_dot_b type_a query query_bytes
