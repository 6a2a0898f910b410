-- ===== src/Network/Dns/Wire.antt =====
-- crates/pb-network/src/dns/wire.rs: the DNS message format, its constants and errors, and the writer of
-- queries. A message is the list of its bytes; a mask on a byte is a division, and a big-endian word
-- is written out.
pub mod Reader
pub mod Walk
pub mod Decode
pub mod RoundTrip
use dev_browse.Prelude.{
  ℕ, zero, suc, ◌+◌, ◌*◌, ◌/◌, ◌%◌, Bool, true, false, not, ◌&&◌, ◌||◌, List, [], ◌∷◌, ◌++◌, Option,
  none, some, Outcome, ok, err, panic, ltb, leb, ◌==◌, if◌then◌else◌, length, is_empty,
}
use dev_browse.Prelude.Fallible.{◌>>=◌, ◌>>◌, index, take, drop}
use dev_browse.Network.Dns.Rebinding.{Ipv4Addr, Ipv6Addr}
use dev_browse.Network.Blocklist.Rule.{to_ascii_lowercase}
use dev_browse.Network.Blocklist.RadixTree.{split_dots}

-- crates/pb-network/src/dns/resolver.rs: the two kinds of query and of record.
pub data QueryType : Type 0 where
  type_a type_aaaa : QueryType

abbrev pub type_code : QueryType → ℕ
type_code type_a = 1
type_code type_aaaa = 28

pub data DnsRecord : Type 0 where
  a_record : Ipv4Addr → DnsRecord
  aaaa_record : Ipv6Addr → DnsRecord

abbrev pub max_dns_message_bytes : ℕ
max_dns_message_bytes = 64 * 1024

abbrev pub max_pointer_hops : ℕ
max_pointer_hops = 16

abbrev pub max_label_len : ℕ
max_label_len = 63

abbrev pub max_name_len : ℕ
max_name_len = 255

pub data WireError : Type 0 where
  message_too_large truncated malformed_label malformed_name : WireError
  compression_loop unexpected_question_count server_failure format_error : WireError
  nx_domain unknown_rcode rdata_length_mismatch invalid_hostname : WireError

-- `b.is_ascii_alphanumeric() || b == b'-' || b == b'_'`
unfoldable pub name_byte : ℕ → Bool
name_byte b =
    (leb 48 b && leb b 57)
    || (leb 65 b && leb b 90)
    || (leb 97 b && leb b 122)
    || b == 45
    || b == 95

unfoldable pub all_name_bytes : List ℕ → Bool
all_name_bytes [] = true
all_name_bytes (b ∷ bs) = if name_byte b then all_name_bytes bs else false

-- The loop of `encode_name` over the labels; the result is the bytes that it pushes.
unfoldable pub encode_labels : List (List ℕ) → ℕ → Outcome WireError (List ℕ)
encode_labels [] total_len = ok []
encode_labels (label ∷ labels) total_len =
    let total_len' = total_len + 1 + length label in
    let rest = encode_labels labels total_len' in
    if is_empty label
    then err invalid_hostname
    else if ltb max_label_len (length label)
    then err invalid_hostname
    else if not (all_name_bytes label)
    then err invalid_hostname
    else if ltb max_name_len total_len'
    then err invalid_hostname
    else (rest >>= (λ out. ok (length label ∷ to_ascii_lowercase label ++ out)))

unfoldable pub encode_name : List ℕ → Outcome WireError (List ℕ)
encode_name qname =
    if is_empty qname
    then err invalid_hostname
    else (encode_labels (split_dots qname) 0 >>= (λ out. ok (out ++ 0 ∷ [])))

unfoldable pub query_header : List ℕ
query_header = 0 ∷ 0 ∷ 1 ∷ 0 ∷ 0 ∷ 1 ∷ 0 ∷ 0 ∷ 0 ∷ 0 ∷ 0 ∷ 0 ∷ []

unfoldable pub encode_query : List ℕ → QueryType → Outcome WireError (List ℕ)
encode_query qname qtype = encode_name qname >>= (λ name.
    ok (query_header ++ (name ++ type_code qtype / 256 ∷ type_code qtype % 256 ∷ 0 ∷ 1 ∷ [])))
