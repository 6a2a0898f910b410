-- ===== src/Network/Dns/Wire/Reader.antt =====
-- crates/pb-network/src/dns/wire.rs: the reader of responses. A read is `index` or `slice`, which panic
-- out of range. The loop of `skip_name` has fuel for 272 rounds (16 hops and 255 bytes of labels, and
-- the last round); `none` is a loop that is still running when the fuel is spent.
use dev_browse.Prelude.{
  ℕ, zero, suc, ◌+◌, ◌*◌, ◌/◌, ◌%◌, not, List, [], ◌∷◌, ◌++◌, Option, none, some, Outcome, ok, err,
  panic, ltb, leb, ◌==◌, if◌then◌else◌, length, is_empty,
}
use dev_browse.Prelude.Fallible.{◌>>=◌, ◌>>◌, index, slice}
use dev_browse.Network.Dns.Wire.{
  DnsRecord, WireError, a_record, aaaa_record, compression_loop, format_error, malformed_label,
  malformed_name, max_dns_message_bytes, max_label_len, max_name_len, max_pointer_hops,
  message_too_large, nx_domain, rdata_length_mismatch, server_failure, truncated,
  unexpected_question_count, unknown_rcode,
}

unfoldable pub read_advance : List ℕ → ℕ → ℕ → Outcome WireError ℕ
read_advance buf cursor n = if ltb (length buf) (cursor + n) then err truncated else ok (cursor + n)

unfoldable pub read_u16 : List ℕ → ℕ → Outcome WireError ℕ
read_u16 buf cursor =
    if ltb (length buf) (cursor + 2)
    then err truncated
    else do b0 ← index buf cursor; b1 ← index buf (cursor + 1); ok (b0 * 256 + b1)

unfoldable pub read_u32 : List ℕ → ℕ → Outcome WireError ℕ
read_u32 buf cursor = if ltb (length buf) (cursor + 4) then err truncated else do
  b0 ← index buf cursor
  b1 ← index buf (cursor + 1)
  b2 ← index buf (cursor + 2)
  b3 ← index buf (cursor + 3)
  ok (((b0 * 256 + b1) * 256 + b2) * 256 + b3)

-- `after_pointer.unwrap_or(cursor)`
abbrev pub unwrap_or : Option ℕ → ℕ → ℕ
unwrap_or none d = d
unwrap_or (some x) d = x

-- The locals of the loop of `skip_name`.
pub record Skip : Type 0 where
  pub cursor : ℕ
  pub hops : ℕ
  pub after_pointer : Option ℕ
  pub total_len : ℕ

pub data Round : Type 0 where
  again : Skip → Round
  return : ℕ → Round

-- The branch of a compression pointer.
unfoldable pub follow_pointer : List ℕ → ℕ → Skip → Outcome WireError Round
follow_pointer buf b s = if ltb (length buf) (s.cursor + 2) then err truncated else do
  low ← index buf (s.cursor + 1)
  if ltb max_pointer_hops (s.hops + 1)
      then err compression_loop
      else ok (
          again (record {
            cursor = b % 64 * 256 + low;
            hops = s.hops + 1;
            after_pointer = some (unwrap_or s.after_pointer (s.cursor + 2));
            total_len = s.total_len;
          }))

-- The branch of a label of `b` bytes.
unfoldable pub skip_label : List ℕ → ℕ → Skip → Outcome WireError Round
skip_label buf b s =
    if ltb max_label_len b
    then err malformed_label
    else if ltb (length buf) (s.cursor + 1 + b)
    then err truncated
    else if ltb max_name_len (s.total_len + 1 + b)
    then err malformed_name
    else ok (
        again (record {
          cursor = s.cursor + 1 + b;
          hops = s.hops;
          after_pointer = s.after_pointer;
          total_len = s.total_len + 1 + b;
        }))

-- One round of the loop of `skip_name`.
unfoldable pub skip_round : List ℕ → Skip → Outcome WireError Round
skip_round buf s = if leb (length buf) s.cursor then err truncated else do
  b ← index buf s.cursor
  if b == 0
      then ok (return (unwrap_or s.after_pointer (s.cursor + 1)))
      else if b / 64 % 4 == 3
      then follow_pointer buf b s
      else if not (b / 64 % 4 == 0)
      then err malformed_label
      else skip_label buf b s

-- `continue`, or leave the function with what the round came to.
abbrev pub after_round :
    (Skip → Option (Outcome WireError ℕ)) → Outcome WireError Round → Option (Outcome WireError ℕ)
after_round next (ok (again t)) = next t
after_round next (ok (return c)) = some (ok c)
after_round next (err e) = some (err e)
after_round next panic = some panic

unfoldable pub skip_loop : ℕ → List ℕ → Skip → Option (Outcome WireError ℕ)
skip_loop zero buf s = none
skip_loop (suc fuel) buf s = after_round (skip_loop fuel buf) (skip_round buf s)

abbrev pub skip_from : ℕ → Skip
skip_from start = record { cursor = start; hops = 0; after_pointer = none; total_len = 0 }

abbrev pub skip_fuel : ℕ
skip_fuel = 272

-- No Rust run is the `none` case: the loop ends within the fuel.
abbrev pub finished : Option (Outcome WireError ℕ) → Outcome WireError ℕ
finished none = panic
finished (some r) = r

unfoldable pub skip_name : List ℕ → ℕ → Outcome WireError ℕ
skip_name buf start = finished (skip_loop skip_fuel buf (skip_from start))

pub record DecodedAnswer : Type 0 where
  pub records : List DnsRecord
  pub min_ttl : ℕ

abbrev pub u32_max : ℕ
u32_max = 4_294_967_295

-- `Ipv4Addr::new(rdata[0], rdata[1], rdata[2], rdata[3])` behind the check of the length.
unfoldable pub a_rdata : List ℕ → Outcome WireError DnsRecord
a_rdata rdata = if not (length rdata == 4) then err rdata_length_mismatch else do
  b0 ← index rdata 0
  b1 ← index rdata 1
  b2 ← index rdata 2
  b3 ← index rdata 3
  ok (a_record (record { a = b0; b = b1; c = b2; d = b3 }))

-- `octets.copy_from_slice(rdata)`, which panics where the lengths differ.
unfoldable pub copy_octets : List ℕ → Outcome WireError (List ℕ)
copy_octets rdata = if length rdata == 16 then ok rdata else panic

-- A segment of `Ipv6Addr::from(octets)`.
unfoldable pub segment : List ℕ → ℕ → Outcome WireError ℕ
segment octets i = do
  high ← index octets (2 * i)
  low ← index octets (2 * i + 1)
  ok (high * 256 + low)

-- `Ipv6Addr::from(octets)`.
unfoldable pub ipv6_from : List ℕ → Outcome WireError DnsRecord
ipv6_from octets = do
  s0 ← segment octets 0
  s1 ← segment octets 1
  s2 ← segment octets 2
  s3 ← segment octets 3
  s4 ← segment octets 4
  s5 ← segment octets 5
  s6 ← segment octets 6
  s7 ← segment octets 7
  ok (
      aaaa_record
        (record { s0 = s0; s1 = s1; s2 = s2; s3 = s3; s4 = s4; s5 = s5; s6 = s6; s7 = s7 }))

unfoldable pub aaaa_rdata : List ℕ → Outcome WireError DnsRecord
aaaa_rdata rdata =
    if not (length rdata == 16)
    then err rdata_length_mismatch
    else (copy_octets rdata >>= ipv6_from)

-- The locals of the loop of `decode_response`.
pub record Decoding : Type 0 where
  pub cursor : ℕ
  pub records : List DnsRecord
  pub min_ttl : ℕ

unfoldable pub push_record : DnsRecord → ℕ → Decoding → Decoding
push_record r ttl d = record {
  cursor = d.cursor;
  records = d.records ++ r ∷ [];
  min_ttl = if ltb ttl d.min_ttl then ttl else d.min_ttl;
}

-- The `match` on the type of the record; other types are skipped.
unfoldable pub take_rdata : ℕ → ℕ → List ℕ → Decoding → Outcome WireError Decoding
take_rdata rrtype ttl rdata d =
    if rrtype == 1
    then (a_rdata rdata >>= (λ r. ok (push_record r ttl d)))
    else if rrtype == 28
    then (aaaa_rdata rdata >>= (λ r. ok (push_record r ttl d)))
    else ok d

abbrev pub move_to : ℕ → Decoding → Decoding
move_to cursor d = record { cursor = cursor; records = d.records; min_ttl = d.min_ttl }

-- One round of the loop over the answers.
unfoldable pub decode_record : List ℕ → Decoding → Outcome WireError Decoding
decode_record buf d = do
  cursor ← skip_name buf d.cursor
  rrtype ← read_u16 buf cursor
  class ← read_u16 buf (cursor + 2)
  ttl ← read_u32 buf (cursor + 4)
  rdlength ← read_u16 buf (cursor + 8)
  if ltb (length buf) (cursor + 10 + rdlength) then err rdata_length_mismatch else do
    rdata ← slice buf (cursor + 10) (cursor + 10 + rdlength)
    d' ← take_rdata rrtype ttl rdata d
    ok (move_to (cursor + 10 + rdlength) d')

unfoldable pub decode_records : ℕ → List ℕ → Decoding → Outcome WireError Decoding
decode_records zero buf d = ok d
decode_records (suc ancount) buf d = decode_record buf d >>= decode_records ancount buf

unfoldable pub check_rcode : ℕ → Outcome WireError (Unit {0})
check_rcode rcode =
    if rcode == 0
    then ok tt
    else if rcode == 2
    then err server_failure
    else if rcode == 1
    then err format_error
    else if rcode == 3
    then err nx_domain
    else err unknown_rcode

unfoldable pub decode_response : List ℕ → Outcome WireError DecodedAnswer
decode_response buf =
    if ltb max_dns_message_bytes (length buf)
    then err message_too_large
    else if ltb (length buf) 12
    then err truncated
    else do
      flags_high ← index buf 2
      flags_low ← index buf 3
      qd_high ← index buf 4
      qd_low ← index buf 5
      an_high ← index buf 6
      an_low ← index buf 7
      if not (qd_high * 256 + qd_low == 1) then err unexpected_question_count else do
        check_rcode ((flags_high * 256 + flags_low) % 16)
        cursor ← skip_name buf 12
        cursor' ← read_advance buf cursor 4
        d ←
            decode_records (an_high * 256 + an_low) buf
              (record { cursor = cursor'; records = []; min_ttl = u32_max })
        ok (record { records = d.records; min_ttl = if is_empty d.records then 0 else d.min_ttl })
