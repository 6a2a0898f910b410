-- ===== src/Network/Dns/Wire/Decode.antt =====
-- `decode_response` on any buffer.
use dev_browse.Prelude.{
  ℕ, zero, suc, ◌+◌, ◌*◌, ◌≤◌, ◌<◌, ◌≡◌, List, [], ◌∷◌, length, length-append, is_empty, Outcome,
  arith, not, ◌%◌, ltb, ◌==◌, if◌then◌else◌,
}
use dev_browse.Prelude.Fallible.{
  ◌>>=◌, index, slice, Post, Post-bind, Post-if, index-Post, slice-Post,
}
use dev_browse.Network.Dns.Wire.{WireError, DnsRecord}
use dev_browse.Network.Dns.Wire.Reader.{
  Decoding, DecodedAnswer, u32_max, read_advance, read_u16, read_u32, a_rdata, copy_octets, segment,
  ipv6_from, aaaa_rdata, push_record, take_rdata, decode_record, decode_records, check_rcode,
  decode_response, skip_name,
}
use dev_browse.Network.Dns.Wire.Walk.{skip_name-Ends}

read_advance-Post :
    (buf : List ℕ) (cursor n : ℕ)
    → Post (λ c. (c ≡ cursor + n) × (c ≤ length buf)) (read_advance buf cursor n)
unfolding read_advance
read_advance-Post buf cursor n = ground arith

read_u16-Post :
    (buf : List ℕ) (cursor : ℕ) → Post (λ v. cursor + 2 ≤ length buf) (read_u16 buf cursor)
unfolding read_u16
read_u16-Post buf cursor =
    Post-if _ (ltb (length buf) (cursor + 2)) _ _ (λ e. tt)
      (λ e.
        Post-bind _ _ (index buf cursor) _ (index-Post WireError buf cursor (ground arith))
          (λ b0 h0.
            Post-bind _ _ (index buf (cursor + 1)) _ (index-Post WireError buf _ (ground arith))
              (λ b1 h1. ground arith)))

read_u32-Post :
    (buf : List ℕ) (cursor : ℕ) → Post (λ v. cursor + 4 ≤ length buf) (read_u32 buf cursor)
unfolding read_u32
read_u32-Post buf cursor =
    Post-if _ (ltb (length buf) (cursor + 4)) _ _ (λ e. tt)
      (λ e.
        Post-bind _ _ (index buf cursor) _ (index-Post WireError buf cursor (ground arith))
          (λ b0 h0.
            Post-bind _ _ (index buf (cursor + 1)) _ (index-Post WireError buf _ (ground arith))
              (λ b1 h1.
                Post-bind _ _ (index buf (cursor + 2)) _ (index-Post WireError buf _ (ground arith))
                  (λ b2 h2.
                    Post-bind _ _ (index buf (cursor + 3)) _
                      (index-Post WireError buf _ (ground arith)) (λ b3 h3. ground arith)))))

a_rdata-Post : (rdata : List ℕ) → Post (λ r. length rdata ≡ 4) (a_rdata rdata)
unfolding a_rdata
a_rdata-Post rdata =
    Post-if _ (not (length rdata == 4)) _ _ (λ e. tt)
      (λ e. Post-bind _ _ (index rdata 0) _ (index-Post WireError rdata 0 (ground arith)) (λ b0 h0.
        Post-bind _ _ (index rdata 1) _ (index-Post WireError rdata 1 (ground arith)) (λ b1 h1.
          Post-bind _ _ (index rdata 2) _ (index-Post WireError rdata 2 (ground arith)) (λ b2 h2.
            Post-bind _ _ (index rdata 3) _ (index-Post WireError rdata 3 (ground arith))
              (λ b3 h3. ground arith)))))

segment-Post :
    (octets : List ℕ) (i : ℕ) → 2 * i + 1 < length octets → Post (λ s. Unit) (segment octets i)
unfolding segment
segment-Post octets i h =
    Post-bind _ _ (index octets (2 * i)) _ (index-Post WireError octets _ (omega arith)) (λ high hh.
      Post-bind _ _ (index octets (2 * i + 1)) _ (index-Post WireError octets _ h) (λ low hl. tt))

-- A segment is read and the rest is done, on sixteen octets.
segment_then :
    (Q : Type 0) (octets : List ℕ) (i : ℕ) (f : ℕ → Outcome WireError DnsRecord)
    → length octets ≡ 16
    → i < 8
    → ((s : ℕ) → Post (λ r. Q) (f s))
    → Post (λ r. Q) (segment octets i >>= f)
segment_then Q octets i f n h k =
    Post-bind _ _ (segment octets i) f (segment-Post octets i (omega arith)) (λ s u. k s)

ipv6_from-Post :
    (Q : Type 0) (octets : List ℕ) → length octets ≡ 16 → Q → Post (λ r. Q) (ipv6_from octets)
unfolding ipv6_from
ipv6_from-Post Q octets n q = segment_then Q octets 0 _ n (omega arith) (λ s0.
    segment_then Q octets 1 _ n (omega arith) (λ s1.
      segment_then Q octets 2 _ n (omega arith) (λ s2.
        segment_then Q octets 3 _ n (omega arith) (λ s3.
          segment_then Q octets 4 _ n (omega arith) (λ s4.
            segment_then Q octets 5 _ n (omega arith) (λ s5.
              segment_then Q octets 6 _ n (omega arith)
                (λ s6. segment_then Q octets 7 _ n (omega arith) (λ s7. q))))))))

copy_octets-Post :
    (rdata : List ℕ) → length rdata ≡ 16 → Post (λ o. length o ≡ 16) (copy_octets rdata)
unfolding copy_octets
copy_octets-Post rdata n = ground arith

aaaa_rdata-Post : (rdata : List ℕ) → Post (λ r. length rdata ≡ 16) (aaaa_rdata rdata)
unfolding aaaa_rdata
aaaa_rdata-Post rdata =
    Post-if _ (not (length rdata == 16)) _ _ (λ e. tt)
      (λ e.
        Post-bind _ _ (copy_octets rdata) _ (copy_octets-Post rdata (ground arith))
          (λ o n. ipv6_from-Post _ o n (ground arith)))

-- What the loop over the answers keeps: 17 bytes go before the first answer, and one that is
-- surfaced takes at least 15.
abbrev Progress : List ℕ → Decoding → Type 0
Progress buf d =
    (15 * length d.records + 17 ≤ d.cursor) × (d.cursor ≤ length buf) × (d.min_ttl ≤ u32_max)

push_record-length :
    (r : DnsRecord) (ttl : ℕ) (d : Decoding)
    → (length (push_record r ttl d).records ≡ length d.records + 1)
      × ((push_record r ttl d).min_ttl ≤ d.min_ttl)
unfolding push_record
push_record-length r ttl d = ground (arith, length-append d.records (r ∷ []))

take_rdata-Post :
    (rrtype ttl : ℕ) (rdata : List ℕ) (d : Decoding)
    → Post
        (λ d'.
          (15 * length d'.records ≤ 15 * length d.records + 11 + length rdata)
          × (d'.min_ttl ≤ d.min_ttl))
        (take_rdata rrtype ttl rdata d)
unfolding take_rdata
take_rdata-Post rrtype ttl rdata d =
    Post-if _ (rrtype == 1) _ _
      (λ e.
        Post-bind _ _ (a_rdata rdata) _ (a_rdata-Post rdata)
          (λ r h. omega (arith, push_record-length r ttl d)))
      (λ e.
        Post-if _ (rrtype == 28) _ _
          (λ e'.
            Post-bind _ _ (aaaa_rdata rdata) _ (aaaa_rdata-Post rdata)
              (λ r h. omega (arith, push_record-length r ttl d)))
          (λ e'. omega arith))

decode_record-Post :
    (buf : List ℕ) (d : Decoding) → Progress buf d → Post (Progress buf) (decode_record buf d)
unfolding decode_record
decode_record-Post buf d p =
    Post-bind _ _ (skip_name buf d.cursor) _ (skip_name-Ends buf d.cursor) (λ c hc.
      Post-bind _ _ (read_u16 buf c) _ (read_u16-Post buf c) (λ rrtype h1.
        Post-bind _ _ (read_u16 buf (c + 2)) _ (read_u16-Post buf (c + 2)) (λ class h2.
          Post-bind _ _ (read_u32 buf (c + 4)) _ (read_u32-Post buf (c + 4)) (λ ttl h3.
            Post-bind _ _ (read_u16 buf (c + 8)) _ (read_u16-Post buf (c + 8)) (λ n h4.
              Post-if _ (ltb (length buf) (c + 10 + n)) _ _ (λ e. tt)
                (λ e.
                  Post-bind _ _ (slice buf (c + 10) (c + 10 + n)) _
                    (slice-Post WireError buf (c + 10) (c + 10 + n) (omega arith) (ground arith))
                    (λ rdata short.
                      Post-bind _ _ (take_rdata rrtype ttl rdata d) _
                        (take_rdata-Post rrtype ttl rdata d)
                        (λ d' h. ground (arith, p, hc, h, short)))))))))

decode_records-Post :
    (ancount : ℕ) (buf : List ℕ) (d : Decoding)
    → Progress buf d
    → Post (Progress buf) (decode_records ancount buf d)
unfolding decode_records
decode_records-Post zero buf d p = p
decode_records-Post (suc ancount) buf d p =
    Post-bind _ _ (decode_record buf d) _ (decode_record-Post buf d p)
      (λ d' p'. decode_records-Post ancount buf d' p')

check_rcode-Post : (rcode : ℕ) → Post (λ _. rcode ≡ 0) (check_rcode rcode)
unfolding check_rcode
check_rcode-Post rcode = ground arith

-- What a decoded answer satisfies: it is small in the message, and its time to live is a `u32`.
abbrev pub Answer : List ℕ → DecodedAnswer → Type 0
Answer buf a =
    (15 * length a.records + 17 ≤ length buf)
    × (length buf ≤ 65536)
    × (a.min_ttl ≤ u32_max)
    × (a.min_ttl ≡ (if is_empty a.records then 0 else a.min_ttl))

-- On every buffer, hostile ones included, `decode_response` does not panic: no read is out of
-- bounds and no loop runs on. An answer that it accepts comes from a message of at most 65536
-- bytes, of which every record took 15 at least and what stands before the records 17, so a false
-- record count in the header cannot inflate it; its time to live fits a `u32`, and is 0 when it has
-- no record.
pub decode_response-Answer : (buf : List ℕ) → Post (Answer buf) (decode_response buf)
unfolding decode_response
decode_response-Answer buf =
    Post-if _ (ltb 65536 (length buf)) _ _ (λ e. tt)
      (λ e.
        Post-if _ (ltb (length buf) 12) _ _ (λ e'. tt)
          (λ e'.
            let byte = λ (i : ℕ) (h : i < 12). index-Post WireError buf i (ground arith) in
            Post-bind _ _ (index buf 2) _ (byte 2 (omega arith)) (λ f0 _.
              Post-bind _ _ (index buf 3) _ (byte 3 (omega arith)) (λ f1 _.
                Post-bind _ _ (index buf 4) _ (byte 4 (omega arith)) (λ q0 _.
                  Post-bind _ _ (index buf 5) _ (byte 5 (omega arith)) (λ q1 _.
                    Post-bind _ _ (index buf 6) _ (byte 6 (omega arith)) (λ n0 _.
                      Post-bind _ _ (index buf 7) _ (byte 7 (omega arith)) (λ n1 _.
                        Post-if _ (not (q0 * 256 + q1 == 1)) _ _ (λ _. tt)
                          (λ _.
                            Post-bind _ _ (check_rcode ((f0 * 256 + f1) % 16)) _
                              (check_rcode-Post _)
                              (λ _ _.
                                Post-bind _ _ (skip_name buf 12) _ (skip_name-Ends buf 12) (λ c hc.
                                  Post-bind _ _ (read_advance buf c 4) _ (read_advance-Post buf c 4)
                                    (λ c' hc'.
                                      Post-bind _ _ (decode_records (n0 * 256 + n1) buf _) _
                                        (decode_records-Post _ buf _ (omega arith))
                                        (λ d p. ground arith)))))))))))))
