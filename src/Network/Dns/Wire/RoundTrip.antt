-- ===== src/Network/Dns/Wire/RoundTrip.antt =====
-- `encode_query` against the reader of `decode_response`.
use mathlib.Core.List.{append_assoc}
use dev_browse.Prelude.{
  ℕ, zero, suc, ◌+◌, ◌/◌, ◌%◌, ◌≤◌, ◌≡◌, refl, ap, ◌∙◌, List, [], ◌∷◌, ◌++◌, none, some, ok, length,
  length-append, is_empty, arith, not, map, ltb, false,
}
use dev_browse.Prelude.Fallible.{index-append, guard_ok, bind_ok}
use dev_browse.Network.Blocklist.Rule.{lower, to_ascii_lowercase}
use dev_browse.Network.Blocklist.RadixTree.{split_dots}
use dev_browse.Network.Dns.Wire.{
  WireError, QueryType, type_code, all_name_bytes, encode_labels, encode_name, encode_query,
  query_header,
}
use dev_browse.Network.Dns.Wire.Reader.{
  Skip, again, return, read_advance, skip_label, skip_round, skip_loop, skip_name, finished,
}

length-map : (f : ℕ → ℕ) (s : List ℕ) → length (map f s) ≡ length s
length-map f [] = refl
length-map f (x ∷ s) = omega (arith, length-map f s)

length-to_ascii_lowercase : (s : List ℕ) → length (to_ascii_lowercase s) ≡ length s
unfolding to_ascii_lowercase
length-to_ascii_lowercase s = length-map lower s

-- The walk in a name, before any pointer.
abbrev reading : ℕ → ℕ → Skip
reading cursor total_len = record {
  cursor = cursor;
  hops = 0;
  after_pointer = none;
  total_len = total_len;
}

skip_round_label :
    (pre bytes post : List ℕ) (n total : ℕ)
    → length bytes ≡ n
    → 1 ≤ n
    → n ≤ 63
    → total + 1 + n ≤ 255
    → skip_round (pre ++ n ∷ (bytes ++ post)) (reading (length pre) total)
      ≡ ok (again (reading (length pre + 1 + n) (total + 1 + n)))
unfolding skip_round skip_label
skip_round_label pre bytes post n total hb h1 h63 ht = ground (
  arith,
  index-append {E = WireError} pre (bytes ++ post) n,
  length-append pre (n ∷ (bytes ++ post)),
  length-append bytes post,
)

skip_round_root :
    (pre post : List ℕ) (total : ℕ)
    → skip_round (pre ++ 0 ∷ post) (reading (length pre) total) ≡ ok (return (length pre + 1))
unfolding skip_round
skip_round_root pre post total =
    ground (arith, index-append {E = WireError} pre post 0, length-append pre (0 ∷ post))

-- A label that the encoder accepts, and what it pushes before the other labels.
record Pushed (label : List ℕ) (labels : List (List ℕ)) (total : ℕ) (out : List ℕ) : Type 0 where
  rest : List ℕ
  accepted : encode_labels labels (total + 1 + length label) ≡ ok rest
  pushed : out ≡ length label ∷ (to_ascii_lowercase label ++ rest)
  nonempty : 1 ≤ length label
  short : length label ≤ 63
  within : total + 1 + length label ≤ 255

encode_labels-Pushed :
    (label : List ℕ) (labels : List (List ℕ)) (total : ℕ) (out : List ℕ)
    → encode_labels (label ∷ labels) total ≡ ok out
    → Pushed label labels total out
unfolding encode_labels
encode_labels-Pushed label labels total out e =
    let (g1, e1) = guard_ok (is_empty label) _ _ out e in
    let (g2, e2) = guard_ok (ltb 63 (length label)) _ _ out e1 in
    let (g3, e3) = guard_ok (not (all_name_bytes label)) _ _ out e2 in
    let (g4, e4) = guard_ok (ltb 255 (total + 1 + length label)) _ _ out e3 in
    let (rest, accepted, pushed) = bind_ok _ _ out e4 in
    record {
      rest = rest;
      accepted = accepted;
      pushed = cc pushed;
      nonempty = nonempty label g1;
      short = ground arith;
      within = ground arith;
    }
  where
    nonempty : (s : List ℕ) → is_empty s ≡ false → 1 ≤ length s
    nonempty [] g = cc
    nonempty (x ∷ s) g = omega arith

no_labels : (total : ℕ) (out : List ℕ) → encode_labels [] total ≡ ok out → out ≡ []
unfolding encode_labels
no_labels total out e = cc

skip_loop_again :
    (fuel : ℕ) (buf : List ℕ) (s t : Skip)
    → skip_round buf s ≡ ok (again t)
    → skip_loop (suc fuel) buf s ≡ skip_loop fuel buf t
unfolding skip_loop
skip_loop_again fuel buf s t e = rw e refl

skip_loop-return :
    (fuel : ℕ) (buf : List ℕ) (s : Skip) (c : ℕ)
    → skip_round buf s ≡ ok (return c)
    → skip_loop (suc fuel) buf s ≡ some (ok c)
unfolding skip_loop
skip_loop-return fuel buf s c e = rw e refl

abbrev SkipRun : ℕ → List ℕ → Skip → ℕ → Type 0
SkipRun fuel buf s c = skip_loop fuel buf s ≡ some (ok c)

-- The walk over the labels that `encode_labels` pushed and the root label behind them.
skip_labels :
    (fuel total : ℕ) (labels : List (List ℕ)) (pre out post : List ℕ)
    → encode_labels labels total ≡ ok out
    → total ≤ 255
    → 256 ≤ fuel + total
    → SkipRun fuel
        (pre ++ (out ++ 0 ∷ post))
        (reading (length pre) total)
        (length pre + length out + 1)
      × (length out + total ≤ 255)
skip_labels zero total labels pre out post e h hf = absurd (omega arith)
skip_labels (suc fuel) total [] pre out post e h hf = rw (no_labels total out e) (
  skip_loop-return fuel _ _ _ (skip_round_root pre post total)
      ∙ ap (λ n. some (ok n)) (omega arith),
  omega arith,
)
skip_labels (suc fuel) total (label ∷ labels) pre out post e h hf =
    let p = encode_labels-Pushed label labels total out e in
    let name = to_ascii_lowercase label in
    let n = length label in
    let size : length name ≡ n = length-to_ascii_lowercase label in
    let here : length (pre ++ n ∷ name) ≡ length pre + 1 + n =
      omega (arith, length-append pre (n ∷ name), size) in
    let (run, fits) =
      skip_labels fuel (total + 1 + n) labels (pre ++ n ∷ name) p.rest post p.accepted p.within
        (omega (arith, p.nonempty)) in
    let round =
      skip_round_label pre name (p.rest ++ 0 ∷ post) n total size p.nonempty p.short p.within in
    let ends : length p.rest + length name + 1 ≡ length out =
      rw p.pushed (omega (arith, length-append name p.rest)) in
    let total_run : length (pre ++ n ∷ name) + length p.rest + 1 ≡ length pre + length out + 1 =
      omega (arith, here, ends, size) in
    (
      cc (
        skip_loop_again fuel _ _ _ round,
        run,
        here,
        p.pushed,
        total_run,
        append_assoc pre (n ∷ name) (p.rest ++ 0 ∷ post),
        append_assoc name p.rest (0 ∷ post),
      ),
      omega (arith, fits, ends, size),
    )

-- The question that `encode_query` writes is read back: the name ends four bytes before the end, and
-- type and class take these four, so the reader of a response is then at the end of the message.
-- The message has 272 bytes at most.
pub skip_name-encode_query :
    (qname : List ℕ) (qtype : QueryType) (q : List ℕ)
    → encode_query qname qtype ≡ ok q
    → (c : ℕ) × (skip_name q 12 ≡ ok c) × (read_advance q c 4 ≡ ok (length q)) × (length q ≤ 272)
unfolding encode_query encode_name skip_name query_header read_advance
skip_name-encode_query qname qtype q e =
    let (name, e1, e2) = bind_ok _ _ q e in
    let (g, e3) = guard_ok (is_empty qname) _ _ name e1 in
    let (out, e4, e5) = bind_ok _ _ name e3 in
    let tail : List ℕ = type_code qtype / 256 ∷ type_code qtype % 256 ∷ 0 ∷ 1 ∷ [] in
    let (run, fits) =
      skip_labels 272 0 (split_dots qname) query_header out tail e4 (omega arith) (omega arith) in
    let shape : q ≡ query_header ++ (out ++ 0 ∷ tail) =
      cc (e2, e5, append_assoc out (0 ∷ []) tail) in
    let size : length q ≡ 12 + length out + 5 =
      rw shape (omega (arith, length-append out (0 ∷ tail))) in
    (12 + length out + 1, cc (shape, ap finished run), ground arith, omega arith)
