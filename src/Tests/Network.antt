-- ===== src/Tests/Network.antt =====
-- The theorems on crates/pb-network at concrete caches and rules.
use dev_browse.Prelude.{
  not, false, true, ℕ, ◌*◌, ◌≤◌, ◌≡◌, refl, List, [], ◌∷◌, arith, none, some, ok, ℕ_discrete,
}
use dev_browse.Network.Dns.Cache.{
  DnsCache, ResolveResult, new, partition, put_positive, put_negative, get, drop_partition,
}
use dev_browse.Network.Dns.Cache.Bounds.{PartitionOk}
use dev_browse.Network.Dns.Cache.Runs.{Call, puts, fails, gets, drops, run, run-PartitionOk}
use dev_browse.Network.Dns.Cache.Guarantees.{get-put_positive, partitions_separate}
use dev_browse.Network.Dns.Rebinding.{Ipv4Addr, Ipv6Addr, v4, v6, is_public}
use dev_browse.Network.Dns.Rebinding.Blocks.{any_within, blocks, is_public-blocks}
use dev_browse.Network.Dns.Rebinding.BlocksV6.{number as number_v6, blocks_v6, is_public-blocks_v6}
use dev_browse.Network.Blocklist.Rule.{
  Rule, ad, tracker, fingerprint_attempt, host, host_exact, to_ascii_lowercase,
}
use dev_browse.Network.Blocklist.RadixTree.{labels, match_host, from_rules, count_rules}
use dev_browse.Network.Blocklist.RadixTree.Paths.{latest}
use dev_browse.Network.Blocklist.RadixTree.Longest.{Longest, match_host-Longest}

-- Queries, records and errors are numbers here; a minute's answer for query 5.
abbrev answer : ResolveResult ℕ
answer = record { records = 11; ttl_seconds = 60 }

abbrev empty_cache : DnsCache ℕ ℕ ℕ
unfolding new
empty_cache = new

abbrev ns : ℕ → ℕ
ns seconds = seconds * 1_000_000_000

get-put_positive_example :
    let c = put_positive ℕ_discrete empty_cache 1 5 answer 0 in
    (n : ℕ) × (n ≤ 60)
    × (get ℕ_discrete c 1 5 (ns 10) (ns 11)
        ≡ (c, some (ok (record { records = 11; ttl_seconds = n }))))
get-put_positive_example =
    get-put_positive ℕ_discrete empty_cache 1 5 answer 0 (ns 10) (ns 11) (omega arith) (omega arith)
      (omega arith)

abbrev history : List (Call ℕ ℕ ℕ)
history = puts 1 5 answer 0 ∷ fails 1 6 3 0 ∷ gets 1 6 (ns 60) (ns 60) ∷ drops 2 ∷ []

run-PartitionOk_example : PartitionOk ℕ_discrete (partition (run ℕ_discrete empty_cache history) 1)
unfolding empty_cache new
run-PartitionOk_example = run-PartitionOk ℕ_discrete history 1

partitions_separate_example :
    ((r : ResolveResult ℕ) (t : ℕ)
      → partition (put_positive ℕ_discrete empty_cache 1 5 r t) 2 ≡ partition empty_cache 2)
    × ((e t : ℕ)
        → partition (put_negative ℕ_discrete empty_cache 1 5 e t) 2 ≡ partition empty_cache 2)
    × ((now later : ℕ)
        → partition (get ℕ_discrete empty_cache 1 5 now later).0 2 ≡ partition empty_cache 2)
    × (partition (drop_partition ℕ_discrete empty_cache 1) 2 ≡ partition empty_cache 2)
partitions_separate_example = partitions_separate ℕ_discrete empty_cache 1 2 5 (λ e. omega arith)

-- `a.co` for ads, `x.a.co` alone for a tracker, and `a.co` again, which replaces the first.
abbrev rules : List Rule
unfolding host host_exact
rules =
    host (97 ∷ 46 ∷ 99 ∷ 111 ∷ []) ad
    ∷ host_exact (120 ∷ 46 ∷ 97 ∷ 46 ∷ 99 ∷ 111 ∷ []) tracker
    ∷ host (97 ∷ 46 ∷ 99 ∷ 111 ∷ []) fingerprint_attempt
    ∷ []

-- `X.a.co`.
abbrev upper_host : List ℕ
upper_host = 88 ∷ 46 ∷ 97 ∷ 46 ∷ 99 ∷ 111 ∷ []

-- `b.a.co`.
abbrev sibling : List ℕ
sibling = 98 ∷ 46 ∷ 97 ∷ 46 ∷ 99 ∷ 111 ∷ []

match_host-exact : match_host (from_rules rules) upper_host ≡ some tracker
unfolding match_host to_ascii_lowercase from_rules rules
match_host-exact = refl

match_host-parent : match_host (from_rules rules) sibling ≡ some fingerprint_attempt
unfolding match_host to_ascii_lowercase from_rules rules
match_host-parent = refl

match_host-Longest_example :
    Longest
      (latest none rules)
      (labels (to_ascii_lowercase sibling))
      none
      (match_host (from_rules rules) sibling)
match_host-Longest_example = match_host-Longest rules sibling

-- 192.168.1.1 lies in a block.
abbrev router : Ipv4Addr
router = record { a = 192; b = 168; c = 1; d = 1 }

is_public-blocks_example : is_public (v4 router) ≡ not (any_within 3_232_235_777 blocks)
is_public-blocks_example =
    is_public-blocks router (omega arith, omega arith, omega arith, omega arith)

router-rejected : is_public (v4 router) ≡ false
unfolding is_public
router-rejected = refl

-- `::ffff:127.0.0.1`.
abbrev mapped : Ipv6Addr
mapped = record { s0 = 0; s1 = 0; s2 = 0; s3 = 0; s4 = 0; s5 = 0xffff; s6 = 0x7f00; s7 = 0x0001 }

is_public-blocks_v6_example : is_public (v6 mapped) ≡ not (any_within (number_v6 mapped) blocks_v6)
is_public-blocks_v6_example = is_public-blocks_v6 mapped (
  omega arith,
  omega arith,
  omega arith,
  omega arith,
  omega arith,
  omega arith,
  omega arith,
  omega arith,
)

mapped_loopback : is_public (v6 mapped) ≡ true
unfolding is_public dev_browse.Network.Dns.Rebinding.classify_v6
mapped_loopback = refl

-- The third rule has the name of the first.
two_names : count_rules (from_rules rules).root ≡ 2
unfolding from_rules rules count_rules to_ascii_lowercase
two_names = refl
