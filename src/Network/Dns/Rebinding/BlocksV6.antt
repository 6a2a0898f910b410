-- ===== src/Network/Dns/Rebinding/BlocksV6.antt =====
-- The filter of crates/pb-network/src/dns/rebinding.rs on IPv6 addresses, against the blocks of the RFCs.
use dev_browse.Prelude.{
  ℕ, ◌+◌, ◌*◌, ◌/◌, ◌^◌, ◌<◌, ◌≡◌, refl, Bool, false, not, ◌&&◌, ◌||◌, List, [], ◌∷◌, arith, ◌==◌,
  if◌then◌else◌,
}
use dev_browse.Network.Dns.Rebinding.{
  public, loopback, link_local, private, multicast, unspecified, documentation, Ipv6Addr, v6,
  classify_v6, zero_but_last, is_public, is_rejected,
}
use dev_browse.Network.Dns.Rebinding.Blocks.{within, any_within}

-- The last seven segments as a number, and the address as a 128-bit number.
abbrev tail_number : Ipv6Addr → ℕ
tail_number x =
    (((((x.s1 * 65536 + x.s2) * 65536 + x.s3) * 65536 + x.s4) * 65536 + x.s5) * 65536 + x.s6)
      * 65536
    + x.s7

abbrev pub number : Ipv6Addr → ℕ
number x = x.s0 * 2 ^ 112 + tail_number x

abbrev pub Segments : Ipv6Addr → Type 0
Segments x =
    (x.s0 < 65536)
    × (x.s1 < 65536)
    × (x.s2 < 65536)
    × (x.s3 < 65536)
    × (x.s4 < 65536)
    × (x.s5 < 65536)
    × (x.s6 < 65536)
    × (x.s7 < 65536)

-- ::, ::1, 2001:db8::/32, fc00::/7, fe80::/10 and ff00::/8. The IPv4-mapped
-- addresses ::ffff:0:0/96 are not on the list.
abbrev pub blocks_v6 : List (ℕ × ℕ)
blocks_v6 =
    (0, 1)
    ∷ (1, 1)
    ∷ (0x2001 * 2 ^ 112 + 0xdb8 * 2 ^ 96, 2 ^ 96)
    ∷ (0xfc00 * 2 ^ 112, 2 ^ 121)
    ∷ (0xfe80 * 2 ^ 112, 2 ^ 118)
    ∷ (0xff00 * 2 ^ 112, 2 ^ 120)
    ∷ []

chain :
    (none one many link own book : Bool)
    → not (
        is_rejected (
          if none
          then unspecified
          else if one
          then loopback
          else if many
          then multicast
          else if link
          then link_local
          else if own
          then private
          else if book
          then documentation
          else public))
      ≡ not (none || (one || (book || (own || (link || (many || false))))))
chain none one many link own book = ground arith

-- The first seven segments as a number.
abbrev head_number : Ipv6Addr → ℕ
head_number x =
    (((((x.s0 * 65536 + x.s1) * 65536 + x.s2) * 65536 + x.s3) * 65536 + x.s4) * 65536 + x.s5)
      * 65536
    + x.s6

number_head : (x : Ipv6Addr) → number x ≡ head_number x * 65536 + x.s7
number_head x = omega arith

zero_and : (a b : ℕ) → (a * 65536 + b == 0) ≡ (a == 0 && b == 0)
zero_and a b = ground arith

head_zero : (x : Ipv6Addr) → (head_number x == 0) ≡ zero_but_last x
head_zero x =
    rw
      (
        zero_and _ x.s6,
        zero_and _ x.s5,
        zero_and _ x.s4,
        zero_and _ x.s3,
        zero_and _ x.s2,
        zero_and x.s0 x.s1,
      )
      refl

exactly : (h s k : ℕ) → s < 65536 → k < 65536 → within (h * 65536 + s) (k, 1) ≡ (h == 0 && s == k)
exactly h s k hs hk = ground arith

module _ (x : Ipv6Addr) (small : Segments x) where
  tail_small : tail_number x < 2 ^ 112
  tail_small = omega arith

  unset : within (number x) (0, 1) ≡ (zero_but_last x && x.s7 == 0)
  unset =
      rw (number_head x, exactly (head_number x) x.s7 0 (omega arith) (omega arith), head_zero x)
        refl

  own_host : within (number x) (1, 1) ≡ (zero_but_last x && x.s7 == 1)
  own_host =
      rw (number_head x, exactly (head_number x) x.s7 1 (omega arith) (omega arith), head_zero x)
        refl

  book :
      within (number x) (0x2001 * 2 ^ 112 + 0xdb8 * 2 ^ 96, 2 ^ 96)
      ≡ (x.s0 == 0x2001 && x.s1 == 0xdb8)
  book = ground arith

  local : within (number x) (0xfc00 * 2 ^ 112, 2 ^ 121) ≡ (x.s0 / 512 * 512 == 0xfc00)
  local = ground arith

  link : within (number x) (0xfe80 * 2 ^ 112, 2 ^ 118) ≡ (x.s0 / 64 * 64 == 0xfe80)
  link = ground arith

  many : within (number x) (0xff00 * 2 ^ 112, 2 ^ 120) ≡ (x.s0 / 256 == 0xff)
  many = ground arith

  -- An IPv6 address (segments below 65536) passes the filter exactly when it lies in none of the six
  -- special blocks.
  pub is_public-blocks_v6 : is_public (v6 x) ≡ not (any_within (number x) blocks_v6)
  unfolding is_public classify_v6
  is_public-blocks_v6 =
      rw (unset, own_host, book, local, link, many)
        (chain (zero_but_last x && x.s7 == 0) (zero_but_last x && x.s7 == 1) (x.s0 / 256 == 0xff)
          (x.s0 / 64 * 64 == 0xfe80) (x.s0 / 512 * 512 == 0xfc00) (x.s0 == 0x2001 && x.s1 == 0xdb8))
