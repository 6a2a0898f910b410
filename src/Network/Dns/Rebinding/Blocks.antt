-- ===== src/Network/Dns/Rebinding/Blocks.antt =====
-- The filter of crates/pb-network/src/dns/rebinding.rs against the address blocks of the RFCs.
use dev_browse.Prelude.{
  ℕ, ◌+◌, ◌*◌, ◌<◌, ◌≡◌, Bool, true, false, not, ◌&&◌, ◌||◌, List, [], ◌∷◌, arith, ◌==◌,
  if◌then◌else◌, leb,
}
use dev_browse.Network.Dns.Rebinding.{
  public, loopback, link_local, private, multicast, unspecified, documentation, reserved, Ipv4Addr,
  v4, classify_v4, is_public, is_rejected,
}

-- The address as a 32-bit number.
abbrev pub number : Ipv4Addr → ℕ
number x = ((x.a * 256 + x.b) * 256 + x.c) * 256 + x.d

abbrev pub Octets : Ipv4Addr → Type 0
Octets x = (x.a < 256) × (x.b < 256) × (x.c < 256) × (x.d < 256)

-- The address lies in the block of `size` addresses from `base` on.
abbrev pub within : ℕ → ℕ × ℕ → Bool
within n (base, size) = leb base n && leb (n + 1) (base + size)

abbrev pub any_within : ℕ → List (ℕ × ℕ) → Bool
any_within n [] = false
any_within n (b ∷ bs) = within n b || any_within n bs

-- 0.0.0.0/8, 10.0.0.0/8, 100.64.0.0/10, 127.0.0.0/8, 169.254.0.0/16, 172.16.0.0/12, 192.0.2.0/24,
-- 192.168.0.0/16, 198.51.100.0/24, 203.0.113.0/24, 224.0.0.0/4 and 255.255.255.255.
abbrev pub blocks : List (ℕ × ℕ)
blocks =
    (0, 16_777_216)
    ∷ (167_772_160, 16_777_216)
    ∷ (1_681_915_904, 4_194_304)
    ∷ (2_130_706_432, 16_777_216)
    ∷ (2_851_995_648, 65_536)
    ∷ (2_886_729_728, 1_048_576)
    ∷ (3_221_225_984, 256)
    ∷ (3_232_235_520, 65_536)
    ∷ (3_325_256_704, 256)
    ∷ (3_405_803_776, 256)
    ∷ (3_758_096_384, 268_435_456)
    ∷ (4_294_967_295, 1)
    ∷ []

-- The tests in the order of the code, against the blocks in the order of their addresses.
chain :
    (u own link ten middle home group ones d1 d2 d3 shared zero : Bool)
    → (u ≡ true → zero ≡ true)
    → not (
        is_rejected (
          if u
          then unspecified
          else if own
          then loopback
          else if link
          then link_local
          else if ten || middle || home
          then private
          else if group
          then multicast
          else if ones
          then reserved
          else if d1 || d2 || d3
          then documentation
          else if shared
          then private
          else if zero
          then reserved
          else public))
      ≡ not (
          zero
          || (ten
              || (shared
                  || (own
                      || (link
                          || (middle
                              || (d1 || (home || (d2 || (d3 || (group || (ones || false))))))))))))
chain u own link ten middle home group ones d1 d2 d3 shared zero h = ground arith

-- The test of the octets that a block comes to.
module _ (x : Ipv4Addr) (small : Octets x) where
  this_net : within (number x) (0, 16_777_216) ≡ (x.a == 0)
  this_net = ground arith

  ten : within (number x) (167_772_160, 16_777_216) ≡ (x.a == 10)
  ten = ground arith

  shared : within (number x) (1_681_915_904, 4_194_304) ≡ (x.a == 100 && leb 64 x.b && leb x.b 127)
  shared = ground arith

  own : within (number x) (2_130_706_432, 16_777_216) ≡ (x.a == 127)
  own = ground arith

  link : within (number x) (2_851_995_648, 65_536) ≡ (x.a == 169 && x.b == 254)
  link = ground arith

  middle : within (number x) (2_886_729_728, 1_048_576) ≡ (x.a == 172 && leb 16 x.b && leb x.b 31)
  middle = ground arith

  first_test : within (number x) (3_221_225_984, 256) ≡ (x.a == 192 && x.b == 0 && x.c == 2)
  first_test = ground arith

  home : within (number x) (3_232_235_520, 65_536) ≡ (x.a == 192 && x.b == 168)
  home = ground arith

  second_test : within (number x) (3_325_256_704, 256) ≡ (x.a == 198 && x.b == 51 && x.c == 100)
  second_test = ground arith

  third_test : within (number x) (3_405_803_776, 256) ≡ (x.a == 203 && x.b == 0 && x.c == 113)
  third_test = ground arith

  group : within (number x) (3_758_096_384, 268_435_456) ≡ (leb 224 x.a && leb x.a 239)
  group = ground arith

  all_ones :
      within (number x) (4_294_967_295, 1) ≡ (x.a == 255 && x.b == 255 && x.c == 255 && x.d == 255)
  all_ones = ground arith

  -- An IPv4 address (octets below 256) passes the filter exactly when it lies in none of the twelve
  -- special blocks.
  pub is_public-blocks : is_public (v4 x) ≡ not (any_within (number x) blocks)
  unfolding is_public classify_v4
  is_public-blocks =
      rw
        (
          this_net, ten, shared, own, link, middle, first_test, home, second_test, third_test,
          group, all_ones,
        )
        (chain (x.a == 0 && x.b == 0 && x.c == 0 && x.d == 0) (x.a == 127)
          (x.a == 169 && x.b == 254) (x.a == 10) (x.a == 172 && leb 16 x.b && leb x.b 31)
          (x.a == 192 && x.b == 168) (leb 224 x.a && leb x.a 239)
          (x.a == 255 && x.b == 255 && x.c == 255 && x.d == 255)
          (x.a == 192 && x.b == 0 && x.c == 2) (x.a == 198 && x.b == 51 && x.c == 100)
          (x.a == 203 && x.b == 0 && x.c == 113) (x.a == 100 && leb 64 x.b && leb x.b 127)
          (x.a == 0) (λ e. ground arith))
