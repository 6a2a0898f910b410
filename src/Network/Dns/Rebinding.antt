-- ===== src/Network/Dns/Rebinding.antt =====
-- crates/pb-network/src/dns/rebinding.rs: the class of an address in a DNS answer. An IPv4 address is
-- its four octets, an IPv6 address its eight segments; the tests of std::net are written out, and a
-- bit mask on a 16-bit segment is a division.
pub mod Blocks
pub mod BlocksV6
use dev_browse.Prelude.{ℕ, ◌*◌, ◌/◌, Bool, true, false, not, ◌&&◌, ◌||◌, leb, ◌==◌, if◌then◌else◌}

pub data AddressClass : Type 0 where
  public loopback link_local private multicast unspecified documentation reserved : AddressClass

pub record Ipv4Addr : Type 0 where
  pub a : ℕ
  pub b : ℕ
  pub c : ℕ
  pub d : ℕ

pub record Ipv6Addr : Type 0 where
  pub s0 : ℕ
  pub s1 : ℕ
  pub s2 : ℕ
  pub s3 : ℕ
  pub s4 : ℕ
  pub s5 : ℕ
  pub s6 : ℕ
  pub s7 : ℕ

pub data IpAddr : Type 0 where
  v4 : Ipv4Addr → IpAddr
  v6 : Ipv6Addr → IpAddr

abbrev pub is_rejected : AddressClass → Bool
is_rejected public = false
is_rejected _ = true

-- `Ipv4Addr::is_private`.
abbrev pub is_private : Ipv4Addr → Bool
is_private x = x.a == 10 || (x.a == 172 && leb 16 x.b && leb x.b 31) || (x.a == 192 && x.b == 168)

-- `Ipv4Addr::is_documentation`.
abbrev pub is_documentation : Ipv4Addr → Bool
is_documentation x =
    (x.a == 192 && x.b == 0 && x.c == 2)
    || (x.a == 198 && x.b == 51 && x.c == 100)
    || (x.a == 203 && x.b == 0 && x.c == 113)

unfoldable pub classify_v4 : Ipv4Addr → AddressClass
classify_v4 x =
    if x.a == 0 && x.b == 0 && x.c == 0 && x.d == 0
    then unspecified
    else if x.a == 127
    then loopback
    else if x.a == 169 && x.b == 254
    then link_local
    else if is_private x
    then private
    else if leb 224 x.a && leb x.a 239
    then multicast
    else if x.a == 255 && x.b == 255 && x.c == 255 && x.d == 255
    then reserved
    else if is_documentation x
    then documentation
    else if x.a == 100 && leb 64 x.b && leb x.b 127
    then private
    else if x.a == 0
    then reserved
    else public

-- The first seven segments are zero.
abbrev pub zero_but_last : Ipv6Addr → Bool
zero_but_last x =
    x.s0 == 0 && x.s1 == 0 && x.s2 == 0 && x.s3 == 0 && x.s4 == 0 && x.s5 == 0 && x.s6 == 0

unfoldable pub classify_v6 : Ipv6Addr → AddressClass
classify_v6 x =
    if zero_but_last x && x.s7 == 0
    then unspecified
    else if zero_but_last x && x.s7 == 1
    then loopback
    else if x.s0 / 256 == 0xff
    then multicast
    else if x.s0 / 64 * 64 == 0xfe80
    then link_local
    else if x.s0 / 512 * 512 == 0xfc00
    then private
    else if x.s0 == 0x2001 && x.s1 == 0xdb8
    then documentation
    else public

unfoldable pub classify : IpAddr → AddressClass
unfolding classify_v4 classify_v6
classify (v4 x) = classify_v4 x
classify (v6 x) = classify_v6 x

unfoldable pub is_public : IpAddr → Bool
unfolding classify
is_public x = not (is_rejected (classify x))
