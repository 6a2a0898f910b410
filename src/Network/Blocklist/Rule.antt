-- ===== src/Network/Blocklist/Rule.antt =====
-- crates/pb-network/src/blocklist/rule.rs: a host rule. A string is the list of its bytes.
use dev_browse.Prelude.{ℕ, ◌+◌, Bool, true, false, ◌&&◌, List, leb, if◌then◌else◌, map}

pub data BlockKind : Type 0 where
  ad tracker fingerprint_attempt : BlockKind

pub record Rule : Type 0 where
  pub hostname : List ℕ
  pub kind : BlockKind
  pub applies_to_subdomains : Bool

-- `u8::to_ascii_lowercase`.
unfoldable pub lower : ℕ → ℕ
lower c = if leb 65 c && leb c 90 then c + 32 else c

-- `str::to_ascii_lowercase`.
unfoldable pub to_ascii_lowercase : List ℕ → List ℕ
unfolding lower
to_ascii_lowercase s = map lower s

unfoldable pub host : List ℕ → BlockKind → Rule
host hostname kind = record {
  hostname = to_ascii_lowercase hostname;
  kind = kind;
  applies_to_subdomains = true;
}

unfoldable pub host_exact : List ℕ → BlockKind → Rule
host_exact hostname kind = record {
  hostname = to_ascii_lowercase hostname;
  kind = kind;
  applies_to_subdomains = false;
}
