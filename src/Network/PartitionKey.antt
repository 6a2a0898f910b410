-- ===== src/Network/PartitionKey.antt =====
-- crates/pb-network/src/partition_key.rs: the key that network state is filed under. SHA-256 is the
-- parameter `sha256`; a key is the number of its 32 bytes, a UUID the list of its 16 bytes.
pub mod Framing
use dev_browse.Prelude.{ℕ, zero, suc, ◌/◌, ◌%◌, List, [], ◌∷◌, ◌++◌, length}
use dev_browse.Prelude.Text.{bytes}

abbrev pub partition_key_domain : List ℕ
partition_key_domain = bytes "PB-PARTKEY-V1"

-- The lowest `n` bytes of a number, the lowest first.
unfoldable pub le_bytes : ℕ → ℕ → List ℕ
le_bytes zero v = []
le_bytes (suc n) v = v % 256 ∷ le_bytes n (v / 256)

-- What the hasher is given.
unfoldable pub hashed : List ℕ → List ℕ → List ℕ → List ℕ
hashed site_origin identity_profile_id context_id =
    partition_key_domain
    ++ (le_bytes 8 (length site_origin) ++ (site_origin ++ (identity_profile_id ++ context_id)))

unfoldable pub derive : (List ℕ → ℕ) → List ℕ → List ℕ → List ℕ → ℕ
derive sha256 site_origin identity_profile_id context_id =
    sha256 (hashed site_origin identity_profile_id context_id)
