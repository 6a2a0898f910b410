-- ===== src/Network/Coordinator/Lru.antt =====
-- crates/pb-network/src/coordinator.rs: `PartitionLru`, the egress state of at most `cap` partitions.
pub mod Bounds
use dev_browse.Prelude.{
  ℕ, Bool, true, false, List, [], ◌∷◌, ◌++◌, Option, none, some, leb, if◌then◌else◌, length,
  contains, remove_first, ℕ_discrete,
}
use dev_browse.Prelude.Map.{lookup, insert, erase, size}

-- The four slots have no content yet.
pub record EgressState : Type 0 where
  pub conn_pool : Unit {0}
  pub hsts : Unit {0}
  pub alt_svc : Unit {0}
  pub http_cache : Unit {0}

abbrev pub default_egress : EgressState
default_egress = record { conn_pool = tt; hsts = tt; alt_svc = tt; http_cache = tt }

pub record PartitionLru : Type 0 where
  pub entries : List (ℕ × EgressState)
  pub order : List ℕ
  pub cap : ℕ

unfoldable pub new : ℕ → PartitionLru
new cap = record { entries = []; order = []; cap = cap }

abbrev pub is_some {ℓ} : {A : Type ℓ} → Option A → Bool
is_some none = false
is_some (some _) = true

-- `contains_key`.
unfoldable pub tracks : PartitionLru → ℕ → Bool
tracks l key = is_some (lookup ℕ_discrete key l.entries)

unfoldable pub len : PartitionLru → ℕ
len l = size ℕ_discrete l.entries

unfoldable pub touch_to_back : ℕ → PartitionLru → PartitionLru
touch_to_back key l =
    if contains key l.order then record l { order = remove_first key l.order ++ key ∷ [] } else l

-- `pop_front`, and the removal of what it pops.
abbrev pub evict_front : List ℕ → PartitionLru → PartitionLru
evict_front [] l = l
evict_front (evicted ∷ order) l = record l {
  entries = erase ℕ_discrete evicted l.entries;
  order = order;
}

unfoldable pub make_room : PartitionLru → PartitionLru
make_room l = if leb l.cap (length l.order) then evict_front l.order l else l

-- The end of `get_or_insert_default`, for a key that is not tracked.
unfoldable pub add_default : ℕ → PartitionLru → PartitionLru
add_default key l = record l {
  entries = insert ℕ_discrete key default_egress l.entries;
  order = l.order ++ key ∷ [];
}

unfoldable pub get_or_insert_default : ℕ → PartitionLru → PartitionLru
get_or_insert_default key l =
    if tracks l key then touch_to_back key l else add_default key (make_room l)

unfoldable pub remove : ℕ → PartitionLru → PartitionLru
remove key l = record l {
  entries = erase ℕ_discrete key l.entries;
  order = if contains key l.order then remove_first key l.order else l.order;
}
