-- ===== src/Network/Coordinator/Lru/Bounds.antt =====
-- The invariant of `PartitionLru`, and the operations on it.
use dev_browse.Prelude.{
  ℕ, ◌+◌, ◌≤◌, ◌<◌, ◌≡◌, refl, sym, ap, subst, ◌∙◌, true, false, List, [], ◌∷◌, none, some, arith,
  length, length-append, contains, without, remove_first-eq, NoRepeat, NoRepeat-append_last,
  NoRepeat-without, contains-without, contains-append_last, length-without, leb, ℕ_discrete,
  Bool-cases, Option-cases, inl, inr,
}
use dev_browse.Prelude.Map.{
  lookup, erase, size, total, Distinct, lookup-insert, lookup-erase, insert-Distinct,
  erase-Distinct, erase_absent, total-insert_new, total-erase,
}
use dev_browse.Network.Coordinator.Lru.{
  EgressState, PartitionLru, default_egress, new, is_some, tracks, len, touch_to_back, evict_front,
  make_room, add_default, get_or_insert_default, remove,
}

pub record LruOk (l : PartitionLru) : Type 0 where
  pub queued_once : NoRepeat l.order
  pub distinct : Distinct ℕ_discrete l.entries
  pub same_keys : (k : ℕ) → contains k l.order ≡ tracks l k
  pub same_size : len l ≡ length l.order
  pub bounded : length l.order ≤ l.cap
  pub room : 1 ≤ l.cap

pub new-LruOk : (cap : ℕ) → 1 ≤ cap → LruOk (new cap)
unfolding new tracks len lookup contains size total
new-LruOk cap h = record {
  queued_once = tt;
  distinct = tt;
  same_keys = λ k. refl;
  same_size = refl;
  bounded = omega arith;
  room = h;
}

tracked :
    (l : PartitionLru) (key : ℕ)
    → tracks l key ≡ true
    → (e : EgressState) × (lookup ℕ_discrete key l.entries ≡ some e)
unfolding tracks
tracked l key h = elim (Option-cases (lookup ℕ_discrete key l.entries)) [
  | inl e ↦ cc
  | inr (x, e) ↦ (x, e)
]

untracked :
    (l : PartitionLru) (key : ℕ) → tracks l key ≡ false → lookup ℕ_discrete key l.entries ≡ none
unfolding tracks
untracked l key h = elim (Option-cases (lookup ℕ_discrete key l.entries)) [
  | inl e ↦ e
  | inr (x, e) ↦ cc
]

touch_to_back-LruOk : (key : ℕ) (l : PartitionLru) → LruOk l → LruOk (touch_to_back key l)
unfolding touch_to_back tracks len
touch_to_back-LruOk key l h = elim (Bool-cases (contains key l.order)) [
  | inl e ↦
      rw (e, remove_first-eq key l.order h.queued_once)
        (record {
          queued_once =
              NoRepeat-append_last key (without key l.order)
                (NoRepeat-without key l.order h.queued_once)
                (ground (arith, contains-without key key l.order));
          distinct = h.distinct;
          same_keys = λ k. ground (
            arith,
            h.same_keys k,
            contains-append_last k key (without key l.order),
            contains-without key k l.order,
          );
          same_size = omega (
            arith,
            h.same_size,
            length-append (without key l.order) (key ∷ []),
            length-without key l.order h.queued_once e,
          );
          bounded = omega (
            arith,
            h.bounded,
            length-append (without key l.order) (key ∷ []),
            length-without key l.order h.queued_once e,
          );
          room = h.room;
        })
  | inr e ↦ rw e h
]

front_tracked :
    (l : PartitionLru) (x : ℕ) (xs : List ℕ) → LruOk l → l.order ≡ x ∷ xs → tracks l x ≡ true
unfolding contains
front_tracked l x xs h e = ground (arith, h.same_keys x)

-- Room for one more partition is left behind.
evict_front-LruOk :
    (l : PartitionLru) (x : ℕ) (xs : List ℕ)
    → LruOk l
    → l.order ≡ x ∷ xs
    → LruOk (evict_front (x ∷ xs) l) × (length (evict_front (x ∷ xs) l).order < l.cap)
unfolding tracks len size contains
evict_front-LruOk l x xs h e =
    let (s, at) = tracked l x (front_tracked l x xs h e) in
    let once : NoRepeat (x ∷ xs) = subst NoRepeat e h.queued_once in
    let size : total ℕ_discrete (λ _. 1) (erase ℕ_discrete x l.entries) + 1 ≡ length l.order =
      total-erase ℕ_discrete (λ _. 1) x s l.entries h.distinct at ∙ h.same_size in
    (
      record {
        queued_once = once.1;
        distinct = erase-Distinct ℕ_discrete x l.entries h.distinct;
        same_keys =
            λ k. ground (arith, h.same_keys k, once.0, lookup-erase ℕ_discrete x k l.entries);
        same_size = omega (arith, size, ap length e);
        bounded = omega (arith, h.bounded, ap length e);
        room = h.room;
      },
      omega (arith, h.bounded, ap length e),
    )

make_room-LruOk :
    (l : PartitionLru)
    → LruOk l
    → LruOk (make_room l) × (length (make_room l).order < (make_room l).cap)
unfolding make_room
make_room-LruOk l h = elim (Bool-cases (leb l.cap (length l.order))) [
  | inl e ↦ rw e (evicted l h l.order refl (ground arith))
  | inr e ↦ rw e (h, ground arith)
]
  where
    evicted :
        (l : PartitionLru)
        → LruOk l
        → (q : List ℕ) → l.order ≡ q
        → l.cap ≤ length q
        → LruOk (evict_front q l) × (length (evict_front q l).order < (evict_front q l).cap)
    evicted l h [] e c = absurd (omega (arith, h.room))
    evicted l h (x ∷ xs) e c = evict_front-LruOk l x xs h e

-- What making room leaves untracked was not tracked before or was in front.
make_room_absent :
    (l : PartitionLru) (key : ℕ) → tracks l key ≡ false → tracks (make_room l) key ≡ false
unfolding make_room tracks
make_room_absent l key h = elim (Bool-cases (leb l.cap (length l.order))) [
  | inl e ↦ rw e (front l l.order h)
  | inr e ↦ rw e h
]
  where
    front :
        (l : PartitionLru) (q : List ℕ)
        → is_some (lookup ℕ_discrete key l.entries) ≡ false
        → is_some (lookup ℕ_discrete key (evict_front q l).entries) ≡ false
    front l [] h = h
    front l (x ∷ xs) h = ground (arith, lookup-erase ℕ_discrete x key l.entries)

add_default-LruOk :
    (key : ℕ) (l : PartitionLru)
    → LruOk l
    → tracks l key ≡ false
    → length l.order < l.cap
    → LruOk (add_default key l)
unfolding add_default tracks len size
add_default-LruOk key l h new room =
    let absent = untracked l key new in
    let fresh : contains key l.order ≡ false = h.same_keys key ∙ new in
    record {
      queued_once = NoRepeat-append_last key l.order h.queued_once fresh;
      distinct = insert-Distinct ℕ_discrete key default_egress l.entries h.distinct;
      same_keys = λ k. ground (
        arith,
        h.same_keys k,
        contains-append_last k key l.order,
        lookup-insert ℕ_discrete key k default_egress l.entries,
      );
      same_size = omega (
        arith,
        h.same_size,
        length-append l.order (key ∷ []),
        total-insert_new ℕ_discrete (λ _. 1) key default_egress l.entries absent,
      );
      bounded = omega (arith, length-append l.order (key ∷ []));
      room = h.room;
    }

pub get_or_insert_default-LruOk :
    (key : ℕ) (l : PartitionLru) → LruOk l → LruOk (get_or_insert_default key l)
unfolding get_or_insert_default
get_or_insert_default-LruOk key l h = elim (Bool-cases (tracks l key)) [
  | inl e ↦ rw e (touch_to_back-LruOk key l h)
  | inr e ↦ rw e (
      let (ok', room) = make_room-LruOk l h in
      add_default-LruOk key (make_room l) ok' (make_room_absent l key e) room)
]

pub remove-LruOk : (key : ℕ) (l : PartitionLru) → LruOk l → LruOk (remove key l)
unfolding remove tracks len size
remove-LruOk key l h = elim (Bool-cases (contains key l.order)) [
  | inl e ↦
      rw (e, remove_first-eq key l.order h.queued_once)
        (let (s, at) = tracked l key (sym (h.same_keys key) ∙ e) in
          record {
            queued_once = NoRepeat-without key l.order h.queued_once;
            distinct = erase-Distinct ℕ_discrete key l.entries h.distinct;
            same_keys = λ k. ground (
              arith,
              h.same_keys k,
              contains-without key k l.order,
              lookup-erase ℕ_discrete key k l.entries,
            );
            same_size = omega (
              arith,
              h.same_size,
              length-without key l.order h.queued_once e,
              total-erase ℕ_discrete (λ _. 1) key s l.entries h.distinct at,
            );
            bounded = omega (arith, h.bounded, length-without key l.order h.queued_once e);
            room = h.room;
          })
  | inr e ↦
      rw (e, erase_absent ℕ_discrete key l.entries (untracked l key (sym (h.same_keys key) ∙ e))) h
]

evict_front-cap : (q : List ℕ) (l : PartitionLru) → (evict_front q l).cap ≡ l.cap
evict_front-cap [] l = refl
evict_front-cap (x ∷ xs) l = refl

-- The bound itself never changes.
pub get_or_insert_default-cap :
    (key : ℕ) (l : PartitionLru) → (get_or_insert_default key l).cap ≡ l.cap
unfolding get_or_insert_default touch_to_back add_default make_room
get_or_insert_default-cap key l = ground (arith, evict_front-cap l.order l)
