-- ===== src/Gpu/Queue/Fairness.antt =====
-- `dequeue` of crates/pb-gpu/src/queue.rs: what it takes and what it leaves.
use dev_browse.Prelude.{
  ℕ, ◌≡◌, refl, subst, ◌≢◌, ◌⊎◌, inl, inr, false, not, List, [], ◌∷◌, arith, Option, none, some,
  ◌==◌, if◌then◌else◌, is_empty, contains, contains-append_last, NoRepeat, NoRepeat-append_last,
  Option-cases, ℕ_discrete,
}
use dev_browse.Prelude.Map.{lookup, lookup-insert}
use dev_browse.Gpu.Queue.{QueueScheduler, IdentityQueue, DequeuedCommand, serve, dequeue}
use dev_browse.Gpu.Queue.Rotation.{buffers, Rotates}

-- The two outcomes of `dequeue` where the rotation is right: nothing is pending, or the front
-- identity is served.
pub data Dequeued (s : QueueScheduler) : Type 0 where
  idle : s.schedule_order ≡ [] → dequeue s ≡ (s, none) → Dequeued s
  served :
      (pid b : ℕ) (rest order : List ℕ) (q : IdentityQueue)
      → s.schedule_order ≡ pid ∷ order
      → lookup ℕ_discrete pid s.queues ≡ some q
      → q.pending ≡ b ∷ rest
      → dequeue s ≡ serve s pid q b rest order
      → Dequeued s

idle_order : (s : QueueScheduler) → s.schedule_order ≡ [] → dequeue s ≡ (s, none)
unfolding dequeue
idle_order s h = ground arith

busy_front :
    (s : QueueScheduler) (pid : ℕ) (order : List ℕ)
    → s.schedule_order ≡ pid ∷ order
    → Rotates s
    → is_empty (buffers s pid) ≡ false
unfolding contains
busy_front s pid order h v = ground (arith, v.busy pid)

dequeue-front :
    (s : QueueScheduler) (pid b : ℕ) (rest order : List ℕ) (q : IdentityQueue)
    → s.schedule_order ≡ pid ∷ order
    → lookup ℕ_discrete pid s.queues ≡ some q
    → q.pending ≡ b ∷ rest
    → dequeue s ≡ serve s pid q b rest order
unfolding dequeue
dequeue-front s pid b rest order q h k e = ground arith

List-cases : (xs : List ℕ) → (xs ≡ []) ⊎ ((x : ℕ) × (ys : List ℕ) × (xs ≡ x ∷ ys))
List-cases [] = inl refl
List-cases (x ∷ ys) = inr (x, ys, refl)

front :
    (s : QueueScheduler) (pid : ℕ) (order : List ℕ)
    → s.schedule_order ≡ pid ∷ order
    → Rotates s
    → Dequeued s
unfolding buffers
front s pid order h v = elim (Option-cases (lookup ℕ_discrete pid s.queues)) [
  | inl e ↦ absurd (ground (arith, busy_front s pid order h v))
  | inr (q, e) ↦ elim (List-cases q.pending) [
    | inl k ↦ absurd (ground (arith, busy_front s pid order h v))
    | inr (b, rest, k) ↦ served pid b rest order q h e k (dequeue-front s pid b rest order q h e k)
  ]
]

pub dequeue-Dequeued : (s : QueueScheduler) → Rotates s → Dequeued s
dequeue-Dequeued s v = elim (List-cases s.schedule_order) [
  | inl h ↦ idle h (idle_order s h)
  | inr (pid, order, h) ↦ front s pid order h v
]

module _ (s : QueueScheduler) (v : Rotates s) (pid b : ℕ) (rest order : List ℕ) (q : IdentityQueue)
    (h : s.schedule_order ≡ pid ∷ order) (k : lookup ℕ_discrete pid s.queues ≡ some q)
    (e : q.pending ≡ b ∷ rest) where
  pub serve-buffers :
      (p : ℕ) → buffers (serve s pid q b rest order).0 p ≡ (if pid == p then rest else buffers s p)
  unfolding serve buffers
  serve-buffers p =
      ground (arith, lookup-insert ℕ_discrete pid p (record q { pending = rest }) s.queues)

  pub front-buffers : buffers s pid ≡ b ∷ rest
  unfolding buffers
  front-buffers = ground arith

  front_once : (contains pid order ≡ false) × NoRepeat order
  front_once = subst NoRepeat h v.once

  serve-once : NoRepeat (serve s pid q b rest order).0.schedule_order
  unfolding serve
  serve-once = ground (arith, front_once, NoRepeat-append_last pid order front_once.1)

  serve-busy :
      (p : ℕ)
      → contains p (serve s pid q b rest order).0.schedule_order
        ≡ not (is_empty (buffers (serve s pid q b rest order).0 p))
  unfolding serve contains
  serve-busy p =
      ground (arith, v.busy p, front_once, serve-buffers p, contains-append_last p pid order)

  pub serve-Rotates : Rotates (serve s pid q b rest order).0
  serve-Rotates = record { once = serve-once; busy = serve-busy }

pub dequeue-Rotates : (s : QueueScheduler) → Rotates s → Rotates (dequeue s).0
dequeue-Rotates s v = elim (dequeue-Dequeued s v) [
  | idle h e ↦ rw e v
  | served pid b rest order q h k e d ↦ rw d (serve-Rotates s v pid b rest order q h k e)
]

-- What one dequeue does to the FIFO queues of the identities.
abbrev pub Takes : (ℕ → List ℕ) → Option DequeuedCommand → (ℕ → List ℕ) → Type 0
Takes old none new = (pid : ℕ) → (old pid ≡ []) × (new pid ≡ [])
Takes old (some d) new =
    (old d.profile_id ≡ d.buffer_id ∷ new d.profile_id)
    × ((pid : ℕ) → pid ≢ d.profile_id → new pid ≡ old pid)

idle-buffers :
    (s : QueueScheduler) → Rotates s → s.schedule_order ≡ [] → (pid : ℕ) → buffers s pid ≡ []
unfolding contains
idle-buffers s v h pid = ground (arith, v.busy pid)

-- Where the rotation is right, `dequeue` returns `None` only if no identity has a pending buffer.
-- Otherwise it takes the oldest buffer of the identity that it names, and no other queue changes.
pub dequeue-Takes :
    (s : QueueScheduler) → Rotates s → Takes (buffers s) (dequeue s).1 (buffers (dequeue s).0)
unfolding serve
dequeue-Takes s v = elim (dequeue-Dequeued s v) [
  | idle h e ↦ rw e (λ pid. (idle-buffers s v h pid, idle-buffers s v h pid))
  | served pid b rest order q h k e d ↦ rw d (
    ground (
      arith,
      front-buffers s v pid b rest order q h k e,
      serve-buffers s v pid b rest order q h k e pid,
    ),
    λ p ne. ground (arith, serve-buffers s v pid b rest order q h k e p),
  )
]
