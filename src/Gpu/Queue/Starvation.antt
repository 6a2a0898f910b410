-- ===== src/Gpu/Queue/Starvation.antt =====
-- How long an identity waits in crates/pb-gpu/src/queue.rs while others submit.
use dev_browse.Prelude.{
  ℕ, zero, suc, ◌≡◌, sym, subst, ◌≢◌, List, [], ◌∷◌, ◌++◌, arith, Option, none, some,
}
use dev_browse.Gpu.Coordinator.{ScopeToken}
use dev_browse.Gpu.Queue.{QueueScheduler, DequeuedCommand, submit, serve, dequeue}
use dev_browse.Gpu.Queue.Rotation.{buffers, Rotates, submit-buffers, submit-Rotates}
use dev_browse.Gpu.Queue.Fairness.{
  Dequeued, dequeue-Dequeued, dequeue-Rotates, serve-buffers, front-buffers,
}

-- The identity stands in the list behind `k` others.
abbrev pub Waits : ℕ → ℕ → List ℕ → Type 0
Waits k pid [] = ⊥
Waits zero pid (x ∷ xs) = x ≡ pid
Waits (suc k) pid (x ∷ xs) = (x ≢ pid) × Waits k pid xs

abbrev pub StartsWith : ℕ → List ℕ → Type 0
StartsWith b [] = ⊥
StartsWith b (x ∷ xs) = x ≡ b

-- The identity waits behind `k` others, with buffer `b` first in its queue.
abbrev pub Queued : ℕ → ℕ → ℕ → QueueScheduler → Type 0
Queued k pid b s = Waits k pid s.schedule_order × StartsWith b (buffers s pid)

-- The identity and the buffer of the command.
abbrev pub Serves : ℕ → ℕ → Option DequeuedCommand → Type 0
Serves pid b none = ⊥
Serves pid b (some d) = (d.profile_id ≡ pid) × (d.buffer_id ≡ b)

pub data Event : Type 0 where
  submits : ScopeToken → Event
  dequeues : Event

unfoldable pub step : QueueScheduler → Event → QueueScheduler
step s (submits token) = (submit s token).0
step s dequeues = (dequeue s).0

unfoldable pub run : QueueScheduler → List Event → QueueScheduler
run s [] = s
run s (e ∷ es) = run (step s e) es

unfoldable pub dequeue_count : List Event → ℕ
dequeue_count [] = 0
dequeue_count (submits token ∷ es) = dequeue_count es
dequeue_count (dequeues ∷ es) = suc (dequeue_count es)

Waits-append : (k pid : ℕ) (xs ys : List ℕ) → Waits k pid xs → Waits k pid (xs ++ ys)
Waits-append k pid [] ys h = absurd h
Waits-append zero pid (x ∷ xs) ys h = h
Waits-append (suc k) pid (x ∷ xs) ys h = (h.0, Waits-append k pid xs ys h.1)

StartsWith-append : (b : ℕ) (xs ys : List ℕ) → StartsWith b xs → StartsWith b (xs ++ ys)
StartsWith-append b [] ys h = absurd h
StartsWith-append b (x ∷ xs) ys h = h

submit-Queued :
    (s : QueueScheduler) (token : ScopeToken) (k pid b : ℕ)
    → Queued k pid b s
    → Queued k pid b (submit s token).0
unfolding submit
submit-Queued s token k pid b q = ground (
  arith,
  submit-buffers s token pid,
  StartsWith-append b (buffers s pid) (s.next_id ∷ []),
  Waits-append k pid s.schedule_order (token.profile_id ∷ []),
)

dequeue-Queued :
    (s : QueueScheduler) (k pid b : ℕ)
    → Rotates s
    → Queued (suc k) pid b s
    → Queued k pid b (dequeue s).0
unfolding serve
dequeue-Queued s k pid b v q = elim (dequeue-Dequeued s v) [
  | Dequeued.idle h e ↦ absurd (subst (Waits (suc k) pid) h q.0)
  | Dequeued.served p c rest order w h there e d ↦
      let wait : Waits (suc k) pid (p ∷ order) = subst (Waits (suc k) pid) h q.0 in
      rw d (
        ground (arith, wait, Waits-append k pid order (p ∷ [])),
        ground (arith, wait, q.1, serve-buffers s v p c rest order w h there e pid),
      )
]

dequeue-Serves :
    (s : QueueScheduler) (pid b : ℕ) → Rotates s → Queued zero pid b s → Serves pid b (dequeue s).1
unfolding serve
dequeue-Serves s pid b v q = elim (dequeue-Dequeued s v) [
  | Dequeued.idle h e ↦ absurd (subst (Waits zero pid) h q.0)
  | Dequeued.served p c rest order w h there e d ↦
      let front : p ≡ pid = subst (Waits zero pid) h q.0 in
      let first : StartsWith b (c ∷ rest) =
        subst (StartsWith b) (front-buffers s v p c rest order w h there e)
          (subst (λ x. StartsWith b (buffers s x)) (sym front) q.1) in
      rw d (front, first)
]

pub run-Rotates : (s : QueueScheduler) (es : List Event) → Rotates s → Rotates (run s es)
unfolding run step
run-Rotates s [] v = v
run-Rotates s (submits token ∷ es) v = run-Rotates (submit s token).0 es (submit-Rotates s token v)
run-Rotates s (dequeues ∷ es) v = run-Rotates (dequeue s).0 es (dequeue-Rotates s v)

-- Where the rotation is right, an identity that waits behind `k` others with buffer `b` first in its
-- queue is served, with that buffer, by the dequeue after any interleaving of submissions by
-- anyone with exactly `k` dequeues.
pub run-Serves :
    (es : List Event) (s : QueueScheduler) (k pid b : ℕ)
    → Rotates s
    → Queued k pid b s
    → dequeue_count es ≡ k
    → Serves pid b (dequeue (run s es)).1
unfolding run step dequeue_count
run-Serves [] s zero pid b v q n = dequeue-Serves s pid b v q
run-Serves [] s (suc k) pid b v q n = absurd (omega arith)
run-Serves (submits token ∷ es) s k pid b v q n =
    run-Serves es (submit s token).0 k pid b (submit-Rotates s token v)
      (submit-Queued s token k pid b q) n
run-Serves (dequeues ∷ es) s zero pid b v q n = absurd (omega arith)
run-Serves (dequeues ∷ es) s (suc k) pid b v q n =
    run-Serves es (dequeue s).0 k pid b (dequeue-Rotates s v) (dequeue-Queued s k pid b v q)
      (omega arith)
