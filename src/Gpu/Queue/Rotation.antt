-- ===== src/Gpu/Queue/Rotation.antt =====
-- The rotation of crates/pb-gpu/src/queue.rs against the abstract view: one FIFO list for each
-- identity.
use dev_browse.Prelude.{
  ℕ, ◌≡◌, refl, false, not, List, [], ◌∷◌, ◌++◌, arith, Option, none, some, ◌==◌, if◌then◌else◌,
  is_empty, contains, contains-append_last, NoRepeat, NoRepeat-append_last, ℕ_discrete,
}
use dev_browse.Prelude.Map.{lookup, lookup-insert}
use dev_browse.Gpu.Coordinator.{ScopeToken}
use dev_browse.Gpu.Queue.{QueueScheduler, IdentityQueue, queue_or_new, new, submit, on_recovery}

-- The abstract view: the pending buffers of each identity, oldest first.
abbrev pub pending_of : Option IdentityQueue → List ℕ
pending_of none = []
pending_of (some q) = q.pending

unfoldable pub buffers : QueueScheduler → ℕ → List ℕ
buffers s pid = pending_of (lookup ℕ_discrete pid s.queues)

-- The rotation has no identity twice, and just those with a pending buffer.
pub record Rotates (s : QueueScheduler) : Type 0 where
  pub once : NoRepeat s.schedule_order
  pub busy : (pid : ℕ) → contains pid s.schedule_order ≡ not (is_empty (buffers s pid))

pub new-Rotates : (epoch : ℕ) → Rotates (new epoch)
unfolding new buffers contains lookup
new-Rotates epoch = record { once = tt; busy = λ pid. refl }

pub on_recovery-Rotates : (s : QueueScheduler) (epoch : ℕ) → Rotates (on_recovery s epoch)
unfolding on_recovery buffers contains lookup
on_recovery-Rotates s epoch = record { once = tt; busy = λ pid. refl }

is_empty-append_last : (xs : List ℕ) (x : ℕ) → is_empty (xs ++ x ∷ []) ≡ false
is_empty-append_last [] x = refl
is_empty-append_last (y ∷ xs) x = refl

module _ (s : QueueScheduler) (token : ScopeToken) where
  queue : IdentityQueue
  queue = queue_or_new token.mode (lookup ℕ_discrete token.profile_id s.queues)

  grown : IdentityQueue
  unfolding queue
  grown = record queue { pending = queue.pending ++ s.next_id ∷ [] }

  -- A submission under a current token puts the next number at the end of its identity's queue and
  -- touches no other queue; under a stale token no queue changes.
  pub submit-buffers :
      (pid : ℕ)
      → buffers (submit s token).0 pid ≡ (
          if token.epoch == s.epoch
          then (if token.profile_id == pid then buffers s pid ++ s.next_id ∷ [] else buffers s pid)
          else buffers s pid)
  unfolding submit buffers queue grown
  submit-buffers pid = ground (arith, lookup-insert ℕ_discrete token.profile_id pid grown s.queues)

  module _ (v : Rotates s) where
    pending_queue : is_empty queue.pending ≡ is_empty (buffers s token.profile_id)
    unfolding queue buffers
    pending_queue = ground arith

    submit-once : NoRepeat (submit s token).0.schedule_order
    unfolding submit queue
    submit-once = ground (
      arith,
      v.once,
      v.busy token.profile_id,
      pending_queue,
      NoRepeat-append_last token.profile_id s.schedule_order,
    )

    submit-busy :
        (pid : ℕ)
        → contains pid (submit s token).0.schedule_order
          ≡ not (is_empty (buffers (submit s token).0 pid))
    unfolding submit queue
    submit-busy pid = ground (
      arith,
      v.busy pid,
      v.busy token.profile_id,
      pending_queue,
      submit-buffers pid,
      is_empty-append_last (buffers s pid) s.next_id,
      contains-append_last pid token.profile_id s.schedule_order,
    )

    pub submit-Rotates : Rotates (submit s token).0
    submit-Rotates = record { once = submit-once; busy = submit-busy }
