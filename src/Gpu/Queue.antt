-- ===== src/Gpu/Queue.antt =====
-- crates/pb-gpu/src/queue.rs: one command queue for each identity, served in rotation. The mutex
-- makes each method one step. A `CommandBufferId` is its number.
pub mod Rotation
pub mod Fairness
pub mod Starvation
use dev_browse.Prelude.{
  ℕ, ◌+◌, ◌%◌, List, [], ◌∷◌, ◌++◌, Outcome, ok, err, Option, none, some, ◌==◌, if◌then◌else◌,
  length, is_empty, u64_end, ℕ_discrete,
}
use dev_browse.Prelude.Map.{lookup, insert}
use dev_browse.Config.{Mode}
use dev_browse.Gpu.Coordinator.{ScopeToken, GpuCoordinator}

pub record DequeuedCommand : Type 0 where
  pub profile_id : ℕ
  pub mode : Mode
  pub epoch : ℕ
  pub buffer_id : ℕ

pub data QueueError : Type 0 where
  stale_token : QueueError

pub record IdentityQueue : Type 0 where
  pub mode : Mode
  pub pending : List ℕ

pub record QueueScheduler : Type 0 where
  pub epoch : ℕ
  pub next_id : ℕ
  pub queues : List (ℕ × IdentityQueue)
  pub schedule_order : List ℕ

unfoldable pub new : ℕ → QueueScheduler
new initial_epoch = record { epoch = initial_epoch; next_id = 1; queues = []; schedule_order = [] }

unfoldable pub from_coordinator : GpuCoordinator → QueueScheduler
unfolding new
from_coordinator c = new c.epoch

abbrev pending_length : Option IdentityQueue → ℕ
pending_length none = 0
pending_length (some q) = length q.pending

unfoldable pub pending_for : QueueScheduler → ScopeToken → ℕ
pending_for s token =
    if token.epoch == s.epoch
    then pending_length (lookup ℕ_discrete token.profile_id s.queues)
    else 0

-- `entry(pid).or_insert_with(…)`: the queue that is there, or an empty one in the token's mode.
abbrev pub queue_or_new : Mode → Option IdentityQueue → IdentityQueue
queue_or_new mode none = record { mode = mode; pending = [] }
queue_or_new mode (some q) = q

unfoldable pub submit : QueueScheduler → ScopeToken → QueueScheduler × Outcome QueueError ℕ
submit s token =
    if token.epoch == s.epoch
    then (
      record s {
        next_id = (s.next_id + 1) % u64_end;
        queues =
            insert ℕ_discrete token.profile_id
              (record queue { pending = queue.pending ++ s.next_id ∷ [] }) s.queues;
        schedule_order =
            if is_empty queue.pending
            then s.schedule_order ++ token.profile_id ∷ []
            else s.schedule_order;
      },
      ok s.next_id,
    )
    else (s, err stale_token)
  where
    queue : IdentityQueue
    queue = queue_or_new token.mode (lookup ℕ_discrete token.profile_id s.queues)

-- The state once `pid` has been taken off the rotation and one buffer off its queue.
unfoldable pub serve :
    QueueScheduler
    → ℕ
    → IdentityQueue
    → ℕ
    → List ℕ
    → List ℕ
    → QueueScheduler × Option DequeuedCommand
serve s pid queue buffer rest order = (
  record s {
    queues = insert ℕ_discrete pid (record queue { pending = rest }) s.queues;
    schedule_order = if is_empty rest then order else order ++ pid ∷ [];
  },
  some (record { profile_id = pid; mode = queue.mode; epoch = s.epoch; buffer_id = buffer }),
)

-- The `while let` loop of `dequeue` over the rotation.
unfoldable pub dequeue_from : QueueScheduler → List ℕ → QueueScheduler × Option DequeuedCommand
unfolding serve
dequeue_from s [] = (record s { schedule_order = [] }, none)
dequeue_from s (pid ∷ order) =
    let skip = dequeue_from s order in
    elim (lookup ℕ_discrete pid s.queues) [
      | none ↦ skip
      | some queue ↦ elim queue.pending [
        | [] ↦ skip
        | buffer ∷ rest ↦ serve s pid queue buffer rest order
      ]
    ]

unfoldable pub dequeue : QueueScheduler → QueueScheduler × Option DequeuedCommand
unfolding dequeue_from
dequeue s = dequeue_from s s.schedule_order

unfoldable pub on_recovery : QueueScheduler → ℕ → QueueScheduler
on_recovery s new_epoch = record s { epoch = new_epoch; queues = []; schedule_order = [] }
