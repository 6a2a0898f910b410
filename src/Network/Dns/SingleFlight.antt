-- ===== src/Network/Dns/SingleFlight.antt =====
-- crates/pb-network/src/dns/single_flight.rs: concurrent calls for one key join one resolution. `K` is
-- the key (partition, name, type), of which only equality is used, and `O` is the outcome. A task is a
-- number. What tasks do is a sequence of events, each atomic by the lock of the dispatch map: the call
-- of `resolve` with its choice of a role, the end of the leader's `inner.resolve`, and the drop of a
-- leader's future before that end.
pub mod Flights
use dev_browse.Prelude.{
  ℕ, Bool, true, false, List, [], ◌∷◌, ◌++◌, Option, none, some, map, if◌then◌else◌,
}
use dev_browse.Prelude.Keys.{listed, remove_key}
use dev_browse.Prelude.Map.{lookup, insert, erase}

-- `leaders` are the keys of the leader futures that have not ended; `delivered` is what tasks got.
pub record SingleFlight (K O : Type 0) : Type 0 where
  pub inflight : List (K × List ℕ)
  pub leaders : List (K × ℕ)
  pub delivered : List (ℕ × O)

unfoldable pub new : {K O : Type 0} → SingleFlight K O
new = record { inflight = []; leaders = []; delivered = [] }

pub data Event (K O : Type 0) : Type 0 where
  calls : ℕ → K → Event K O
  completes : K → O → Event K O
  leader_dropped : K → Event K O

-- The leader's outcome for each waiter, in the order in which they joined.
abbrev pub send_all : {O : Type 0} → O → List ℕ → List (ℕ × O)
send_all outcome waiters = map (λ t. (t, outcome)) waiters

-- `s.waiters`, or none.
abbrev pub waiters_of : Option (List ℕ) → List ℕ
waiters_of none = []
waiters_of (some waiters) = waiters

module _ {K O : Type 0} (dec : Discrete K) where
  -- The choice of the role under the lock.
  abbrev pub join : ℕ → K → Option (List ℕ) → SingleFlight K O → SingleFlight K O
  join t k (some waiters) s = record s { inflight = insert dec k (waiters ++ t ∷ []) s.inflight }
  join t k none s = record s {
    inflight = insert dec k [] s.inflight;
    leaders = insert dec k t s.leaders;
  }

  -- The end of a leader: the slot is removed, and the outcome goes to the waiters and the leader.
  abbrev pub finish : K → O → Option ℕ → SingleFlight K O → SingleFlight K O
  finish k outcome none s = s
  finish k outcome (some leader) s = record {
    inflight = erase dec k s.inflight;
    leaders = erase dec k s.leaders;
    delivered =
        s.delivered
        ++ (send_all outcome (waiters_of (lookup dec k s.inflight)) ++ (leader, outcome) ∷ []);
  }

  unfoldable pub step : Event K O → SingleFlight K O → SingleFlight K O
  step (calls t k) s = join t k (lookup dec k s.inflight) s
  step (completes k outcome) s = finish k outcome (lookup dec k s.leaders) s
  step (leader_dropped k) s = record s { leaders = erase dec k s.leaders }

  unfoldable pub run : List (Event K O) → SingleFlight K O → SingleFlight K O
  run [] s = s
  run (event ∷ events) s = run events (step event s)
