-- ===== src/Network/Dns/SingleFlight/Flights.antt =====
-- Runs of the single-flight resolver in which no leader is dropped.
use dev_browse.Prelude.{
  ℕ, ◌≡◌, refl, sym, ◌∙◌, subst, List, [], ◌∷◌, ◌++◌, Option, none, some, ite, if_neg, All,
}
use mathlib.Core.List.{append-nil}
use dev_browse.Prelude.Map.{
  lookup, lookup-insert, lookup-erase, lookup-erase_self, lookup-insert_self,
}
use dev_browse.Network.Dns.SingleFlight.{
  SingleFlight, Event, calls, completes, leader_dropped, new, send_all, join, finish, step, run,
}

-- The event is not the drop of a leader.
abbrev pub Kept : {K O : Type 0} → Event K O → Type 0
Kept (leader_dropped k) = ⊥
Kept _ = Unit

-- Each caller with the outcome, the first caller (who resolves) behind those who joined it.
abbrev pub replies : {O : Type 0} → O → List ℕ → List (ℕ × O)
replies outcome [] = []
replies outcome (leader ∷ followers) = send_all outcome followers ++ (leader, outcome) ∷ []

abbrev leader_of : List ℕ → Option ℕ
leader_of [] = none
leader_of (leader ∷ followers) = some leader

abbrev followers_of : List ℕ → Option (List ℕ)
followers_of [] = none
followers_of (leader ∷ followers) = some followers

module _ {K O : Type 0} (dec : Discrete K) where
  -- The callers of `k` since its last completion, in the order of their calls, read off the events alone;
  -- `before` are those from before the events.
  unfoldable pub callers : K → List (Event K O) → List ℕ → List ℕ
  callers k [] before = before
  callers k (calls t j ∷ events) before = callers k events (ite (dec j k) (before ++ t ∷ []) before)
  callers k (completes j outcome ∷ events) before = callers k events (ite (dec j k) [] before)
  callers k (leader_dropped j ∷ events) before = callers k events before

  -- The slot of `k` and its leader are those of the callers.
  pub record Tied (k : K) (waiting : List ℕ) (s : SingleFlight K O) : Type 0 where
    pub slot : lookup dec k s.inflight ≡ followers_of waiting
    pub leader : lookup dec k s.leaders ≡ leader_of waiting

  -- The callers of `k` after one event.
  abbrev after : K → Event K O → List ℕ → List ℕ
  after k event before = callers k (event ∷ []) before

  join_same :
      (t : ℕ) (k : K) (waiting : List ℕ) (s : SingleFlight K O)
      → Tied k waiting s
      → Tied k (waiting ++ t ∷ []) (join dec t k (lookup dec k s.inflight) s)
  join_same t k [] s h = rw h.slot (record {
    slot = lookup-insert_self dec k [] s.inflight;
    leader = lookup-insert_self dec k t s.leaders;
  })
  join_same t k (leader ∷ followers) s h = rw h.slot (record {
    slot = lookup-insert_self dec k (followers ++ t ∷ []) s.inflight;
    leader = h.leader;
  })

  join_other :
      (t : ℕ) (j k : K) (waiting : List ℕ) (s : SingleFlight K O) (o : Option (List ℕ))
      → ¬ (j ≡ k)
      → Tied k waiting s
      → Tied k waiting (join dec t j o s)
  join_other t j k waiting s none n h = record {
    slot = lookup-insert dec j k [] s.inflight ∙ (if_neg (dec j k) n _ _ ∙ h.slot);
    leader = lookup-insert dec j k t s.leaders ∙ (if_neg (dec j k) n _ _ ∙ h.leader);
  }
  join_other t j k waiting s (some ws) n h = record {
    slot = lookup-insert dec j k (ws ++ t ∷ []) s.inflight ∙ (if_neg (dec j k) n _ _ ∙ h.slot);
    leader = h.leader;
  }

  finish_same :
      (k : K) (outcome : O) (waiting : List ℕ) (s : SingleFlight K O)
      → Tied k waiting s
      → Tied k [] (finish dec k outcome (lookup dec k s.leaders) s)
  finish_same k outcome [] s h = rw h.leader h
  finish_same k outcome (leader ∷ followers) s h = rw h.leader (record {
    slot = lookup-erase_self dec k s.inflight;
    leader = lookup-erase_self dec k s.leaders;
  })

  finish_other :
      (j k : K) (outcome : O) (waiting : List ℕ) (s : SingleFlight K O) (o : Option ℕ)
      → ¬ (j ≡ k)
      → Tied k waiting s
      → Tied k waiting (finish dec j outcome o s)
  finish_other j k outcome waiting s none n h = h
  finish_other j k outcome waiting s (some l) n h = record {
    slot = lookup-erase dec j k s.inflight ∙ (if_neg (dec j k) n _ _ ∙ h.slot);
    leader = lookup-erase dec j k s.leaders ∙ (if_neg (dec j k) n _ _ ∙ h.leader);
  }

  step-Tied :
      (k : K) (event : Event K O) (waiting : List ℕ) (s : SingleFlight K O)
      → Kept event
      → Tied k waiting s
      → Tied k (after k event waiting) (step dec event s)
  unfolding step callers
  step-Tied k (calls t j) waiting s _ h =
      elim (dec j k)
        as (λ d.
          Tied k (ite d (waiting ++ t ∷ []) waiting) (join dec t j (lookup dec j s.inflight) s)) [
            | yes p ↦
                subst (λ i. Tied k (waiting ++ t ∷ []) (join dec t i (lookup dec i s.inflight) s))
                  (sym p) (join_same t k waiting s h)
            | no n ↦ join_other t j k waiting s _ n h
          ]
  step-Tied k (completes j outcome) waiting s _ h =
      elim (dec j k)
        as (λ d. Tied k (ite d [] waiting) (finish dec j outcome (lookup dec j s.leaders) s)) [
          | yes p ↦
              subst (λ i. Tied k [] (finish dec i outcome (lookup dec i s.leaders) s)) (sym p)
                (finish_same k outcome waiting s h)
          | no n ↦ finish_other j k outcome waiting s _ n h
        ]
  step-Tied k (leader_dropped j) waiting s d h = absurd d

  callers-after :
      (k : K) (event : Event K O) (events : List (Event K O)) (before : List ℕ)
      → callers k (event ∷ events) before ≡ callers k events (after k event before)
  unfolding callers
  callers-after k (calls t j) events before = refl
  callers-after k (completes j outcome) events before = refl
  callers-after k (leader_dropped j) events before = refl

  run-Tied :
      (k : K) (events : List (Event K O)) (waiting : List ℕ) (s : SingleFlight K O)
      → All Kept events
      → Tied k waiting s
      → Tied k (callers k events waiting) (run dec events s)
  unfolding run callers
  run-Tied k [] waiting s d h = h
  run-Tied k (event ∷ events) waiting s d h =
      subst (λ w. Tied k w (run dec events (step dec event s)))
        (sym (callers-after k event events waiting))
        (run-Tied k events (after k event waiting) (step dec event s) d.1
          (step-Tied k event waiting s d.0 h))

  finish_answers :
      (k : K) (outcome : O) (waiting : List ℕ) (s : SingleFlight K O)
      → Tied k waiting s
      → (step dec (completes k outcome) s).delivered ≡ s.delivered ++ replies outcome waiting
  unfolding step
  finish_answers k outcome [] s h = rw h.leader (sym (append-nil s.delivered))
  finish_answers k outcome (leader ∷ followers) s h = rw (h.leader, h.slot) refl

  -- After any calls and completions, in any order and with no leader dropped, the completion of a key
  -- sends its outcome to every caller of the key since the completion before it, to each once and to
  -- nobody else: to those who joined in the order of their calls, and then to the first, who resolved.
  -- After it the key is free for a new resolution.
  pub run-callers :
      (events : List (Event K O)) (k : K) (outcome : O)
      → All Kept events
      → let s = run dec events new in
        let t = step dec (completes k outcome) s in
        (t.delivered ≡ s.delivered ++ replies outcome (callers k events []))
        × (lookup dec k t.inflight ≡ none)
        × (lookup dec k t.leaders ≡ none)
  unfolding new step
  run-callers events k outcome d =
      let s : SingleFlight K O = run dec events new in
      let h : Tied k (callers k events []) s =
        run-Tied k events [] new d
          (record { slot = unfold lookup in refl; leader = unfold lookup in refl }) in
      let done = finish_same k outcome (callers k events []) s h in
      (finish_answers k outcome (callers k events []) s h, done.slot, done.leader)
