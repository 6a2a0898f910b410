-- ===== src/Network/Dns/Fallback.antt =====
-- crates/pb-network/src/dns/fallback.rs: what follows a failed DoH attempt. `E` is `NetworkError`,
-- which is only passed on.
use dev_browse.Prelude.{Bool, true, ◌≡◌, refl, ◌≢◌, if◌then◌else◌, Bool-cases, inl, inr}
use dev_browse.Config.{Mode, standard, strict}

pub data DohFailureKind (E : Type 0) : Type 0 where
  transport protocol timeout : DohFailureKind E
  definitive : E → DohFailureKind E

pub record FallbackPolicy : Type 0 where
  pub system_dns_opt_in : Bool

pub data FallbackOutcome (E : Type 0) : Type 0 where
  surface : E → FallbackOutcome E
  outage system_dns : FallbackOutcome E

-- The end of `decide`, for a failure that is not definitive.
unfoldable pub decide_transient : {E : Type 0} → FallbackPolicy → Mode → FallbackOutcome E
decide_transient p strict = outage
decide_transient p standard = if p.system_dns_opt_in then system_dns else outage

unfoldable pub decide : {E : Type 0} → FallbackPolicy → Mode → DohFailureKind E → FallbackOutcome E
unfolding decide_transient
decide p mode (definitive e) = surface e
decide p mode transport = decide_transient p mode
decide p mode protocol = decide_transient p mode
decide p mode timeout = decide_transient p mode

-- What a decision says of the mode, the opt-in and the failure.
abbrev pub Decision :
    {E : Type 0} → FallbackPolicy → Mode → DohFailureKind E → FallbackOutcome E → Type 0
Decision p mode failure (surface e) = failure ≡ definitive e
Decision p mode failure outage = (e : _) → failure ≢ definitive e
Decision p mode failure system_dns =
    (mode ≡ standard) × (p.system_dns_opt_in ≡ true) × ((e : _) → failure ≢ definitive e)

transient :
    {E : Type 0} (p : FallbackPolicy) (mode : Mode) (failure : DohFailureKind E)
    → ((e : E) → failure ≢ definitive e)
    → Decision p mode failure (decide_transient p mode)
unfolding decide_transient
transient p strict failure h = h
transient p standard failure h = elim (Bool-cases p.system_dns_opt_in) [
  | inl e ↦ rw e (refl, refl, h)
  | inr e ↦ rw e h
]

-- System DNS is used only in Standard mode, with the opt-in, for a failure that is not definitive; a
-- definitive failure is passed on as it is, and no other failure is.
pub decide-Decision :
    {E : Type 0} (p : FallbackPolicy) (mode : Mode) (failure : DohFailureKind E)
    → Decision p mode failure (decide p mode failure)
unfolding decide
decide-Decision p mode (definitive e) = refl
decide-Decision p mode transport = transient p mode transport (λ e k. absurd cc)
decide-Decision p mode protocol = transient p mode protocol (λ e k. absurd cc)
decide-Decision p mode timeout = transient p mode timeout (λ e k. absurd cc)
