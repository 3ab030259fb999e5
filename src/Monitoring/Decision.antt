-- ===== src/Monitoring/Decision.antt =====
-- What one scan decides for one lease.
use mathlib.Core.List.{append-nil}
use innovation_sandbox_on_aw.Common.{
  ℕ, ◌≤◌, ◌≡◌, refl, Option, List, [], ◌∷◌, ◌++◌, arith, Bool, true, false, ◌||◌, length, keep, any,
  any-append, any-find, keep-append, not, ◌&&◌,
}
use innovation_sandbox_on_aw.Types.{Lease, BudgetThreshold, DurationThreshold}
use innovation_sandbox_on_aw.Events.{
  Event, lease_budget_exceeded_alert, lease_expired_alert, lease_freezing_threshold_breached_alert,
}
use innovation_sandbox_on_aw.Monitoring.{
  max_budget_exceeded, is_expired, newly_breached_budget_thresholds,
  newly_breached_duration_thresholds, freeze_events, budget_alert_events, duration_alert_events,
  largest_budget_threshold, latest_duration_threshold, threshold_events, determine_lease_events,
  freezes,
}

-- The alerts that end a lease.
abbrev pub ends_lease : Event → Bool
ends_lease (lease_budget_exceeded_alert _ _ _ _ _) = true
ends_lease (lease_expired_alert _ _ _ _) = true
ends_lease _ = false

abbrev pub asks_freeze : Event → Bool
asks_freeze (lease_freezing_threshold_breached_alert _ _ _ _) = true
asks_freeze _ = false

freeze_events_ends_none :
    (l : Lease) (cost : ℕ) (bs : List BudgetThreshold) (ds : List DurationThreshold)
    → any ends_lease (freeze_events l cost bs ds) ≡ false
unfolding freeze_events
freeze_events_ends_none l cost bs ds = ground arith

budget_alert_ends_none :
    (l : Lease) (cost : ℕ) (t : Option BudgetThreshold)
    → (any ends_lease (budget_alert_events l cost t) ≡ false)
      × (any asks_freeze (budget_alert_events l cost t) ≡ false)
unfolding budget_alert_events
budget_alert_ends_none l cost t = ground arith

duration_alert_ends_none :
    (l : Lease) (t : Option DurationThreshold)
    → (any ends_lease (duration_alert_events l t) ≡ false)
      × (any asks_freeze (duration_alert_events l t) ≡ false)
unfolding duration_alert_events
duration_alert_ends_none l t = ground arith

threshold_events_ends_none :
    (l : Lease) (cost current : ℕ) → any ends_lease (threshold_events l cost current) ≡ false
unfolding threshold_events
threshold_events_ends_none l cost current =
    let budget = largest_budget_threshold (newly_breached_budget_thresholds l cost) in
    let duration = latest_duration_threshold (newly_breached_duration_thresholds l current) in
    simp (
      any-append,
      freeze_events_ends_none,
      (budget_alert_ends_none l cost budget).0,
      (duration_alert_ends_none l duration).0,
    )

-- An alert that ends the lease goes out exactly when the budget is used up or the lease has run
-- out, and is then the only event of the scan.
pub determine_lease_events-ends_lease :
    (l : Lease) (cost current : ℕ)
    → (any ends_lease (determine_lease_events l cost current)
        ≡ (max_budget_exceeded l cost || is_expired l current))
      × (any ends_lease (determine_lease_events l cost current) ≡ true
          → length (determine_lease_events l cost current) ≡ 1)
unfolding determine_lease_events
determine_lease_events-ends_lease l cost current =
    ground (arith, threshold_events_ends_none l cost current)

abbrev pub freezing_budget : BudgetThreshold → Bool
freezing_budget t = freezes t.action

abbrev pub freezing_duration : DurationThreshold → Bool
freezing_duration t = freezes t.action

freeze_events-asks :
    (l : Lease) (cost : ℕ) (bs : List BudgetThreshold) (ds : List DurationThreshold)
    → (any asks_freeze (freeze_events l cost bs ds)
        ≡ (any freezing_budget bs || any freezing_duration ds))
      × (length (keep asks_freeze (freeze_events l cost bs ds)) ≤ 1)
unfolding freeze_events
freeze_events-asks l cost bs ds =
    ground (arith, any-find freezing_budget bs, any-find freezing_duration ds)

any-keep : (p : Event → Bool) (xs : List Event) → any p xs ≡ false → keep p xs ≡ []
any-keep p [] e = refl
any-keep p (x ∷ xs) e = ground (arith, any-keep p xs)

threshold_events-asks :
    (l : Lease) (cost current : ℕ)
    → (any asks_freeze (threshold_events l cost current) ≡ (
        any freezing_budget (newly_breached_budget_thresholds l cost)
        || any freezing_duration (newly_breached_duration_thresholds l current)))
      × (length (keep asks_freeze (threshold_events l cost current)) ≤ 1)
unfolding threshold_events
threshold_events-asks l cost current =
    let bs = newly_breached_budget_thresholds l cost in
    let ds = newly_breached_duration_thresholds l current in
    let ba = budget_alert_events l cost (largest_budget_threshold bs) in
    let da = duration_alert_events l (latest_duration_threshold ds) in
    let quiet_b = (budget_alert_ends_none l cost (largest_budget_threshold bs)).1 in
    let quiet_d = (duration_alert_ends_none l (latest_duration_threshold ds)).1 in
    (
      ground (
        arith,
        any-append asks_freeze (freeze_events l cost bs ds) (ba ++ da),
        any-append asks_freeze ba da,
        quiet_b,
        quiet_d,
        freeze_events-asks l cost bs ds,
      ),
      rw
          (
            keep-append asks_freeze (freeze_events l cost bs ds) (ba ++ da),
            keep-append asks_freeze ba da,
            any-keep asks_freeze ba quiet_b,
            any-keep asks_freeze da quiet_d,
            append-nil,
          )
          (freeze_events-asks l cost bs ds).1,
    )

-- The scan asks for a freeze exactly when it does not end the lease and a threshold that was
-- newly breached, of budget or of duration, wants one; and it asks once at most.
pub determine_lease_events-asks_freeze :
    (l : Lease) (cost current : ℕ)
    → (any asks_freeze (determine_lease_events l cost current) ≡ (
        not (max_budget_exceeded l cost || is_expired l current)
        && (any freezing_budget (newly_breached_budget_thresholds l cost)
            || any freezing_duration (newly_breached_duration_thresholds l current))))
      × (length (keep asks_freeze (determine_lease_events l cost current)) ≤ 1)
unfolding determine_lease_events
determine_lease_events-asks_freeze l cost current =
    ground (arith, threshold_events-asks l cost current)
