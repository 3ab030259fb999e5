-- ===== src/Monitoring.antt =====
-- source/lambdas/account-management/lease-monitoring/src/lease-monitoring-handler.ts: which
-- events one scan sends for one lease. A date less a number of hours is compared with the
-- hours moved to the other side.
pub mod Largest
pub mod Decision
pub mod Once
mod Tests
use innovation_sandbox_on_aw.Common.{
  ℕ, ◌+◌, ◌-◌, ◌*◌, ◌/◌, String, Bool, true, false, ◌&&◌, ◌||◌, Option, none, some, List, [], ◌∷◌,
  ◌++◌, or_default, keep, find, ltb, leb, if◌then◌else◌, str_eq,
}
use innovation_sandbox_on_aw.Types.{
  Lease, BudgetThreshold, DurationThreshold, ThresholdAction, alert, freeze_account,
}
use innovation_sandbox_on_aw.Events.{
  Event, FrozenReason, by_budget, by_duration, lease_budget_exceeded_alert, lease_expired_alert,
  lease_freezing_threshold_breached_alert, lease_budget_threshold_breached_alert,
  lease_duration_threshold_breached_alert,
}

abbrev pub ms_per_hour : ℕ
ms_per_hour = 3600000

-- `maxBudgetExceeded`, at the cost that the report has for the lease's account.
unfoldable pub max_budget_exceeded : Lease → ℕ → Bool
max_budget_exceeded l cost = elim l.max_spend [ none ↦ false | some m ↦ leb m cost ]

-- `isExpired`
unfoldable pub is_expired : Lease → ℕ → Bool
is_expired l current = elim l.expiration_date [ none ↦ false | some e ↦ ltb e current ]

-- The test of the loop in `detectNewlyBreachedBudgetThresholds`.
unfoldable pub newly_breached_budget : Lease → ℕ → BudgetThreshold → Bool
newly_breached_budget l cost t =
    ltb l.total_cost_accrued t.dollars_spent && leb t.dollars_spent cost

unfoldable pub newly_breached_budget_thresholds : Lease → ℕ → List BudgetThreshold
unfolding newly_breached_budget
newly_breached_budget_thresholds l cost =
    keep (newly_breached_budget l cost) (or_default l.budget_thresholds [])

-- The test of the loop in `detectNewlyBreachedDurationThresholds`; a date that is missing is an
-- invalid one, and compares false.
unfoldable pub newly_breached_duration : Lease → ℕ → DurationThreshold → Bool
newly_breached_duration l current t = elim l.expiration_date [
  | none ↦ false
  | some e ↦ elim l.last_checked_date [
    | none ↦ false
    | some c ↦
        ltb (c + t.hours_remaining * ms_per_hour) e
        && leb e (current + t.hours_remaining * ms_per_hour)
  ]
]

unfoldable pub newly_breached_duration_thresholds : Lease → ℕ → List DurationThreshold
unfolding newly_breached_duration
newly_breached_duration_thresholds l current =
    keep (newly_breached_duration l current) (or_default l.duration_thresholds [])

-- The `reduce` of `getLargestBudgetThreshold`.
pub largest_from : BudgetThreshold → List BudgetThreshold → BudgetThreshold
largest_from prev [] = prev
largest_from prev (current ∷ rest) =
    largest_from (if ltb current.dollars_spent prev.dollars_spent then prev else current) rest

unfoldable pub largest_budget_threshold : List BudgetThreshold → Option BudgetThreshold
unfolding largest_from
largest_budget_threshold [] = none
largest_budget_threshold (t ∷ ts) = some (largest_from t ts)

-- The `reduce` of `getLatestDurationThreshold`.
pub latest_from : DurationThreshold → List DurationThreshold → DurationThreshold
latest_from prev [] = prev
latest_from prev (current ∷ rest) =
    latest_from (if ltb prev.hours_remaining current.hours_remaining then prev else current) rest

unfoldable pub latest_duration_threshold : List DurationThreshold → Option DurationThreshold
unfolding latest_from
latest_duration_threshold [] = none
latest_duration_threshold (t ∷ ts) = some (latest_from t ts)

abbrev pub freezes : ThresholdAction → Bool
freezes alert = false
freezes freeze_account = true

-- `Math.round` of the hours from `start` to `expiration`; a lease expires after its start.
abbrev pub rounded_hours : ℕ → ℕ → ℕ
rounded_hours start expiration = (expiration - start + 1800000) / ms_per_hour

-- The freeze request: for a budget threshold before a duration threshold, and never for both.
unfoldable pub freeze_events :
    Lease → ℕ → List BudgetThreshold → List DurationThreshold → List Event
freeze_events l cost budget duration = elim (find (λ t. freezes t.action) budget) [
  | some t ↦
      lease_freezing_threshold_breached_alert l.user_email l.uuid l.aws_account_id
        (FrozenReason.by_budget t.dollars_spent l.max_spend cost)
      ∷ []
  | none ↦ elim (find (λ t. freezes t.action) duration) [
    | some t ↦
        lease_freezing_threshold_breached_alert l.user_email l.uuid l.aws_account_id
          (FrozenReason.by_duration t.hours_remaining l.lease_duration_in_hours)
        ∷ []
    | none ↦ []
  ]
]

unfoldable pub budget_alert_events : Lease → ℕ → Option BudgetThreshold → List Event
budget_alert_events l cost none = []
budget_alert_events l cost (some t) =
    if freezes t.action
    then []
    else lease_budget_threshold_breached_alert l.user_email l.uuid l.aws_account_id l.max_spend
        t.dollars_spent cost t.action
      ∷ []

unfoldable pub duration_alert_events : Lease → Option DurationThreshold → List Event
duration_alert_events l none = []
duration_alert_events l (some t) =
    if freezes t.action
    then []
    else lease_duration_threshold_breached_alert l.user_email l.uuid l.aws_account_id
        t.hours_remaining
        (rounded_hours (or_default l.start_date 0) (or_default l.expiration_date 0)) t.action
      ∷ []

-- The part of `determineLeaseEvents` that is reached if the lease has neither run out nor spent
-- its budget.
unfoldable pub threshold_events : Lease → ℕ → ℕ → List Event
unfolding freeze_events budget_alert_events duration_alert_events
threshold_events l cost current =
    let budget = newly_breached_budget_thresholds l cost in
    let duration = newly_breached_duration_thresholds l current in
    freeze_events l cost budget duration
    ++ (budget_alert_events l cost (largest_budget_threshold budget)
        ++ duration_alert_events l (latest_duration_threshold duration))

-- `determineLeaseEvents`
unfoldable pub determine_lease_events : Lease → ℕ → ℕ → List Event
unfolding max_budget_exceeded is_expired threshold_events
determine_lease_events l cost current =
    if max_budget_exceeded l cost
    then lease_budget_exceeded_alert l.user_email l.uuid l.aws_account_id (or_default l.max_spend 0)
        cost
      ∷ []
    else if is_expired l current
    then lease_expired_alert l.user_email l.uuid l.aws_account_id (or_default l.expiration_date 0)
      ∷ []
    else threshold_events l cost current

-- The record that the scan writes back.
unfoldable pub checked : Lease → ℕ → ℕ → Lease
checked l cost current = record l { total_cost_accrued = cost; last_checked_date = some current }
