-- ===== src/Monitoring/Tests.antt =====
-- A lease of 50 dollars and a day, with thresholds at 20 dollars and at 6 hours.
use innovation_sandbox_on_aw.Common.{
  ◌≤◌, ◌≡◌, refl, true, not, ◌&&◌, ◌||◌, none, some, List, [], ◌∷◌, any, keep, length, All, Among,
  arith,
}
use innovation_sandbox_on_aw.Types.{
  Lease, LeaseStatus, BudgetThreshold, DurationThreshold, freeze_account, alert,
}
use innovation_sandbox_on_aw.Monitoring.{
  determine_lease_events, max_budget_exceeded, is_expired, newly_breached_budget_thresholds,
  newly_breached_duration_thresholds, largest_budget_threshold, latest_duration_threshold,
  largest_from, latest_from,
}
use innovation_sandbox_on_aw.Monitoring.Decision.{
  ends_lease, asks_freeze, freezing_budget, freezing_duration, determine_lease_events-ends_lease,
  determine_lease_events-asks_freeze,
}
use innovation_sandbox_on_aw.Monitoring.Largest.{
  largest_budget_threshold_lem, latest_duration_threshold_lem,
}
use innovation_sandbox_on_aw.Monitoring.Once.{
  Scan, budget_firings, duration_firings, budget_fires_once, duration_fires_once,
}

abbrev at_20 : BudgetThreshold
at_20 = record { dollars_spent = 20; action = freeze_account }

abbrev at_10 : BudgetThreshold
at_10 = record { dollars_spent = 10; action = alert }

abbrev at_6_hours : DurationThreshold
at_6_hours = record { hours_remaining = 6; action = alert }

abbrev at_2_hours : DurationThreshold
at_2_hours = record { hours_remaining = 2; action = alert }

abbrev lease : Lease
lease = record {
  user_email = "ann@corp";
  uuid = "l1";
  status = LeaseStatus.active;
  template_uuid = "t1";
  template_name = "small";
  comments = none;
  created_by = none;
  blueprint_id = none;
  blueprint_name = none;
  max_spend = some 50;
  lease_duration_in_hours = some 24;
  budget_thresholds = some (at_10 ∷ at_20 ∷ []);
  duration_thresholds = some (at_6_hours ∷ at_2_hours ∷ []);
  cost_report_group = none;
  allow_owner_to_share_lease = none;
  desired_assignments = none;
  resource_lock = none;
  aws_account_id = some "111";
  approved_by = some "AUTO_APPROVED";
  start_date = some 0;
  expiration_date = some 86400000;
  last_checked_date = some 0;
  total_cost_accrued = 0;
  end_date = none;
  ttl = none;
  last_edit_time = some 0;
}

abbrev scans : List Scan
scans = record { cost = 15; time = 3600000 } ∷ record { cost = 30; time = 72000000 } ∷ []

determine_lease_events-ends_lease_example :
    (any ends_lease (determine_lease_events lease 60 3600000)
      ≡ (max_budget_exceeded lease 60 || is_expired lease 3600000))
    × (any ends_lease (determine_lease_events lease 60 3600000) ≡ true
        → length (determine_lease_events lease 60 3600000) ≡ 1)
determine_lease_events-ends_lease_example = determine_lease_events-ends_lease lease 60 3600000

determine_lease_events-asks_freeze_example :
    (any asks_freeze (determine_lease_events lease 30 3600000) ≡ (
      not (max_budget_exceeded lease 30 || is_expired lease 3600000)
      && (any freezing_budget (newly_breached_budget_thresholds lease 30)
          || any freezing_duration (newly_breached_duration_thresholds lease 3600000))))
    × (length (keep asks_freeze (determine_lease_events lease 30 3600000)) ≤ 1)
determine_lease_events-asks_freeze_example = determine_lease_events-asks_freeze lease 30 3600000

largest_budget_threshold_lem_example :
    Among at_20 (at_10 ∷ at_20 ∷ [])
    × All (λ u. u.dollars_spent ≤ at_20.dollars_spent) (at_10 ∷ at_20 ∷ [])
unfolding largest_budget_threshold largest_from
largest_budget_threshold_lem_example = largest_budget_threshold_lem (at_10 ∷ at_20 ∷ []) at_20 refl

latest_duration_threshold_lem_example :
    Among at_2_hours (at_6_hours ∷ at_2_hours ∷ [])
    × All (λ u. at_2_hours.hours_remaining ≤ u.hours_remaining) (at_6_hours ∷ at_2_hours ∷ [])
unfolding latest_duration_threshold latest_from
latest_duration_threshold_lem_example =
    latest_duration_threshold_lem (at_6_hours ∷ at_2_hours ∷ []) at_2_hours refl

budget_fires_once_example : budget_firings lease at_20 scans ≡ 1
budget_fires_once_example =
    budget_fires_once lease at_20 0 scans (omega arith, omega arith, (omega arith, omega arith, tt))

duration_fires_once_example : duration_firings lease at_6_hours scans ≡ 1
duration_fires_once_example =
    duration_fires_once lease at_6_hours 86400000 0 scans refl refl
      (omega arith, omega arith, (omega arith, omega arith, tt))
