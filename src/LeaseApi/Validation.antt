-- ===== src/LeaseApi/Validation.antt =====
-- source/common/data/global-config/global-config-utils.ts and
-- source/common/data/reporting-config/reporting-config-utils.ts: whether an updated lease complies
-- with the configuration. `previous` is the lease before the update.
use innovation_sandbox_on_aw.Common.{
  ℕ, ◌+◌, ◌*◌, String, Bool, true, false, not, ◌&&◌, Option, none, some, or_default, ltb, ◌==◌,
  str_eq, if◌then◌else◌,
}
use innovation_sandbox_on_aw.Types.{Lease, is_monitored_status}
use innovation_sandbox_on_aw.AssignmentLock.{truthy}
use innovation_sandbox_on_aw.Sandbox.Publish.{ms_per_hour}
use innovation_sandbox_on_aw.World.{LeaseRules}
use innovation_sandbox_on_aw.LeaseApi.{is_true, is_listed}

-- A number that JavaScript takes for true.
abbrev pub is_positive : Option ℕ → Bool
is_positive none = false
is_positive (some n) = not (n == 0)

abbrev pub same_amount : Option ℕ → Option ℕ → Bool
same_amount none none = true
same_amount (some a) (some b) = a == b
same_amount _ _ = false

abbrev pub exceeds : Option ℕ → ℕ → Bool
exceeds none max = false
exceeds (some n) max = ltb max n

-- `validateLeaseSharingEnabled`
unfoldable pub sharing_complies : LeaseRules → Option Bool → Bool
sharing_complies rules allow = not (is_true allow && not rules.lease_sharing_enabled)

-- `validateMaxSpend`
unfoldable pub max_spend_complies : LeaseRules → (max_spend previous : Option ℕ) → Bool
max_spend_complies rules max_spend previous =
    not (is_positive max_spend && exceeds max_spend rules.max_budget)
    && not (
        not (is_positive max_spend)
        && (rules.require_max_budget && not (same_amount max_spend previous)))

-- A duration: the hours that are configured, or the time between two moments, which is negative if
-- they stand the other way round.
pub data Duration : Type 0 where
  hours : ℕ → Duration
  between : (start expiration : ℕ) → Duration

-- `leaseDurationInHours`
unfoldable pub lease_duration_in_hours : Lease → Option Duration
lease_duration_in_hours l =
    if is_monitored_status l.status
    then elim l.expiration_date [
      | none ↦ none
      | some e ↦ some (between (or_default l.start_date 0) e)
    ]
    else elim l.lease_duration_in_hours [ none ↦ none | some h ↦ some (hours h) ]

abbrev pub is_lasting : Option Duration → Bool
is_lasting none = false
is_lasting (some (hours h)) = not (h == 0)
is_lasting (some (between start expiration)) = not (start == expiration)

abbrev pub outlasts : Option Duration → ℕ → Bool
outlasts none max = false
outlasts (some (hours h)) max = ltb max h
outlasts (some (between start expiration)) max = ltb (start + max * ms_per_hour) expiration

abbrev pub same_duration : Option Duration → Option Duration → Bool
same_duration none none = true
same_duration (some (hours a)) (some (hours b)) = a == b
same_duration (some (between s e)) (some (between s' e')) = (e + s') == (e' + s)
same_duration (some (hours a)) (some (between s e)) = (s + a * ms_per_hour) == e
same_duration (some (between s e)) (some (hours a)) = (s + a * ms_per_hour) == e
same_duration _ _ = false

-- `validateMaxDuration`
unfoldable pub max_duration_complies : LeaseRules → (duration previous : Option Duration) → Bool
max_duration_complies rules duration previous =
    not (is_lasting duration && outlasts duration rules.max_duration_hours)
    && not (
        not (is_lasting duration)
        && (rules.require_max_duration && not (same_duration duration previous)))

-- `validateLeaseCompliesWithGlobalConfig`, for an update. For a lease that is not monitored both
-- durations are the configured ones.
unfoldable pub lease_complies : LeaseRules → (lease previous : Lease) → Bool
lease_complies rules l previous =
    sharing_complies rules l.allow_owner_to_share_lease
    && (max_spend_complies rules l.max_spend previous.max_spend
        && max_duration_complies rules (lease_duration_in_hours l) (
            if is_monitored_status l.status
            then lease_duration_in_hours previous
            else elim previous.lease_duration_in_hours [ none ↦ none | some h ↦ some (hours h) ]))

abbrev pub same_text : Option String → Option String → Bool
same_text none none = true
same_text (some a) (some b) = str_eq a b
same_text _ _ = false

abbrev pub is_text : Option String → Bool
is_text none = false
is_text (some s) = true

-- `validateCostReportGroup`, for an update.
unfoldable pub cost_report_group_complies : LeaseRules → (value previous : Option String) → Bool
cost_report_group_complies rules value previous =
    not (
      rules.require_cost_report_group
      && (not (is_text (truthy value)) && not (same_text value previous)))
    && elim (truthy value) [ none ↦ true | some g ↦ is_listed rules.cost_report_groups g ]
