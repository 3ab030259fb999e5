-- ===== src/Types.antt =====
-- The data of source/shared/types/lease.ts, resource-lock.ts and sandbox-account.ts, with the
-- persisted schemas of source/common/data. Timestamps are milliseconds, amounts of money are
-- scaled to natural numbers, and identifiers are texts that the code only compares.
use innovation_sandbox_on_aw.Common.{ℕ, String, Bool, true, false, Option, List}

pub data Intent : Type 0 where
  terminate freeze update publish unfreeze : Intent

pub record Lock : Type 0 where
  pub owner_id : String
  pub acquired_at : ℕ
  pub expires_at : ℕ
  pub intent : Option Intent

pub data ExpiredStatus : Type 0 where
  expired budget_exceeded manually_terminated user_terminated : ExpiredStatus
  account_quarantined ejected provisioning_failed : ExpiredStatus

pub data LeaseStatus : Type 0 where
  pending_approval approval_denied active frozen provisioning : LeaseStatus
  ended : ExpiredStatus → LeaseStatus

pub data ThresholdAction : Type 0 where
  alert freeze_account : ThresholdAction

pub record BudgetThreshold : Type 0 where
  pub dollars_spent : ℕ
  pub action : ThresholdAction

pub record DurationThreshold : Type 0 where
  pub hours_remaining : ℕ
  pub action : ThresholdAction

pub data PrincipalType : Type 0 where
  user group : PrincipalType

pub record DesiredAssignment : Type 0 where
  pub principal_id : String
  pub principal_type : PrincipalType
  pub display_name : Option String
  pub email : Option String

-- The fields of a persisted lease template that a lease takes over, with the approval rule.
pub record LeaseTemplate : Type 0 where
  pub uuid : String
  pub name : String
  pub requires_approval : Bool
  pub cost_report_group : Option String
  pub blueprint_id : Option String
  pub blueprint_name : Option String
  pub allow_owner_to_share_lease : Option Bool
  pub max_spend : Option ℕ
  pub budget_thresholds : Option (List BudgetThreshold)
  pub lease_duration_in_hours : Option ℕ
  pub duration_thresholds : Option (List DurationThreshold)

-- One record for the union of lease schemas: `status` tells them apart, and a field that a
-- status lacks is `none`.
pub record Lease : Type 0 where
  pub user_email : String
  pub uuid : String
  pub status : LeaseStatus
  pub template_uuid : String
  pub template_name : String
  pub comments : Option String
  pub created_by : Option String
  pub blueprint_id : Option String
  pub blueprint_name : Option String
  pub max_spend : Option ℕ
  pub lease_duration_in_hours : Option ℕ
  pub budget_thresholds : Option (List BudgetThreshold)
  pub duration_thresholds : Option (List DurationThreshold)
  pub cost_report_group : Option String
  pub allow_owner_to_share_lease : Option Bool
  pub desired_assignments : Option (List DesiredAssignment)
  pub resource_lock : Option Lock
  pub aws_account_id : Option String
  pub approved_by : Option String
  pub start_date : Option ℕ
  pub expiration_date : Option ℕ
  pub last_checked_date : Option ℕ
  pub total_cost_accrued : ℕ
  pub end_date : Option ℕ
  pub ttl : Option ℕ
  pub last_edit_time : Option ℕ

abbrev pub is_active_lease : Lease → Bool
is_active_lease l = elim l.status [ active ↦ true | _ ↦ false ]

abbrev pub is_frozen_lease : Lease → Bool
is_frozen_lease l = elim l.status [ frozen ↦ true | _ ↦ false ]

abbrev pub is_monitored_status : LeaseStatus → Bool
is_monitored_status active = true
is_monitored_status frozen = true
is_monitored_status provisioning = true
is_monitored_status _ = false

abbrev pub is_expired_lease : Lease → Bool
is_expired_lease l = elim l.status [ ended s ↦ true | _ ↦ false ]

abbrev pub same_expired_status : ExpiredStatus → ExpiredStatus → Bool
same_expired_status expired expired = true
same_expired_status budget_exceeded budget_exceeded = true
same_expired_status manually_terminated manually_terminated = true
same_expired_status user_terminated user_terminated = true
same_expired_status account_quarantined account_quarantined = true
same_expired_status ejected ejected = true
same_expired_status provisioning_failed provisioning_failed = true
same_expired_status _ _ = false

abbrev pub same_status : LeaseStatus → LeaseStatus → Bool
same_status pending_approval pending_approval = true
same_status approval_denied approval_denied = true
same_status active active = true
same_status frozen frozen = true
same_status provisioning provisioning = true
same_status (ended s) (ended t) = same_expired_status s t
same_status _ _ = false

pub data Ou : Type 0 where
  available active clean_up quarantine frozen entry exit : Ou

pub record CurrentLease : Type 0 where
  pub lease_id : String
  pub owner_email : String

pub record Account : Type 0 where
  pub aws_account_id : String
  pub email : Option String
  pub name : Option String
  pub last_cleanup_completed_at : Option ℕ
  pub current_lease : Option CurrentLease
  pub status : Ou
  pub drift_at_last_scan : Bool
  pub resource_lock : Option Lock
  pub last_edit_time : Option ℕ
