-- ===== src/Events.antt =====
-- The events of source/common/events that the modelled parts send, with the fields that they
-- carry, and `getLeaseTerminatedReason` of lease-terminated-event.ts.
use innovation_sandbox_on_aw.Common.{ℕ, String, Bool, Option, none, some}
use innovation_sandbox_on_aw.Types.{
  Intent, ExpiredStatus, expired, budget_exceeded, ThresholdAction, Lease, Ou, PrincipalType,
}
use innovation_sandbox_on_aw.Outcome.{Result, ok, err, lease_duration_missing}

pub data CleanupReason : Type 0 where
  account_registration lease_termination manually_initiated lease_reset : CleanupReason

-- LeaseFrozenReason of lease-frozen-event.ts
pub data FrozenReason : Type 0 where
  by_duration : (triggered_threshold : ℕ) (lease_duration_in_hours : Option ℕ) → FrozenReason
  by_budget : (triggered_threshold : ℕ) (budget : Option ℕ) (total_spend : ℕ) → FrozenReason
  manually_frozen : (comment : String) → FrozenReason

-- LeaseTerminatedReason; the fixed comments of the last five are the status itself.
pub data TerminatedReason : Type 0 where
  by_duration : (lease_duration_in_hours : ℕ) → TerminatedReason
  by_budget : (budget : Option ℕ) (total_spend : ℕ) → TerminatedReason
  by_status : ExpiredStatus → TerminatedReason

pub data Event : Type 0 where
  clean_account_request :
      (account_id : String) → CleanupReason → (initiated_by : Option String) → Event
  lease_requested : (user_email uuid : String) (comments : Option String) (manual : Bool) → Event
  lease_approved : (user_email uuid : String) (approved_by : Option String) → Event
  lease_denied : (user_email uuid denied_by : String) → Event
  lease_frozen : (user_email uuid account_id : String) → FrozenReason → Event
  lease_unfrozen : (user_email uuid account_id : String) (max_budget duration : Option ℕ) → Event
  lease_terminated : (user_email uuid account_id : String) → TerminatedReason → Event
  lease_provisioning_failed : (user_email uuid account_id blueprint_name : String) → Event
  account_quarantined_event : (account_id reason : String) → Event
  assignment_requested : Intent → (uuid requested_by lock_owner_id user_email : String) → Event
  -- The details of the blueprint and its stack set are left out.
  blueprint_deployment_request :
      (blueprint_id uuid user_email : String) (account_id : Option String) → Event
  lease_budget_exceeded_alert :
      (user_email uuid : String) (account_id : Option String) (budget total_spend : ℕ) → Event
  lease_expired_alert :
      (user_email uuid : String) (account_id : Option String) (expiration_date : ℕ) → Event
  lease_freezing_threshold_breached_alert :
      (user_email uuid : String) (account_id : Option String) → FrozenReason → Event
  lease_budget_threshold_breached_alert :
      (user_email uuid : String) (account_id : Option String) (budget : Option ℕ)
      (triggered total_spend : ℕ)
      → ThresholdAction
      → Event
  lease_duration_threshold_breached_alert :
      (user_email uuid : String) (account_id : Option String) (triggered duration : ℕ)
      → ThresholdAction
      → Event
  assignment_created :
      (lease_id principal_id : String)
      → PrincipalType
      → (assignee_email : Option String) (account_id added_by lease_owner : String) → Event
  assignment_removed :
      (lease_id principal_id : String)
      → PrincipalType
      → (account_id removed_by lease_owner : String) → Event
  account_cleanup_successful account_cleanup_failure : (account_id : String) → Event
  -- The account, the operation and the error are left out.
  blueprint_deployment_succeeded blueprint_deployment_failed :
      (user_email uuid blueprint_id : String) → Event
  account_drift_detected_alert : (account_id : String) (expected_ou actual_ou : Option Ou) → Event

-- `getLeaseTerminatedReason`; a lease with no duration cannot be said to have run out.
unfoldable pub lease_terminated_reason : ExpiredStatus → Lease → Result TerminatedReason
lease_terminated_reason expired l = elim l.lease_duration_in_hours [
  | none ↦ err lease_duration_missing
  | some h ↦ ok (TerminatedReason.by_duration h)
]
lease_terminated_reason budget_exceeded l =
    ok (TerminatedReason.by_budget l.max_spend l.total_cost_accrued)
lease_terminated_reason s l = ok (by_status s)
