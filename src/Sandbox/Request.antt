-- ===== src/Sandbox/Request.antt =====
-- `requestLease` and `denyLease`.
pub mod Laws
use innovation_sandbox_on_aw.Common.{
  ℕ, String, Bool, true, false, not, ◌||◌, Option, none, some, List, [], ◌∷◌, keep, length, ltb,
  or_default, is_some, if◌then◌else◌,
}
use innovation_sandbox_on_aw.Types.{
  Lease, LeaseStatus, LeaseTemplate, DesiredAssignment, pending_approval, approval_denied, active,
  frozen, provisioning,
}
use innovation_sandbox_on_aw.Outcome.{
  ok, err, Action, pure, or_throw, gets, guard, rethrow_after, ◌>>=◌, ◌>>◌, not_an_idc_user,
  max_number_of_leases_exceeded,
}
use innovation_sandbox_on_aw.Auth.{IsbUser, get_user_email, idc_user_id}
use innovation_sandbox_on_aw.Events.{lease_requested, lease_denied}
use innovation_sandbox_on_aw.World.{World, send, time, put_event}
use innovation_sandbox_on_aw.LeaseStore.{
  StepResult, lease_put, find_by_user_email, create_lease, delete_lease, update_lease,
}
use innovation_sandbox_on_aw.AssignmentLock.{truthy, owner_entry, enrich_desired_assignments}
use innovation_sandbox_on_aw.Sandbox.{ttl_in_epoch_seconds}
use innovation_sandbox_on_aw.Sandbox.Approve.{approve_lease}

-- The statuses that count against the limit.
abbrev pub counts : LeaseStatus → Bool
counts active = true
counts pending_approval = true
counts frozen = true
counts provisioning = true
counts _ = false

abbrev pub number_of_active : List Lease → ℕ
number_of_active ls = length (keep (λ l. counts l.status) ls)

-- The record that `requestLease` creates.
unfoldable pub requested_lease :
    LeaseTemplate
    → (email uuid : String) → (comments created_by : Option String) → List DesiredAssignment
    → Lease
requested_lease t email uuid comments created_by assignments = record {
  user_email = email;
  uuid = uuid;
  status = pending_approval;
  template_uuid = t.uuid;
  template_name = t.name;
  comments = comments;
  created_by = some (or_default (truthy created_by) email);
  blueprint_id = t.blueprint_id;
  blueprint_name = t.blueprint_name;
  max_spend = t.max_spend;
  lease_duration_in_hours = t.lease_duration_in_hours;
  budget_thresholds = t.budget_thresholds;
  duration_thresholds = t.duration_thresholds;
  cost_report_group = t.cost_report_group;
  allow_owner_to_share_lease = t.allow_owner_to_share_lease;
  desired_assignments = some assignments;
  resource_lock = none;
  aws_account_id = none;
  approved_by = none;
  start_date = none;
  expiration_date = none;
  last_checked_date = none;
  total_cost_accrued = 0;
  end_date = none;
  ttl = none;
  last_edit_time = none;
}

-- The two ends of `requestLease`: approval at once, where a failure deletes the lease again, or
-- the event that asks for approval.
abbrev pub new_item : Lease → StepResult → Lease
new_item l (lease_put _ n) = n
new_item l _ = l

unfoldable pub settle_request : Lease → Bool → Action World Lease
settle_request l true = do
  result ← rethrow_after (approve_lease l "AUTO_APPROVED") (delete_lease l.user_email l.uuid)
  pure (new_item l result)
settle_request l false = do
  send (put_event (lease_requested l.user_email l.uuid l.comments true))
  pure l

-- A lease that somebody else created is an assignment, and needs no approval.
abbrev pub is_auto_approved : LeaseTemplate → Option String → Bool
is_auto_approved t created_by = not t.requires_approval || is_some created_by

-- `requestLease`
unfoldable pub request_lease :
    LeaseTemplate
    → (comments : Option String) → IsbUser
    → (created_by : Option String) → List DesiredAssignment
    → Action World Lease
request_lease t comments target created_by assignments = do
  leases ← find_by_user_email (get_user_email target)
  limit ← gets (λ w. w.max_leases_per_user)
  guard (ltb (number_of_active leases) limit) max_number_of_leases_exceeded
  user_id ← or_throw (idc_user_id target) not_an_idc_user
  enriched ← enrich_desired_assignments (owner_entry user_id ∷ assignments)
  uuid ← gets (λ w. w.uuid_at w.ticks)
  l ← create_lease (requested_lease t (get_user_email target) uuid comments created_by enriched)
  settle_request l (is_auto_approved t created_by)

abbrev pub denied : Lease → String → ℕ → ℕ → Lease
denied l denier now days = record l {
  status = approval_denied;
  approved_by = some denier;
  ttl = some (ttl_in_epoch_seconds now days);
}

-- `denyLease`
unfoldable pub deny_lease : Lease → IsbUser → Action World (Unit {0})
deny_lease l denier = do
  now ← gets time
  days ← gets (λ w. w.ttl_days)
  update_lease (denied l (get_user_email denier) now days)
  send (put_event (lease_denied l.user_email l.uuid (get_user_email denier)))
