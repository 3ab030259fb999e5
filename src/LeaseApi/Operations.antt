-- ===== src/LeaseApi/Operations.antt =====
-- The operations of source/lambdas/api/leases/src/smithy/lease-operations.ts, but the two listings.
-- A body is what its zod schema has accepted; the ids that responses carry beside a lease are left
-- out.
use Prim.Native.String
use innovation_sandbox_on_aw.Common.{
  ℕ, String, Bool, true, false, not, ◌&&◌, ◌||◌, Option, none, some, List, [], or_default, str_eq,
  if◌then◌else◌,
}
use innovation_sandbox_on_aw.Types.{
  Lease, LeaseStatus, LeaseTemplate, BudgetThreshold, DurationThreshold, DesiredAssignment, Intent,
  update, user_terminated, manually_terminated, is_active_lease, is_frozen_lease,
  is_monitored_status,
}
use innovation_sandbox_on_aw.Outcome.{
  Error, Action, pure, or_throw, gets, guard, swallow, map_error, ◌>>=◌, ◌>>◌, http_error,
  unknown_item, no_accounts_available, account_not_in_active, account_not_in_frozen,
  resource_lock_conflict, could_not_find_account, could_not_retrieve_user, max_assignments_exceeded,
  max_number_of_leases_exceeded, lease_request_rate_limit_exceeded,
}
use innovation_sandbox_on_aw.Events.{manually_frozen}
use innovation_sandbox_on_aw.Auth.{IsbUser, get_user_email}
use innovation_sandbox_on_aw.LeaseStore.{update_lease}
use innovation_sandbox_on_aw.AssignmentLock.{
  truthy, acquire_assignment_processing_lock, publish_assignment_processing_request,
}
use innovation_sandbox_on_aw.Processor.{get_assignments_for_lease}
use innovation_sandbox_on_aw.Sandbox.Freeze.{freeze_lease, unfreeze_lease}
use innovation_sandbox_on_aw.Sandbox.Terminate.{terminate_lease}
use innovation_sandbox_on_aw.Sandbox.Approve.{approve_lease}
use innovation_sandbox_on_aw.Sandbox.Request.{request_lease, deny_lease, new_item}
use innovation_sandbox_on_aw.World.{
  World, remote, send, time, tag_cost_report_group, is_synthetic_m2m_email,
}
use innovation_sandbox_on_aw.LeaseApi.{
  is_admin_or_manager, fetch_lease, fetch_lease_or_throw404, has_read_access_for_lease,
  assert_caller_can_manage_assignments, assert_group_assignments_allowed, authorize_termination,
  is_own, is_none_left, is_true,
}
use innovation_sandbox_on_aw.LeaseApi.Validation.{
  lease_complies, cost_report_group_complies, same_text,
}
use innovation_sandbox_on_aw.LeaseApi.Views.{AssignmentView, derive_assignment_view}
use innovation_sandbox_on_aw.LeaseApi.RateLimit.{enforce_lease_request_rate_limit}

abbrev pub can_read : IsbUser → Option Lease → Action World Bool
can_read u none = pure false
can_read u (some l) = has_read_access_for_lease u l

-- `getLease`
unfoldable pub get_lease_operation : IsbUser → String → Action World Lease
get_lease_operation u id = do
  found ← fetch_lease id
  readable ← can_read u found
  guard (readable || is_admin_or_manager u) (http_error 403)
  guard readable (http_error 404)
  or_throw found (http_error 404)

-- How `getLeaseAssignments` and `updateLeaseAssignments` begin: 403 comes before 404.
unfoldable pub fetch_managed_lease : IsbUser → String → Action World Lease
fetch_managed_lease u id = do
  found ← fetch_lease id
  guard (is_admin_or_manager u || is_own u found) (http_error 403)
  or_throw found (http_error 404)

-- `getLeaseAssignments`
unfoldable pub get_lease_assignments_operation :
    IsbUser → String → Action World (List AssignmentView × Option Intent)
get_lease_assignments_operation u id = do
  l ← fetch_managed_lease u id
  records ← get_assignments_for_lease l.uuid
  now ← gets time
  pure (derive_assignment_view l records now)

-- The body of `updateLease`: a member that is absent is `none`, one that is null `some none`.
pub record LeasePatch : Type 0 where
  pub max_spend : Option (Option ℕ)
  pub budget_thresholds : Option (List BudgetThreshold)
  pub expiration_date : Option (Option ℕ)
  pub duration_thresholds : Option (List DurationThreshold)
  pub cost_report_group : Option (Option String)
  pub allow_owner_to_share_lease : Option Bool

abbrev pub replaced : {A : Type 0} → Option A → Option A → Option A
replaced none old = old
replaced (some new) old = some new

-- `{ ...existingLease, ...leaseUpdates }`
unfoldable pub patched : Lease → LeasePatch → Lease
patched l p = record l {
  max_spend = or_default p.max_spend l.max_spend;
  budget_thresholds = replaced p.budget_thresholds l.budget_thresholds;
  expiration_date = or_default p.expiration_date l.expiration_date;
  duration_thresholds = replaced p.duration_thresholds l.duration_thresholds;
  cost_report_group = or_default p.cost_report_group l.cost_report_group;
  allow_owner_to_share_lease = replaced p.allow_owner_to_share_lease l.allow_owner_to_share_lease;
}

abbrev pub update_status : Error → Error
update_status unknown_item = http_error 404
update_status e = e

-- The tag that follows a change of the cost report group; a failure is logged only.
abbrev pub retag : Lease → Lease → Action World (Unit {0})
retag l new =
    if same_text l.cost_report_group new.cost_report_group
    then pure tt
    else swallow (
        send (
          tag_cost_report_group (or_default new.aws_account_id "")
            (or_default new.cost_report_group "No cost report group")))

-- `updateLease`
unfoldable pub update_lease_operation : String → LeasePatch → Action World Lease
unfolding patched
update_lease_operation id p = do
  l ← fetch_lease_or_throw404 id
  guard (is_monitored_status l.status) (http_error 400)
  let new = patched l p
  rules ← gets (λ w. w.rules)
  guard (lease_complies rules new l) (http_error 400)
  guard (cost_report_group_complies rules new.cost_report_group l.cost_report_group)
      (http_error 400)
  map_error update_status (do result ← update_lease new; retag l new; pure (new_item new result))

abbrev pub is_pending : LeaseStatus → Bool
is_pending LeaseStatus.pending_approval = true
is_pending _ = false

abbrev pub review_status : Error → Error
review_status no_accounts_available = http_error 409
review_status e = e

-- `reviewLease`
unfoldable pub review_lease_operation :
    IsbUser → String → (approve : Bool) → Action World (Unit {0})
review_lease_operation u id approve = do
  l ← fetch_lease_or_throw404 id
  guard (is_pending l.status) (http_error 409)
  if approve
      then map_error review_status (approve_lease l (get_user_email u) >> pure tt)
      else deny_lease l u

-- `mapLeaseLockError`
abbrev pub lock_status : Error → Error
lock_status resource_lock_conflict = http_error 409
lock_status could_not_find_account = http_error 404
lock_status could_not_retrieve_user = http_error 404
lock_status e = e

abbrev pub freeze_status : Error → Error
freeze_status account_not_in_active = http_error 409
freeze_status e = lock_status e

-- `freezeLease`
unfoldable pub freeze_lease_operation : IsbUser → String → Action World (Unit {0})
freeze_lease_operation u id = do
  l ← fetch_lease_or_throw404 id
  guard (is_monitored_status l.status) (http_error 409)
  map_error freeze_status
      (freeze_lease l (manually_frozen (String.◌++◌ "Manually frozen by " (get_user_email u))))

-- `mapTerminateError`
abbrev pub terminate_status : Error → Error
terminate_status resource_lock_conflict = http_error 409
terminate_status could_not_find_account = http_error 404
terminate_status could_not_retrieve_user = http_error 404
terminate_status e = e

-- `terminateLease`
unfoldable pub terminate_lease_operation : IsbUser → String → Action World (Unit {0})
terminate_lease_operation u id = do
  found ← fetch_lease id
  is_user_only ← authorize_termination u found
  l ← or_throw found (http_error 404)
  guard (is_monitored_status l.status) (http_error 409)
  map_error terminate_status
      (terminate_lease l (if is_user_only then user_terminated else manually_terminated) true)

abbrev pub unfreeze_status : Error → Error
unfreeze_status account_not_in_frozen = http_error 409
unfreeze_status e = lock_status e

-- `unfreezeLease`
unfoldable pub unfreeze_lease_operation : String → Action World Lease
unfreeze_lease_operation id = do
  l ← fetch_lease_or_throw404 id
  guard (is_frozen_lease l) (http_error 409)
  result ← map_error unfreeze_status (unfreeze_lease l)
  pure (new_item l result)

abbrev pub assignments_status : Error → Error
assignments_status max_assignments_exceeded = http_error 400
assignments_status resource_lock_conflict = http_error 409
assignments_status e = e

-- `triggerAssignmentProcessing` with the caller as the one who asks.
abbrev pub trigger_update : Lease → List DesiredAssignment → String → Action World ℕ
trigger_update l desired requested_by = do
  lock ← acquire_assignment_processing_lock l.uuid l.user_email update (some desired)
  publish_assignment_processing_request (record lock { requested_by = requested_by })
  pure lock.desired_count

-- `updateLeaseAssignments`
unfoldable pub update_lease_assignments_operation :
    IsbUser → String → List DesiredAssignment → Action World ℕ
update_lease_assignments_operation u id desired = do
  l ← fetch_managed_lease u id
  assert_caller_can_manage_assignments u l
  assert_group_assignments_allowed desired (or_default l.desired_assignments [])
  guard (is_active_lease l) (http_error 409)
  map_error assignments_status (trigger_update l desired (get_user_email u))

-- `validateAndGetLeaseTemplate`
unfoldable pub validate_and_get_lease_template : String → IsbUser → Action World LeaseTemplate
validate_and_get_lease_template uuid u = do
  remote
  private ← gets (λ w. w.is_private_template uuid)
  found ← gets (λ w. w.template_of uuid)
  guard (not (private && not (is_admin_or_manager u))) (http_error 404)
  or_throw found (http_error 404)

-- `!userEmail || userEmail === getUserEmail(requestingUser)`
abbrev pub is_for_self : Option String → IsbUser → Bool
is_for_self email u = elim (truthy email) [ none ↦ true | some e ↦ str_eq e (get_user_email u) ]

-- `resolveTargetUser`
unfoldable pub resolve_target_user : Option String → IsbUser → Action World IsbUser
resolve_target_user email u = if is_for_self email u then pure u else (do
  guard (is_admin_or_manager u) (http_error 403)
  remote
  found ← gets (λ w. w.idc_user_of (or_default email ""))
  or_throw found (http_error 404))

abbrev pub request_status : Error → Error
request_status max_number_of_leases_exceeded = http_error 409
request_status no_accounts_available = http_error 409
request_status (lease_request_rate_limit_exceeded _) = http_error 429
request_status e = e

-- The body of `requestLease`, an absent list as an empty one.
pub record LeaseRequestBody : Type 0 where
  pub lease_template_uuid : String
  pub user_email : Option String
  pub comments : Option String
  pub assignments : List DesiredAssignment

-- `requestLease`. The template and the user are asked for at the same time; here the template
-- comes first.
unfoldable pub request_lease_operation : IsbUser → LeaseRequestBody → Action World Lease
unfolding resolve_target_user validate_and_get_lease_template
request_lease_operation u body = do
  assert_group_assignments_allowed body.assignments []
  m2m ← gets (λ w. is_synthetic_m2m_email w.env (or_default body.user_email (get_user_email u)))
  guard (not m2m) (http_error 400)
  template ← validate_and_get_lease_template body.lease_template_uuid u
  target ← resolve_target_user body.user_email u
  shared ← gets (λ w. w.rules.lease_sharing_enabled)
  let bare = is_none_left body.assignments || is_admin_or_manager u
  guard (shared || bare) (http_error 400)
  guard (is_true template.allow_owner_to_share_lease || bare) (http_error 403)
  map_error request_status (do
    enforce_lease_request_rate_limit u (get_user_email target)
    request_lease template body.comments target
        (if is_for_self body.user_email u then none else some (get_user_email u)) body.assignments)
