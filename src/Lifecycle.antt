-- ===== src/Lifecycle.antt =====
-- source/lambdas/account-management/account-lifecycle-management/src/account-lifecycle-manager.ts:
-- the handler that turns events into operations of the facade. Parsing and logging are left out.
pub mod Effects
pub mod Again
pub mod Cleanup
mod Tests
use Prim.Native.String
use innovation_sandbox_on_aw.Common.{
  String, Bool, true, false, Option, none, some, List, [], ◌∷◌, or_default, str_eq, if◌then◌else◌,
}
use innovation_sandbox_on_aw.Types.{
  Lease, ExpiredStatus, budget_exceeded, expired, provisioning_failed, Account, Ou, available,
  active, clean_up, quarantine, frozen, entry, exit, is_active_lease, is_monitored_status,
}
use innovation_sandbox_on_aw.Outcome.{
  ok, err, Action, pure, throw, or_throw, guard, ◌>>=◌, ◌>>◌, lease_missing, lease_inactive,
  account_missing, account_not_cleaning, one_record_expected, unsupported_event,
}
use innovation_sandbox_on_aw.Events.{
  Event, FrozenReason, lease_budget_exceeded_alert, lease_expired_alert, account_cleanup_successful,
  account_cleanup_failure, account_drift_detected_alert, lease_freezing_threshold_breached_alert,
  blueprint_deployment_succeeded, blueprint_deployment_failed,
}
use innovation_sandbox_on_aw.Transaction.{complete}
use innovation_sandbox_on_aw.LeaseStore.{get_lease}
use innovation_sandbox_on_aw.AccountStore.{
  get_account, delete_account, same_ou, transactional_move_account,
}
use innovation_sandbox_on_aw.AssignmentLock.{truthy}
use innovation_sandbox_on_aw.Sandbox.{update_status_tag}
use innovation_sandbox_on_aw.Sandbox.Freeze.{freeze_lease}
use innovation_sandbox_on_aw.Sandbox.Publish.{publish_lease}
use innovation_sandbox_on_aw.Sandbox.Terminate.{terminate_lease, reset_lease}
use innovation_sandbox_on_aw.Sandbox.Pool.{quarantine_account}
use innovation_sandbox_on_aw.World.{World}

-- How the handlers of a lease's events begin: the lease is there, and passes the test.
unfoldable pub lease_for : (Lease → Bool) → (email uuid : String) → Action World Lease
lease_for test email uuid = do
  found ← get_lease email uuid
  l ← or_throw found lease_missing
  guard (test l) lease_inactive
  pure l

abbrev pub is_monitored_lease : Lease → Bool
is_monitored_lease l = is_monitored_status l.status

-- The body of `handleLeaseBudgetExceeded` and of `handleLeaseExpired`.
unfoldable pub end_lease : (email uuid : String) → ExpiredStatus → Action World (Unit {0})
end_lease email uuid status = do
  l ← lease_for is_monitored_lease email uuid
  terminate_lease l status true

unfoldable pub handle_lease_budget_exceeded : (email uuid : String) → Action World (Unit {0})
handle_lease_budget_exceeded email uuid = end_lease email uuid budget_exceeded

unfoldable pub handle_lease_expired : (email uuid : String) → Action World (Unit {0})
handle_lease_expired email uuid = end_lease email uuid expired

-- `handleAccountCleanupSuccessful`
unfoldable pub handle_account_cleanup_successful : String → Action World (Unit {0})
handle_account_cleanup_successful id = do
  found ← get_account id
  a ← or_throw found account_missing
  guard (same_ou a.status clean_up) account_not_cleaning
  complete (transactional_move_account a clean_up available) []
  update_status_tag a.aws_account_id available

-- `handleAccountCleanupFailure`
unfoldable pub handle_account_cleanup_failure : String → Action World (Unit {0})
handle_account_cleanup_failure id = quarantine_account id clean_up "Cleanup Failed"

abbrev pub ou_name : Ou → String
ou_name available = "Available"
ou_name active = "Active"
ou_name clean_up = "CleanUp"
ou_name quarantine = "Quarantine"
ou_name frozen = "Frozen"
ou_name entry = "Entry"
ou_name exit = "Exit"

abbrev pub shown_ou : Option Ou → String
shown_ou none = "undefined"
shown_ou (some ou) = ou_name ou

abbrev pub drift_reason : Option Ou → Ou → String
drift_reason expected actual = String.◌++◌ "Drift Detected: {expectedOU: " (
    String.◌++◌ (shown_ou expected) (String.◌++◌ ", actualOU: " (String.◌++◌ (ou_name actual) "}")))

-- `handleAccountDrift`
unfoldable pub handle_account_drift :
    String → (expected actual : Option Ou) → Action World (Unit {0})
handle_account_drift id expected none = delete_account id
handle_account_drift id expected (some actual) =
    quarantine_account id actual (drift_reason expected actual)

-- `handleLeaseFreezingAlert`
unfoldable pub handle_lease_freezing_alert :
    (email uuid : String) → FrozenReason → Action World (Unit {0})
handle_lease_freezing_alert email uuid reason = do
  l ← lease_for is_active_lease email uuid
  freeze_lease l reason

-- `handleBlueprintDeploymentSucceeded`
unfoldable pub handle_blueprint_deployment_succeeded :
    (email uuid : String) → Action World (Unit {0})
handle_blueprint_deployment_succeeded email uuid = do
  l ← lease_for is_monitored_lease email uuid
  publish_lease l

-- `lease.approvedBy === "AUTO_APPROVED"`
abbrev pub is_auto_approval : Option String → Bool
is_auto_approval none = false
is_auto_approval (some by) = str_eq by "AUTO_APPROVED"

abbrev pub give_up_provisioning : Lease → Action World (Unit {0})
give_up_provisioning l =
    if is_auto_approval l.approved_by
    then terminate_lease l provisioning_failed true
    else reset_lease l (or_default (truthy l.blueprint_name) "Unknown Blueprint")

-- `handleBlueprintDeploymentFailed`
unfoldable pub handle_blueprint_deployment_failed : (email uuid : String) → Action World (Unit {0})
handle_blueprint_deployment_failed email uuid = do
  l ← lease_for is_monitored_lease email uuid
  give_up_provisioning l

-- The `switch` of `handleAccountLifeCycleEvent`; an event that it does not track is refused.
unfoldable pub dispatch : Event → Action World (Unit {0})
unfolding handle_lease_budget_exceeded handle_lease_expired handle_account_cleanup_failure
    handle_account_drift
dispatch (lease_budget_exceeded_alert email uuid _ _ _) = handle_lease_budget_exceeded email uuid
dispatch (lease_expired_alert email uuid _ _) = handle_lease_expired email uuid
dispatch (account_cleanup_successful id) = handle_account_cleanup_successful id
dispatch (account_cleanup_failure id) = handle_account_cleanup_failure id
dispatch (account_drift_detected_alert id expected actual) = handle_account_drift id expected actual
dispatch (lease_freezing_threshold_breached_alert email uuid _ reason) =
    handle_lease_freezing_alert email uuid reason
dispatch (blueprint_deployment_succeeded email uuid _) =
    handle_blueprint_deployment_succeeded email uuid
dispatch (blueprint_deployment_failed email uuid _) = handle_blueprint_deployment_failed email uuid
dispatch _ = throw unsupported_event

-- `handleAccountLifeCycleEvent`, on the events of one invocation. Without any, the code throws a
-- `TypeError`.
unfoldable pub handle_account_life_cycle_event : List Event → Action World (Unit {0})
unfolding dispatch
handle_account_life_cycle_event (e ∷ []) = dispatch e
handle_account_life_cycle_event _ = throw one_record_expected
