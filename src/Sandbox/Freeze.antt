-- ===== src/Sandbox/Freeze.antt =====
-- `freezeLease` and `unfreezeLease`.
pub mod Laws
pub mod Unfreeze
use innovation_sandbox_on_aw.Common.{
  ℕ, String, Bool, true, false, Option, none, some, List, [], ◌∷◌,
}
use innovation_sandbox_on_aw.Types.{
  Lease, Ou, Intent, freeze, unfreeze, active, frozen, is_active_lease, is_frozen_lease,
}
use innovation_sandbox_on_aw.Outcome.{
  ok, err, Action, pure, guard, on_error, ◌>>=◌, ◌>>◌, account_not_in_active, account_not_in_frozen,
}
use innovation_sandbox_on_aw.Events.{FrozenReason, lease_frozen, lease_unfrozen}
use innovation_sandbox_on_aw.Transaction.{complete}
use innovation_sandbox_on_aw.World.{World, send, put_event}
use innovation_sandbox_on_aw.LeaseStore.{StepResult, transactional_update}
use innovation_sandbox_on_aw.AccountStore.{transactional_move_account}
use innovation_sandbox_on_aw.AssignmentLock.{
  acquire_assignment_processing_lock, release_assignment_processing_lock,
  publish_assignment_processing_request,
}
use innovation_sandbox_on_aw.Sandbox.{account_of, update_status_tag}

-- `freezeLease`
unfoldable pub freeze_lease : Lease → FrozenReason → Action World (Unit {0})
freeze_lease l reason = do
  guard (is_active_lease l) account_not_in_active
  account ← account_of l
  lock ← acquire_assignment_processing_lock l.uuid l.user_email freeze none
  on_error
      (complete (transactional_move_account account active frozen)
        (transactional_update (record l { status = frozen; resource_lock = some lock.lock }) ∷ []))
      (release_assignment_processing_lock lock)
  update_status_tag account.aws_account_id frozen
  publish_assignment_processing_request lock
  send (put_event (lease_frozen l.user_email l.uuid account.aws_account_id reason))

-- `unfreezeLease`
unfoldable pub unfreeze_lease : Lease → Action World StepResult
unfreeze_lease l = do
  guard (is_frozen_lease l) account_not_in_frozen
  account ← account_of l
  lock ← acquire_assignment_processing_lock l.uuid l.user_email unfreeze none
  result ←
      on_error
        (complete
          (transactional_update (record l { status = active; resource_lock = some lock.lock }))
          (transactional_move_account account frozen active ∷ []))
        (release_assignment_processing_lock lock)
  update_status_tag account.aws_account_id active
  publish_assignment_processing_request lock
  send (
      put_event (
        lease_unfrozen l.user_email l.uuid account.aws_account_id l.max_spend
          l.lease_duration_in_hours))
  pure result
