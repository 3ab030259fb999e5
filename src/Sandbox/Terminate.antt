-- ===== src/Sandbox/Terminate.antt =====
-- `terminateLease`, `terminateLeasesAssociatedWithAccount` and `resetLease`.
pub mod Pieces
pub mod Laws
use innovation_sandbox_on_aw.Common.{
  ℕ, String, Bool, false, none, some, List, [], ◌∷◌, ◌++◌, if◌then◌else◌,
}
use innovation_sandbox_on_aw.Types.{
  Lease, LeaseStatus, ExpiredStatus, Account, Ou, ended, active, frozen, provisioning,
  pending_approval, terminate, is_monitored_status,
}
use innovation_sandbox_on_aw.Outcome.{Action, pure, gets, lift, ◌>>=◌, ◌>>◌}
use innovation_sandbox_on_aw.Events.{
  Event, clean_account_request, lease_termination, lease_reset, lease_terminated,
  lease_terminated_reason, lease_provisioning_failed,
}
use innovation_sandbox_on_aw.World.{World, time}
use innovation_sandbox_on_aw.LeaseStore.{update_lease, find_by_status_and_account_id}
use innovation_sandbox_on_aw.AssignmentLock.{trigger_assignment_processing}
use innovation_sandbox_on_aw.Sandbox.{
  account_of, update_status_tag, send_events, move_to_clean_up, delete_stack_instances_metadata,
  ttl_in_epoch_seconds,
}

abbrev pub terminated : Lease → ExpiredStatus → ℕ → ℕ → Lease
terminated l status now days = record l {
  status = ended status;
  end_date = some now;
  ttl = some (ttl_in_epoch_seconds now days);
}

-- The part of `terminateLease` under `if (autoCleanup)`, and the events that it queues.
unfoldable pub clean_up_account : Account → Action World (List Event)
clean_up_account a = do
  move_to_clean_up a a.status
  update_status_tag a.aws_account_id Ou.clean_up
  pure (clean_account_request a.aws_account_id lease_termination none ∷ [])

-- `terminateLease`
unfoldable pub terminate_lease :
    Lease → ExpiredStatus → (auto_cleanup : Bool) → Action World (Unit {0})
terminate_lease l status auto_cleanup = do
  a ← account_of l
  delete_stack_instances_metadata l
  events ← if auto_cleanup then clean_up_account a else pure []
  now ← gets time
  days ← gets (λ w. w.ttl_days)
  update_lease (terminated l status now days)
  trigger_assignment_processing l.uuid l.user_email terminate none
  reason ← lift (lease_terminated_reason status l)
  send_events (events ++ lease_terminated l.user_email l.uuid a.aws_account_id reason ∷ [])

-- The body of the inner loop of `terminateLeasesAssociatedWithAccount`.
unfoldable pub terminate_all : ExpiredStatus → List Lease → Action World (Unit {0})
terminate_all reason [] = pure tt
terminate_all reason (l ∷ ls) = do
  if is_monitored_status l.status then terminate_lease l reason false else pure tt
  terminate_all reason ls

-- The outer loop, over the statuses that are left. A query is read to its end before the first
-- of its leases is terminated.
unfoldable pub terminate_in_statuses :
    String → ExpiredStatus → List LeaseStatus → Action World (Unit {0})
unfolding terminate_all
terminate_in_statuses id reason [] = pure tt
terminate_in_statuses id reason (s ∷ ss) = do
  ls ← find_by_status_and_account_id s id
  terminate_all reason ls
  terminate_in_statuses id reason ss

-- MonitoredLeaseStatusSchema.options
abbrev pub monitored_statuses : List LeaseStatus
monitored_statuses = active ∷ frozen ∷ provisioning ∷ []

-- `terminateLeasesAssociatedWithAccount`
unfoldable pub terminate_leases_of_account : String → ExpiredStatus → Action World (Unit {0})
unfolding terminate_in_statuses
terminate_leases_of_account id reason = terminate_in_statuses id reason monitored_statuses

abbrev pub reset : Lease → Lease
reset l = record l {
  status = pending_approval;
  aws_account_id = none;
  approved_by = none;
  start_date = none;
  expiration_date = none;
  last_checked_date = none;
  total_cost_accrued = 0;
}

-- `resetLease`
unfoldable pub reset_lease : Lease → (blueprint_name : String) → Action World (Unit {0})
reset_lease l blueprint_name = do
  a ← account_of l
  delete_stack_instances_metadata l
  move_to_clean_up a a.status
  update_lease (reset l)
  send_events (
      clean_account_request a.aws_account_id lease_reset none
      ∷ lease_provisioning_failed l.user_email l.uuid a.aws_account_id blueprint_name
      ∷ [])
