-- ===== src/Lifecycle/Tests.antt =====
-- The lease of one user runs out, and the alert is delivered twice.
use innovation_sandbox_on_aw.Common.{◌≡◌, refl, some, [], ◌∷◌}
use innovation_sandbox_on_aw.Types.{expired}
use innovation_sandbox_on_aw.Outcome.{◌>>=◌, ok, swallow, on_error}
use innovation_sandbox_on_aw.Events.{Event, lease_terminated_reason, lease_expired_alert}
use innovation_sandbox_on_aw.World.{World, remote, send}
use innovation_sandbox_on_aw.Table.{put}
use innovation_sandbox_on_aw.Transaction.{complete, begin_transaction}
use innovation_sandbox_on_aw.LeaseLock.{admits, is_critical, new_lock}
use innovation_sandbox_on_aw.LeaseStore.{get_lease, update_lease, acquire_lock}
use innovation_sandbox_on_aw.AccountStore.{
  get_account, put_account, is_account_status, move_account_to, transactional_move_account,
}
use innovation_sandbox_on_aw.AssignmentLock.{
  trigger_assignment_processing, acquire_assignment_processing_lock, acquire_assignment_lock,
  timeout_of, publish_assignment_processing_request,
}
use innovation_sandbox_on_aw.Sandbox.{
  account_of, delete_stack_instances_metadata, move_to_clean_up, update_status_tag, send_events,
}
use innovation_sandbox_on_aw.Sandbox.Terminate.{terminate_lease, clean_up_account}
use innovation_sandbox_on_aw.World.Triple.{view, Ended}
use innovation_sandbox_on_aw.Sandbox.Tests.{start}
use innovation_sandbox_on_aw.Lifecycle.{
  handle_account_cleanup_successful, handle_account_life_cycle_event, end_lease, lease_for,
}
use innovation_sandbox_on_aw.Lifecycle.Again.{EndedAt, Refused, alert_again}
use innovation_sandbox_on_aw.Lifecycle.Cleanup.{
  Cleaned, NotCleaned, handle_account_cleanup_successful_lem,
}

abbrev alert : Event
alert = lease_expired_alert "ann@corp" "l1" (some "111") 86400000

handle_account_cleanup_successful_lem_example :
    Ended
      (λ _ v. Cleaned "111" (view start) v)
      (NotCleaned "111" (view start))
      (handle_account_cleanup_successful "111" start)
handle_account_cleanup_successful_lem_example = handle_account_cleanup_successful_lem "111" start

abbrev after : World
after = (handle_account_life_cycle_event (alert ∷ []) start).1

-- The first delivery ends the lease.
first_delivery : (handle_account_life_cycle_event (alert ∷ []) start).0 ≡ ok tt
unfolding handle_account_life_cycle_event end_lease ◌>>=◌ lease_for get_lease remote terminate_lease
    account_of get_account delete_stack_instances_metadata clean_up_account move_to_clean_up
    complete transactional_move_account move_account_to send put_account is_account_status put
    begin_transaction update_status_tag swallow update_lease trigger_assignment_processing
    acquire_assignment_processing_lock acquire_assignment_lock timeout_of is_critical acquire_lock
    admits new_lock publish_assignment_processing_request on_error lease_terminated_reason
    send_events
first_delivery = refl

alert_again_example :
    EndedAt "ann@corp" "l1" expired (view after)
    × Ended (λ _ _. ⊥) (Refused (view after)) (handle_account_life_cycle_event (alert ∷ []) after)
alert_again_example = alert_again alert "ann@corp" "l1" expired start after refl first_delivery refl
