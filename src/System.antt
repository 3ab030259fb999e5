-- ===== src/System.antt =====
-- The lambdas together: what happens to the tables, in one order, when the APIs of
-- source/lambdas/api (leases and accounts), the lifecycle handler, the drift monitoring, the
-- assignment processor and the assignment worker are invoked.
pub mod Effects
mod Tests
use innovation_sandbox_on_aw.Common.{String, List, [], ◌∷◌}
use innovation_sandbox_on_aw.Events.{Event}
use innovation_sandbox_on_aw.Auth.{IsbUser}
use innovation_sandbox_on_aw.World.{World}
use innovation_sandbox_on_aw.LeaseApi.Operations.{LeaseRequestBody, request_lease_operation}
use innovation_sandbox_on_aw.LeaseApi.Ended.{Operation, run}
use innovation_sandbox_on_aw.AccountApi.{
  register_account_operation, eject_account_operation, quarantine_account_operation,
  retry_cleanup_operation,
}
use innovation_sandbox_on_aw.Lifecycle.{handle_account_life_cycle_event}
use innovation_sandbox_on_aw.Drift.{do_account_drift_monitoring}
use innovation_sandbox_on_aw.Reconciliation.{Message, settle_assignment}
use innovation_sandbox_on_aw.Processor.{
  FanOutInput, CompletionInput, handle_fan_out, handle_completion,
}

-- An invocation of one of the lambdas.
pub data Invocation : Type 0 where
  lease_operation : Operation → Invocation
  lease_request : IsbUser → LeaseRequestBody → Invocation
  account_registration_request : (account_id : String) → Invocation
  account_ejection : (account_id : String) → Invocation
  account_quarantine : (account_id : String) → Invocation
  cleanup_retry : IsbUser → (account_id : String) → Invocation
  events : List Event → Invocation
  drift_scan : Invocation
  fan_out : FanOutInput → Invocation
  work_item : Message → Invocation
  completion : CompletionInput → Invocation

-- What is left of the world, whether the lambda returns or throws.
unfoldable pub invoke : Invocation → World → World
invoke (lease_operation op) w = (run op w).1
invoke (lease_request u body) w = (request_lease_operation u body w).1
invoke (account_registration_request id) w = (register_account_operation id w).1
invoke (account_ejection id) w = (eject_account_operation id w).1
invoke (account_quarantine id) w = (quarantine_account_operation id w).1
invoke (cleanup_retry u id) w = (retry_cleanup_operation u id w).1
invoke (events es) w = (handle_account_life_cycle_event es w).1
invoke drift_scan w = (do_account_drift_monitoring w).1
invoke (fan_out input) w = (handle_fan_out input w).1
invoke (work_item m) w = (settle_assignment m w).1
invoke (completion input) w = (handle_completion input w).1

unfoldable pub invoke_all : List Invocation → World → World
invoke_all [] w = w
invoke_all (i ∷ is) w = invoke_all is (invoke i w)
