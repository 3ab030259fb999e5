-- ===== src/System/Effects.antt =====
-- What holds of the tables after any invocations of the lambdas.
pub mod Assignments
pub mod Records
use innovation_sandbox_on_aw.Common.{String, List, [], ◌∷◌, ◌++◌, map, keep, Option, none, some}
use innovation_sandbox_on_aw.Types.{Ou}
use innovation_sandbox_on_aw.Outcome.{◌>>=◌, ◌>>◌, pure}
use innovation_sandbox_on_aw.World.{World}
use innovation_sandbox_on_aw.World.Triple.{View, view}
use innovation_sandbox_on_aw.World.Within.{Within, Within-pure, Within-gets, Within-bind}
use innovation_sandbox_on_aw.Sandbox.Effects.{
  Allows, remote-Within, send-Within, put_account-Within,
}
use innovation_sandbox_on_aw.System.Effects.Records.{IsConsistent, consistent-Allows}
use innovation_sandbox_on_aw.LeaseApi.Effects.{run-Within, request_operation-Within}
use innovation_sandbox_on_aw.AccountApi.Effects.{
  register_operation-Within, eject_operation-Within, quarantine_operation-Within,
  retry_operation-Within,
}
use innovation_sandbox_on_aw.Lifecycle.Effects.{handle-Within}
use innovation_sandbox_on_aw.Drift.{
  OuMap, isb_ous, Task, alert, mark, discover_in, detect_drift_status, perform, perform_all,
  do_account_drift_monitoring,
}
use innovation_sandbox_on_aw.System.Effects.Assignments.{
  fan_out-Within, settle-Within, completion-Within,
}
use innovation_sandbox_on_aw.System.{
  Invocation, lease_operation, lease_request, account_registration_request, account_ejection,
  account_quarantine, cleanup_retry, events, drift_scan, fan_out, work_item, completion, invoke,
  invoke_all,
}

module _ {R : View → View → Type 0} (allows : Allows R) where
  open allows use {order}

  discover-Within : (ous : List Ou) (m : OuMap) → Within R (discover_in ous m)
  unfolding discover_in
  discover-Within [] m = Within-pure order m
  discover-Within (ou ∷ ous) m =
      Within-bind order (remote-Within allows)
        (λ _. Within-bind order (Within-gets order _) (λ ids. discover-Within ous _))

  perform-Within : (t : Task) → Within R (perform t)
  unfolding perform
  perform-Within (alert id expected actual) = send-Within allows _
  perform-Within (mark a b) =
      Within-bind order (put_account-Within allows _) (λ _. Within-pure order tt)

  perform_all-Within : (ts : List Task) → Within R (perform_all ts)
  unfolding perform_all
  perform_all-Within [] = record { at = λ w. order.same (view w) }
  perform_all-Within (t ∷ ts) = record {
    at = λ w.
        order.next _ _ _ ((perform-Within t).at w) ((perform_all-Within ts).at (perform t w).1);
  }

  scan-Within : Within R do_account_drift_monitoring
  unfolding do_account_drift_monitoring detect_drift_status
  scan-Within =
      Within-bind order
        (Within-bind order (discover-Within isb_ous []) (λ m.
          Within-bind order (remote-Within allows)
            (λ _. Within-bind order (Within-gets order _) (λ accounts. Within-pure order _))))
        (λ status. perform_all-Within _)

  invoke-Allows : (i : Invocation) (w : World) → R (view w) (view (invoke i w))
  unfolding invoke
  invoke-Allows (lease_operation op) w = (run-Within allows op).at w
  invoke-Allows (lease_request u body) w = (request_operation-Within allows u body).at w
  invoke-Allows (account_registration_request id) w = (register_operation-Within allows id).at w
  invoke-Allows (account_ejection id) w = (eject_operation-Within allows id).at w
  invoke-Allows (account_quarantine id) w = (quarantine_operation-Within allows id).at w
  invoke-Allows (cleanup_retry u id) w = (retry_operation-Within allows u id).at w
  invoke-Allows (events es) w = (handle-Within allows es).at w
  invoke-Allows drift_scan w = scan-Within.at w
  invoke-Allows (fan_out input) w = (fan_out-Within allows input).at w
  invoke-Allows (work_item m) w = (settle-Within allows m).at w
  invoke-Allows (completion input) w = (completion-Within allows input).at w

  pub invoke_all-Allows : (is : List Invocation) (w : World) → R (view w) (view (invoke_all is w))
  unfolding invoke_all
  invoke_all-Allows [] w = order.same (view w)
  invoke_all-Allows (i ∷ is) w =
      order.next _ _ _ (invoke-Allows i w) (invoke_all-Allows is (invoke i w))

-- If no lease has two records, no account has two records, every account has a status that its
-- schema allows, no principal has two records for a lease, and the schema of the principal table
-- accepts each of its records, then this is so after any sequence of invocations: of the operations
-- of the leases API and of the accounts API that are modelled, of the lifecycle handler, the drift
-- monitoring, the assignment processor and the assignment worker, one after the other and whether
-- they return or throw.
pub invoke_all-IsConsistent :
    (is : List Invocation) (w : World)
    → IsConsistent (view w)
    → IsConsistent (view (invoke_all is w))
invoke_all-IsConsistent is w = invoke_all-Allows consistent-Allows is w
