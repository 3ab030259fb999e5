-- ===== src/Lifecycle/Effects.antt =====
-- Whatever events are delivered, the handler keeps within what its stores and services keep within.
use innovation_sandbox_on_aw.Common.{String, Bool, true, Option, none, some, List, [], ◌∷◌}
use innovation_sandbox_on_aw.Types.{Lease, ExpiredStatus, Ou, is_active_lease}
use innovation_sandbox_on_aw.Outcome.{Error, throw}
use innovation_sandbox_on_aw.Events.{
  Event, lease_budget_exceeded_alert, lease_expired_alert, account_cleanup_successful,
  account_cleanup_failure, account_drift_detected_alert, lease_freezing_threshold_breached_alert,
  blueprint_deployment_succeeded, blueprint_deployment_failed,
}
use innovation_sandbox_on_aw.Transaction.Within.{Within-complete}
use innovation_sandbox_on_aw.LeaseStore.{get_lease}
use innovation_sandbox_on_aw.World.{World}
use innovation_sandbox_on_aw.World.Triple.{View, view}
use innovation_sandbox_on_aw.World.Within.{
  Within, Within-pure, Within-gets, Within-or_throw, Within-guard, Within-if, Within-bind,
}
use innovation_sandbox_on_aw.Sandbox.Effects.{
  Allows, remote-Within, get_account-Within, delete_account-Within, move-WithinStep,
}
use innovation_sandbox_on_aw.Sandbox.Effects.Shared.{tag-Within}
use innovation_sandbox_on_aw.Sandbox.Effects.Leases.{freeze_lease-Within, publish_lease-Within}
use innovation_sandbox_on_aw.Sandbox.Effects.Accounts.{
  terminate_lease-Within, reset_lease-Within, quarantine_account-Within,
}
use innovation_sandbox_on_aw.Sandbox.Effects.Invariants.{IsWellFormed, well_formed-Allows}
use innovation_sandbox_on_aw.Lifecycle.{
  lease_for, end_lease, is_monitored_lease, is_auto_approval, give_up_provisioning,
  handle_account_cleanup_successful, handle_account_drift, handle_lease_freezing_alert,
  handle_blueprint_deployment_succeeded, handle_blueprint_deployment_failed, dispatch,
  handle_account_life_cycle_event,
}

-- The worlds after the invocations of the handler, one after the other.
unfoldable deliver : List (List Event) → World → World
deliver [] w = w
deliver (events ∷ invocations) w = deliver invocations (handle_account_life_cycle_event events w).1

module _ {R : View → View → Type 0} (allows : Allows R) where
  open allows use {order}

  pub get_lease-Within : (email uuid : String) → Within R (get_lease email uuid)
  unfolding get_lease
  get_lease-Within email uuid = Within-bind order (remote-Within allows) (λ _. Within-gets order _)

  lease_for-Within :
      (test : Lease → Bool) (email uuid : String) → Within R (lease_for test email uuid)
  unfolding lease_for
  lease_for-Within test email uuid = Within-bind order (get_lease-Within email uuid) (λ found.
      Within-bind order (Within-or_throw order found _)
        (λ l. Within-bind order (Within-guard order (test l) _) (λ _. Within-pure order l)))

  end_lease-Within :
      (email uuid : String) (status : ExpiredStatus) → Within R (end_lease email uuid status)
  unfolding end_lease
  end_lease-Within email uuid status =
      Within-bind order (lease_for-Within is_monitored_lease email uuid)
        (λ l. terminate_lease-Within allows l status true)

  cleaned-Within : (id : String) → Within R (handle_account_cleanup_successful id)
  unfolding handle_account_cleanup_successful
  cleaned-Within id = Within-bind order (get_account-Within allows id) (λ found.
      Within-bind order (Within-or_throw order found _) (λ a.
        Within-bind order (Within-guard order _ _) (λ _.
          Within-bind order (Within-complete order _ [] (move-WithinStep allows a _ _) tt)
            (λ _. tag-Within allows _ _))))

  drift-Within :
      (id : String) (expected actual : Option Ou)
      → Within R (handle_account_drift id expected actual)
  unfolding handle_account_drift
  drift-Within id expected none = delete_account-Within allows id
  drift-Within id expected (some actual) = quarantine_account-Within allows id actual _

  give_up-Within : (l : Lease) → Within R (give_up_provisioning l)
  give_up-Within l =
      Within-if order (is_auto_approval l.approved_by) (terminate_lease-Within allows l _ true)
        (reset_lease-Within allows l _)

  throw-Within : (e : Error) → Within R (throw {A = Unit {0}} e)
  throw-Within e = record { at = λ w. order.same (view w) }

  dispatch-Within : (e : Event) → Within R (dispatch e)
  unfolding dispatch handle_lease_freezing_alert handle_blueprint_deployment_succeeded
      handle_blueprint_deployment_failed
  dispatch-Within (lease_budget_exceeded_alert email uuid _ _ _) = end_lease-Within email uuid _
  dispatch-Within (lease_expired_alert email uuid _ _) = end_lease-Within email uuid _
  dispatch-Within (account_cleanup_successful id) = cleaned-Within id
  dispatch-Within (account_cleanup_failure id) = quarantine_account-Within allows id _ _
  dispatch-Within (account_drift_detected_alert id expected actual) =
      drift-Within id expected actual
  dispatch-Within (lease_freezing_threshold_breached_alert email uuid _ reason) =
      Within-bind order (lease_for-Within is_active_lease email uuid)
        (λ l. freeze_lease-Within allows l reason)
  dispatch-Within (blueprint_deployment_succeeded email uuid _) =
      Within-bind order (lease_for-Within is_monitored_lease email uuid)
        (λ l. publish_lease-Within allows l)
  dispatch-Within (blueprint_deployment_failed email uuid _) =
      Within-bind order (lease_for-Within is_monitored_lease email uuid) (λ l. give_up-Within l)
  dispatch-Within _ = throw-Within _

  pub handle-Within : (es : List Event) → Within R (handle_account_life_cycle_event es)
  unfolding handle_account_life_cycle_event
  handle-Within (e ∷ []) = dispatch-Within e
  handle-Within [] = throw-Within _
  handle-Within (_ ∷ _ ∷ _) = throw-Within _

  deliver-Allows :
      (invocations : List (List Event)) (w : World) → R (view w) (view (deliver invocations w))
  unfolding deliver
  deliver-Allows [] w = order.same (view w)
  deliver-Allows (es ∷ invocations) w =
      order.next _ _ _ ((handle-Within es).at w) (deliver-Allows invocations _)

-- If no lease has two records, no account has two records, and every account has a status that its
-- schema allows, then this is so after any sequence of invocations of the handler, whatever events
-- they bring and whether they return or throw.
deliver-IsWellFormed :
    (invocations : List (List Event)) (w : World)
    → IsWellFormed (view w)
    → IsWellFormed (view (deliver invocations w))
deliver-IsWellFormed invocations w = deliver-Allows well_formed-Allows invocations w
