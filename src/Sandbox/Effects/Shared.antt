-- ===== src/Sandbox/Effects/Shared.antt =====
-- What the operations of the facade share keeps within whatever the stores and services keep within.
use innovation_sandbox_on_aw.Common.{String, Option, none, some, List, [], ◌∷◌}
use innovation_sandbox_on_aw.Types.{Lease, Account, Intent, DesiredAssignment, Ou}
use innovation_sandbox_on_aw.Events.{Event}
use innovation_sandbox_on_aw.Transaction.Within.{Within-complete}
use innovation_sandbox_on_aw.World.Triple.{View}
use innovation_sandbox_on_aw.World.Within.{
  Within, Within-pure, Within-gets, Within-or_throw, Within-guard, Within-if, Within-option,
  Within-bind, Within-swallow, Within-on_error,
}
use innovation_sandbox_on_aw.AssignmentLock.{
  ProcessingLock, truthy, enrich_desired_assignments, enrich_with_owner, validate_assignment_count,
  acquire_assignment_lock, acquire_assignment_processing_lock, release_assignment_processing_lock,
  publish_assignment_processing_request, trigger_assignment_processing,
}
use innovation_sandbox_on_aw.Sandbox.{
  account_of, update_status_tag, send_events, assert_assignee_not_m2m, move_to_clean_up,
  delete_stack_instances_metadata,
}
use innovation_sandbox_on_aw.Sandbox.Effects.{
  Allows, remote-Within, send-Within, acquire_lock-Within, release_lock-Within, get_account-Within,
  move-WithinStep,
}

module _ {R : View → View → Type 0} (allows : Allows R) where
  open allows use {order}

  -- The lock and the request of the processing.
  pub enrich-Within : (ds : List DesiredAssignment) → Within R (enrich_desired_assignments ds)
  unfolding enrich_desired_assignments
  enrich-Within [] = Within-pure order _
  enrich-Within (d ∷ ds) =
      Within-bind order (remote-Within allows)
        (λ _. Within-bind order (Within-gets order _) (λ _. Within-or_throw order _ _))

  pub enrich_with_owner-Within :
      (ds : List DesiredAssignment) (email : String) → Within R (enrich_with_owner ds email)
  unfolding enrich_with_owner
  enrich_with_owner-Within ds email = Within-bind order (remote-Within allows) (λ _.
      Within-bind order (Within-gets order _)
        (λ _. Within-bind order (Within-or_throw order _ _) (λ _. enrich-Within _)))

  pub acquire_assignment_lock-Within :
      (lease_id email : String) (intent : Intent) (ds : Option (List DesiredAssignment))
      (owner : String) (timeout : _)
      → Within R (acquire_assignment_lock lease_id email intent ds owner timeout)
  unfolding acquire_assignment_lock validate_assignment_count
  acquire_assignment_lock-Within lease_id email intent none owner timeout =
      Within-bind order (acquire_lock-Within allows _ _ _ _ _ _) (λ _. Within-pure order _)
  acquire_assignment_lock-Within lease_id email intent (some ds) owner timeout =
      Within-bind order (enrich_with_owner-Within _ _) (λ _.
        Within-bind order (Within-guard order _ _) (λ _.
          Within-bind order (acquire_lock-Within allows _ _ _ _ _ _) (λ _. Within-pure order _)))

  pub acquire-Within :
      (lease_id email : String) (intent : Intent) (ds : Option (List DesiredAssignment))
      → Within R (acquire_assignment_processing_lock lease_id email intent ds)
  unfolding acquire_assignment_processing_lock
  acquire-Within lease_id email intent ds = Within-bind order (Within-gets order _) (λ _.
      Within-bind order (acquire_assignment_lock-Within _ _ _ _ _ _) (λ _. Within-pure order _))

  pub release-Within : (l : ProcessingLock) → Within R (release_assignment_processing_lock l)
  unfolding release_assignment_processing_lock
  release-Within l = Within-swallow order _ (release_lock-Within allows _ _ _)

  pub publish-Within : (l : ProcessingLock) → Within R (publish_assignment_processing_request l)
  unfolding publish_assignment_processing_request
  publish-Within l =
      Within-on_error order _ _ (send-Within allows _)
        (Within-if order _ (release-Within l) (Within-pure order _))

  pub trigger-Within :
      (lease_id email : String) (intent : Intent) (ds : Option (List DesiredAssignment))
      → Within R (trigger_assignment_processing lease_id email intent ds)
  unfolding trigger_assignment_processing
  trigger-Within lease_id email intent ds =
      Within-bind order (acquire-Within _ _ _ _)
        (λ l. Within-bind order (publish-Within l) (λ _. Within-pure order _))

  -- The parts that the operations share.
  pub account_of-Within : (l : Lease) → Within R (account_of l)
  unfolding account_of
  account_of-Within l =
      Within-bind order (get_account-Within allows _) (λ _. Within-or_throw order _ _)

  pub tag-Within : (id : String) (status : Ou) → Within R (update_status_tag id status)
  unfolding update_status_tag
  tag-Within id status = Within-swallow order _ (send-Within allows _)

  pub events-Within : (es : List Event) → Within R (send_events es)
  unfolding send_events
  events-Within [] = Within-pure order _
  events-Within (e ∷ es) = Within-bind order (send-Within allows _) (λ _. events-Within es)

  pub assert-Within : (l : Lease) → Within R (assert_assignee_not_m2m l)
  unfolding assert_assignee_not_m2m
  assert-Within l = Within-bind order (Within-gets order _) (λ _. Within-guard order _ _)

  pub clean_up-Within : (a : Account) (s : Ou) → Within R (move_to_clean_up a s)
  unfolding move_to_clean_up
  clean_up-Within a s = Within-complete order _ [] (move-WithinStep allows a s _) tt

  pub stack_instances-Within : (l : Lease) → Within R (delete_stack_instances_metadata l)
  unfolding delete_stack_instances_metadata
  stack_instances-Within l = Within-option order (truthy l.blueprint_id) (Within-pure order _) (λ b.
      Within-swallow order _ (
        Within-bind order (remote-Within allows) (λ _.
          Within-bind order (Within-gets order _)
            (λ known. Within-if order known (send-Within allows _) (Within-pure order _)))))
