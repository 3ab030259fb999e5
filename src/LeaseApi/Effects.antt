-- ===== src/LeaseApi/Effects.antt =====
-- The operations on leases keep within what the facade keeps within.
use innovation_sandbox_on_aw.Common.{String, Option, List, [], Bool, true}
use innovation_sandbox_on_aw.Types.{Lease, DesiredAssignment}
use innovation_sandbox_on_aw.Outcome.{◌>>◌, pure, Action}
use innovation_sandbox_on_aw.Auth.{IsbUser}
use innovation_sandbox_on_aw.World.{World}
use innovation_sandbox_on_aw.World.Triple.{View}
use innovation_sandbox_on_aw.World.Within.{
  Within, Within-pure, Within-gets, Within-or_throw, Within-guard, Within-if, Within-bind,
  Within-swallow, Within-map_error,
}
use innovation_sandbox_on_aw.Sandbox.Effects.{
  Allows, remote-Within, send-Within, update_lease-Within, find_by_user_email-Within,
}
use innovation_sandbox_on_aw.Sandbox.Effects.Shared.{acquire-Within, publish-Within}
use innovation_sandbox_on_aw.Sandbox.Effects.Leases.{
  freeze_lease-Within, unfreeze_lease-Within, approve_lease-Within, request_lease-Within,
  deny_lease-Within,
}
use innovation_sandbox_on_aw.Sandbox.Effects.Accounts.{terminate_lease-Within}
use innovation_sandbox_on_aw.LeaseApi.{fetch_lease_or_throw404, is_admin_or_manager}
use innovation_sandbox_on_aw.LeaseApi.Reads.{
  fetch_lease-Within, get-Within, managed-Within, assignments-Within, authorize-Within,
  manage-Within, groups-Within,
}
use innovation_sandbox_on_aw.LeaseApi.RateLimit.{check_window, enforce_lease_request_rate_limit}
use innovation_sandbox_on_aw.LeaseApi.Validation.{same_text}
use innovation_sandbox_on_aw.LeaseApi.Operations.{
  LeasePatch, LeaseRequestBody, retag, patched, update_lease_operation, review_lease_operation,
  freeze_lease_operation, terminate_lease_operation, unfreeze_lease_operation,
  update_lease_assignments_operation, is_for_self, validate_and_get_lease_template,
  resolve_target_user, request_lease_operation,
}
use innovation_sandbox_on_aw.LeaseApi.Ended.{
  Operation, get, get_assignments, update, review, freeze, terminate, unfreeze, update_assignments,
  run,
}

module _ {R : View → View → Type 0} (allows : Allows R) where
  open allows use {order}

  found-Within : (id : String) → Within R (fetch_lease_or_throw404 id)
  unfolding fetch_lease_or_throw404
  found-Within id =
      Within-bind order (fetch_lease-Within order (remote-Within allows) id)
        (λ found. Within-or_throw order found _)

  end-Within : {A : Type 0} (m : Action World A) → Within R m → Within R (m >> pure tt)
  end-Within m h = Within-bind order h (λ _. Within-pure order tt)

  retag-Within : (l new : Lease) → Within R (retag l new)
  retag-Within l new =
      Within-if order (same_text l.cost_report_group new.cost_report_group) (Within-pure order tt)
        (Within-swallow order _ (send-Within allows _))

  update-Within : (id : String) (p : LeasePatch) → Within R (update_lease_operation id p)
  unfolding update_lease_operation
  update-Within id p = Within-bind order (found-Within id) (λ l.
      Within-bind order (Within-guard order _ _) (λ _.
        Within-bind order (Within-gets order _) (λ rules.
          Within-bind order (Within-guard order _ _) (λ _.
            Within-bind order (Within-guard order _ _) (λ _. Within-map_error order _ _ (
              Within-bind order (update_lease-Within allows _) (λ result.
                Within-bind order (retag-Within l (patched l p)) (λ _. Within-pure order _))))))))

  review-Within :
      (u : IsbUser) (id : String) (approve : Bool) → Within R (review_lease_operation u id approve)
  unfolding review_lease_operation
  review-Within u id approve = Within-bind order (found-Within id) (λ l.
      Within-bind order (Within-guard order _ _) (λ _.
        Within-if order approve
          (Within-map_error order _ _ (end-Within _ (approve_lease-Within allows l _)))
          (deny_lease-Within allows l u)))

  freeze-Within : (u : IsbUser) (id : String) → Within R (freeze_lease_operation u id)
  unfolding freeze_lease_operation
  freeze-Within u id = Within-bind order (found-Within id) (λ l.
      Within-bind order (Within-guard order _ _)
        (λ _. Within-map_error order _ _ (freeze_lease-Within allows l _)))

  terminate-Within : (u : IsbUser) (id : String) → Within R (terminate_lease_operation u id)
  unfolding terminate_lease_operation
  terminate-Within u id =
      Within-bind order (fetch_lease-Within order (remote-Within allows) id) (λ found.
        Within-bind order (authorize-Within order (remote-Within allows) u found) (λ only.
          Within-bind order (Within-or_throw order found _) (λ l.
            Within-bind order (Within-guard order _ _)
              (λ _. Within-map_error order _ _ (terminate_lease-Within allows l _ true)))))

  unfreeze-Within : (id : String) → Within R (unfreeze_lease_operation id)
  unfolding unfreeze_lease_operation
  unfreeze-Within id = Within-bind order (found-Within id) (λ l.
      Within-bind order (Within-guard order _ _) (λ _.
        Within-bind order (Within-map_error order _ _ (unfreeze_lease-Within allows l))
          (λ result. Within-pure order _)))

  update_assignments-Within :
      (u : IsbUser) (id : String) (ds : List DesiredAssignment)
      → Within R (update_lease_assignments_operation u id ds)
  unfolding update_lease_assignments_operation
  update_assignments-Within u id ds =
      Within-bind order (managed-Within order (remote-Within allows) u id) (λ l.
        Within-bind order (manage-Within order (remote-Within allows) u l) (λ _.
          Within-bind order (groups-Within order (remote-Within allows) ds _) (λ _.
            Within-bind order (Within-guard order _ _) (λ _. Within-map_error order _ _ (
              Within-bind order (acquire-Within allows _ _ _ _) (λ lock.
                Within-bind order (publish-Within allows _) (λ _. Within-pure order _)))))))

  pub run-Within : (op : Operation) → Within R (run op)
  run-Within (get u id) = end-Within _ (get-Within order (remote-Within allows) u id)
  run-Within (get_assignments u id) =
      end-Within _ (assignments-Within order (remote-Within allows) u id)
  run-Within (update id p) = end-Within _ (update-Within id p)
  run-Within (review u id approve) = review-Within u id approve
  run-Within (freeze u id) = freeze-Within u id
  run-Within (terminate u id) = terminate-Within u id
  run-Within (unfreeze id) = end-Within _ (unfreeze-Within id)
  run-Within (update_assignments u id ds) = end-Within _ (update_assignments-Within u id ds)

  check_window-Within :
      (limit window now : _) (email : String) (created : _)
      → Within R (check_window limit window now email created)
  unfolding check_window
  check_window-Within limit window now email created =
      Within-bind order (find_by_user_email-Within allows email) (λ leases.
        Within-if order _ (Within-pure order tt) (
          Within-bind order (Within-or_throw order _ _)
            (λ pivot. record { at = λ w. order.same _ })))

  enforce-Within :
      (u : IsbUser) (email : String) → Within R (enforce_lease_request_rate_limit u email)
  unfolding enforce_lease_request_rate_limit
  enforce-Within u email = Within-if order (is_admin_or_manager u) (Within-pure order tt) (
      Within-bind order (Within-gets order _) (λ rules.
        Within-bind order (Within-gets order _) (λ days.
          Within-bind order (Within-gets order _) (λ now.
            Within-bind order (Within-gets order _)
              (λ created. check_window-Within _ _ now email created)))))

  template-Within :
      (uuid : String) (u : IsbUser) → Within R (validate_and_get_lease_template uuid u)
  unfolding validate_and_get_lease_template
  template-Within uuid u = Within-bind order (remote-Within allows) (λ _.
      Within-bind order (Within-gets order _) (λ private.
        Within-bind order (Within-gets order _) (λ found.
          Within-bind order (Within-guard order _ _) (λ _. Within-or_throw order found _))))

  target-Within : (email : Option String) (u : IsbUser) → Within R (resolve_target_user email u)
  unfolding resolve_target_user
  target-Within email u = Within-if order (is_for_self email u) (Within-pure order u) (
      Within-bind order (Within-guard order _ _) (λ _.
        Within-bind order (remote-Within allows)
          (λ _. Within-bind order (Within-gets order _) (λ found. Within-or_throw order found _))))

  pub request_operation-Within :
      (u : IsbUser) (body : LeaseRequestBody) → Within R (request_lease_operation u body)
  unfolding request_lease_operation
  request_operation-Within u body =
      Within-bind order (groups-Within order (remote-Within allows) body.assignments []) (λ _.
        Within-bind order (Within-gets order _) (λ m2m.
          Within-bind order (Within-guard order _ _) (λ _.
            Within-bind order (template-Within _ u) (λ template.
              Within-bind order (target-Within body.user_email u) (λ target.
                Within-bind order (Within-gets order _) (λ shared.
                  Within-bind order (Within-guard order _ _) (λ _.
                    Within-bind order (Within-guard order _ _) (λ _. Within-map_error order _ _ (
                      Within-bind order (enforce-Within u _)
                        (λ _. request_lease-Within allows _ _ _ _ _))))))))))
