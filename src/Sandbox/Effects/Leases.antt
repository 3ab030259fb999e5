-- ===== src/Sandbox/Effects/Leases.antt =====
-- The operations on leases keep within whatever its stores and services keep within.
use innovation_sandbox_on_aw.Common.{String, Bool, true, false, Option, List}
use innovation_sandbox_on_aw.Types.{Lease, LeaseTemplate, LeaseStatus, Account, DesiredAssignment}
use innovation_sandbox_on_aw.Events.{FrozenReason}
use innovation_sandbox_on_aw.Auth.{IsbUser}
use innovation_sandbox_on_aw.Transaction.Within.{Within-complete}
use innovation_sandbox_on_aw.World.Triple.{View}
use innovation_sandbox_on_aw.World.Within.{
  Within, Within-pure, Within-gets, Within-or_throw, Within-guard, Within-option, Within-bind,
  Within-swallow, Within-on_error, Within-rethrow_after,
}
use innovation_sandbox_on_aw.LeaseStore.{StepResult, lease_put}
use innovation_sandbox_on_aw.AssignmentLock.{truthy}
use innovation_sandbox_on_aw.Sandbox.Freeze.{freeze_lease, unfreeze_lease}
use innovation_sandbox_on_aw.Sandbox.Publish.{user_id_from_email, publish_lease}
use innovation_sandbox_on_aw.Sandbox.Approve.{
  acquire_available_account, choose_account, validate_blueprint, grant_account, publish_granted,
  approve_lease,
}
use innovation_sandbox_on_aw.Sandbox.Request.{request_lease, deny_lease, settle_request}
use innovation_sandbox_on_aw.Sandbox.Effects.{
  Allows, remote-Within, send-Within, update_lease-Within, update_lease_from-Within,
  create_lease-Within, delete_lease-Within, find_by_user_email-Within, find_by_status-Within,
  update-WithinStep, move-WithinStep,
}
use innovation_sandbox_on_aw.Sandbox.Effects.Shared.{
  enrich-Within, acquire-Within, release-Within, publish-Within, trigger-Within, account_of-Within,
  tag-Within, assert-Within,
}

module _ {R : View → View → Type 0} (allows : Allows R) where
  open allows use {order}

  pub freeze_lease-Within : (l : Lease) (reason : FrozenReason) → Within R (freeze_lease l reason)
  unfolding freeze_lease
  freeze_lease-Within l reason = Within-bind order (Within-guard order _ _) (λ _.
      Within-bind order (account_of-Within allows l) (λ a.
        Within-bind order (acquire-Within allows _ _ _ _) (λ lock.
          Within-bind order
            (Within-on_error order _ _
              (Within-complete order _ _ (move-WithinStep allows _ _ _)
                (update-WithinStep allows _, tt))
              (release-Within allows lock))
            (λ _.
              Within-bind order (tag-Within allows _ _) (λ _.
                Within-bind order (publish-Within allows lock) (λ _. send-Within allows _))))))

  pub unfreeze_lease-Within : (l : Lease) → Within R (unfreeze_lease l)
  unfolding unfreeze_lease
  unfreeze_lease-Within l = Within-bind order (Within-guard order _ _) (λ _.
      Within-bind order (account_of-Within allows l) (λ a.
        Within-bind order (acquire-Within allows _ _ _ _) (λ lock.
          Within-bind order
            (Within-on_error order _ _
              (Within-complete order _ _ (update-WithinStep allows _)
                (move-WithinStep allows _ _ _, tt))
              (release-Within allows lock))
            (λ _. Within-bind order (tag-Within allows _ _) (λ _.
              Within-bind order (publish-Within allows lock)
                (λ _. Within-bind order (send-Within allows _) (λ _. Within-pure order _)))))))

  user_id-Within : (email : String) → Within R (user_id_from_email email)
  unfolding user_id_from_email
  user_id-Within email =
      Within-bind order (remote-Within allows)
        (λ _. Within-bind order (Within-gets order _) (λ _. Within-or_throw order _ _))

  pub publish_lease-Within : (l : Lease) → Within R (publish_lease l)
  unfolding publish_lease
  publish_lease-Within l = Within-bind order (assert-Within allows l) (λ _.
      Within-bind order (user_id-Within l.user_email) (λ _.
        Within-bind order (Within-gets order _) (λ _.
          Within-bind order (update_lease_from-Within allows _ _) (λ _.
            Within-bind order (trigger-Within allows _ _ _ _) (λ _.
              Within-bind order (Within-swallow order _ (send-Within allows _))
                (λ _. send-Within allows _))))))

  choose_account-Within : (accounts : List Account) → Within R (choose_account accounts)
  unfolding choose_account
  choose_account-Within accounts = Within-bind order (Within-guard order _ _) (λ _.
      Within-bind order (Within-gets order _)
        (λ _. Within-bind order (Within-gets order _) (λ _. Within-or_throw order _ _)))

  acquire_account-Within : Within R acquire_available_account
  unfolding acquire_available_account
  acquire_account-Within = Within-bind order (find_by_status-Within allows _) choose_account-Within

  validate-Within : (b : String) → Within R (validate_blueprint b)
  unfolding validate_blueprint
  validate-Within b = Within-bind order (remote-Within allows) (λ _.
      Within-bind order (Within-gets order _) (λ _. Within-bind order (Within-guard order _ _) (λ _.
        Within-bind order (remote-Within allows)
          (λ _. Within-bind order (Within-gets order _) (λ _. Within-guard order _ _)))))

  grant-Within :
      (l : Lease) (approver : String) (a : Account) (s : LeaseStatus)
      → Within R (grant_account l approver a s)
  unfolding grant_account
  grant-Within l approver a s = Within-bind order (Within-gets order _) (λ _.
      Within-complete order _ _ (update-WithinStep allows _) (move-WithinStep allows _ _ _, tt))

  granted-Within : (r : StepResult) → Within R (publish_granted r)
  granted-Within (lease_put _ l) = publish_lease-Within l
  granted-Within _ = Within-pure order _

  pub approve_lease-Within : (l : Lease) (approver : String) → Within R (approve_lease l approver)
  unfolding approve_lease
  approve_lease-Within l approver = Within-bind order (assert-Within allows l) (λ _.
      Within-bind order acquire_account-Within (λ a.
        Within-bind order (user_id-Within l.user_email) (λ _.
          Within-option order (truthy l.blueprint_id)
            (Within-bind order (grant-Within l approver a _)
              (λ r. Within-bind order (granted-Within r) (λ _. Within-pure order _)))
            (λ b. Within-bind order (validate-Within b) (λ _.
              Within-bind order (grant-Within l approver a _)
                (λ r. Within-bind order (send-Within allows _) (λ _. Within-pure order _)))))))

  settle-Within : (l : Lease) (b : Bool) → Within R (settle_request l b)
  unfolding settle_request
  settle-Within l true =
      Within-bind order
        (Within-rethrow_after order _ _ (approve_lease-Within l _) (delete_lease-Within allows _ _))
        (λ _. Within-pure order _)
  settle-Within l false = Within-bind order (send-Within allows _) (λ _. Within-pure order _)

  pub request_lease-Within :
      (t : LeaseTemplate) (comments : Option String) (target : IsbUser) (created_by : Option String)
      (ds : List DesiredAssignment)
      → Within R (request_lease t comments target created_by ds)
  unfolding request_lease
  request_lease-Within t comments target created_by ds =
      Within-bind order (find_by_user_email-Within allows _) (λ _.
        Within-bind order (Within-gets order _) (λ _.
          Within-bind order (Within-guard order _ _) (λ _.
            Within-bind order (Within-or_throw order _ _) (λ _.
              Within-bind order (enrich-Within allows _) (λ _.
                Within-bind order (Within-gets order _) (λ _.
                  Within-bind order (create_lease-Within allows _) (λ l. settle-Within l _)))))))

  pub deny_lease-Within : (l : Lease) (u : IsbUser) → Within R (deny_lease l u)
  unfolding deny_lease
  deny_lease-Within l u = Within-bind order (Within-gets order _) (λ _.
      Within-bind order (Within-gets order _)
        (λ _. Within-bind order (update_lease-Within allows _) (λ _. send-Within allows _)))
