-- ===== src/Sandbox/Effects/Accounts.antt =====
-- The operations that end leases, and those on accounts, keep within whatever its stores and
-- services keep within.
use innovation_sandbox_on_aw.Common.{String, Bool, false, Option, List, [], ◌∷◌}
use innovation_sandbox_on_aw.Types.{
  Lease, LeaseStatus, ExpiredStatus, Account, Ou, is_monitored_status,
}
use innovation_sandbox_on_aw.Transaction.Within.{Within-complete}
use innovation_sandbox_on_aw.World.{manager, admin}
use innovation_sandbox_on_aw.World.Triple.{View}
use innovation_sandbox_on_aw.World.Within.{
  Within, Within-pure, Within-gets, Within-or_throw, Within-lift, Within-guard, Within-if,
  Within-bind, Within-swallow,
}
use innovation_sandbox_on_aw.Sandbox.Terminate.{
  clean_up_account, terminate_lease, terminate_all, terminate_in_statuses,
  terminate_leases_of_account, monitored_statuses, reset_lease,
}
use innovation_sandbox_on_aw.Sandbox.Pool.{
  register_account, retry_cleanup, leave_quarantine, eject_account, quarantine_account,
}
use innovation_sandbox_on_aw.Sandbox.Effects.{
  Allows, remote-Within, send-Within, update_lease-Within, find_by_status_and_account_id-Within,
  get_account-Within, delete_account-Within, move-WithinStep, access-WithinStep,
}
use innovation_sandbox_on_aw.Sandbox.Effects.Shared.{
  trigger-Within, account_of-Within, tag-Within, events-Within, clean_up-Within,
  stack_instances-Within,
}

module _ {R : View → View → Type 0} (allows : Allows R) where
  open allows use {order}

  clean_up_account-Within : (a : Account) → Within R (clean_up_account a)
  unfolding clean_up_account
  clean_up_account-Within a =
      Within-bind order (clean_up-Within allows a _)
        (λ _. Within-bind order (tag-Within allows _ _) (λ _. Within-pure order _))

  pub terminate_lease-Within :
      (l : Lease) (s : ExpiredStatus) (auto_cleanup : Bool)
      → Within R (terminate_lease l s auto_cleanup)
  unfolding terminate_lease
  terminate_lease-Within l s auto_cleanup = Within-bind order (account_of-Within allows l) (λ a.
      Within-bind order (stack_instances-Within allows l) (λ _.
        Within-bind order
          (Within-if order auto_cleanup (clean_up_account-Within a) (Within-pure order _))
          (λ es. Within-bind order (Within-gets order _) (λ _.
            Within-bind order (Within-gets order _) (λ _.
              Within-bind order (update_lease-Within allows _) (λ _.
                Within-bind order (trigger-Within allows _ _ _ _)
                  (λ _. Within-bind order (Within-lift order _) (λ _. events-Within allows _))))))))

  terminate_all-Within : (s : ExpiredStatus) (ls : List Lease) → Within R (terminate_all s ls)
  unfolding terminate_all
  terminate_all-Within s [] = Within-pure order _
  terminate_all-Within s (l ∷ ls) =
      Within-bind order
        (Within-if order (is_monitored_status l.status) (terminate_lease-Within l s false)
          (Within-pure order _))
        (λ _. terminate_all-Within s ls)

  terminate_in-Within :
      (id : String) (s : ExpiredStatus) (ss : List LeaseStatus)
      → Within R (terminate_in_statuses id s ss)
  unfolding terminate_in_statuses
  terminate_in-Within id s [] = Within-pure order _
  terminate_in-Within id s (x ∷ ss) =
      Within-bind order (find_by_status_and_account_id-Within allows _ _)
        (λ ls. Within-bind order (terminate_all-Within s ls) (λ _. terminate_in-Within id s ss))

  pub terminate_leases-Within :
      (id : String) (s : ExpiredStatus) → Within R (terminate_leases_of_account id s)
  unfolding terminate_leases_of_account
  terminate_leases-Within id s = terminate_in-Within id s monitored_statuses

  pub reset_lease-Within : (l : Lease) (name : String) → Within R (reset_lease l name)
  unfolding reset_lease
  reset_lease-Within l name = Within-bind order (account_of-Within allows l) (λ a.
      Within-bind order (stack_instances-Within allows l) (λ _.
        Within-bind order (clean_up-Within allows a _)
          (λ _. Within-bind order (update_lease-Within allows _) (λ _. events-Within allows _))))

  pub register_account-Within : (id : String) → Within R (register_account id)
  unfolding register_account
  register_account-Within id = Within-bind order (remote-Within allows) (λ _.
      Within-bind order (Within-gets order _) (λ _.
        Within-bind order (Within-or_throw order _ _) (λ _.
          Within-bind order
            (Within-complete order _ _ (move-WithinStep allows _ _ _)
              (access-WithinStep allows id manager, (access-WithinStep allows id admin, tt)))
            (λ _.
              Within-bind order (tag-Within allows _ _)
                (λ _. Within-bind order (events-Within allows _) (λ _. Within-pure order _))))))

  leave-Within : (a : Account) → Within R (leave_quarantine a)
  leave-Within a = Within-bind order (clean_up-Within allows a _) (λ _. tag-Within allows _ _)

  pub retry_cleanup-Within : (a : Account) (by : Option String) → Within R (retry_cleanup a by)
  unfolding retry_cleanup
  retry_cleanup-Within a by = Within-bind order (Within-guard order _ _) (λ _.
      Within-bind order (Within-gets order _) (λ _. Within-bind order (Within-guard order _ _) (λ _.
        Within-bind order (Within-if order _ (leave-Within a) (Within-pure order _))
          (λ _. events-Within allows _))))

  pub eject_account-Within : (a : Account) → Within R (eject_account a)
  unfolding eject_account
  eject_account-Within a = Within-bind order (Within-guard order _ _) (λ _.
      Within-bind order (Within-swallow order _ (terminate_leases-Within _ _)) (λ _.
        Within-bind order (Within-swallow order _ (send-Within allows _)) (λ _.
          Within-bind order (send-Within allows _) (λ _.
            Within-bind order (send-Within allows _) (λ _.
              Within-bind order (send-Within allows _) (λ _. delete_account-Within allows _))))))

  pub quarantine_account-Within :
      (id : String) (ou : Ou) (reason : String) → Within R (quarantine_account id ou reason)
  unfolding quarantine_account
  quarantine_account-Within id ou reason = Within-bind order (get_account-Within allows _) (λ _.
      Within-bind order (terminate_leases-Within _ _) (λ _.
        Within-bind order (Within-complete order _ [] (move-WithinStep allows _ _ _) tt)
          (λ _. Within-bind order (tag-Within allows _ _) (λ _. send-Within allows _))))
