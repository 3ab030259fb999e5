-- ===== src/AccountApi/Effects.antt =====
-- The operations on accounts keep within what the facade keeps within.
use innovation_sandbox_on_aw.Common.{String}
use innovation_sandbox_on_aw.Auth.{IsbUser}
use innovation_sandbox_on_aw.World.Triple.{View}
use innovation_sandbox_on_aw.World.Within.{
  Within, Within-gets, Within-or_throw, Within-guard, Within-bind, Within-map_error,
}
use innovation_sandbox_on_aw.Sandbox.Effects.{Allows, get_account-Within}
use innovation_sandbox_on_aw.Sandbox.Effects.Accounts.{
  register_account-Within, retry_cleanup-Within, eject_account-Within, quarantine_account-Within,
}
use innovation_sandbox_on_aw.AccountApi.{
  require_account, register_account_operation, eject_account_operation,
  quarantine_account_operation, retry_cleanup_operation,
}

module _ {R : View → View → Type 0} (allows : Allows R) where
  open allows use {order}

  pub require_account-Within : (id : String) → Within R (require_account id)
  unfolding require_account
  require_account-Within id =
      Within-bind order (get_account-Within allows id) (λ found. Within-or_throw order found _)

  pub register_operation-Within : (id : String) → Within R (register_account_operation id)
  unfolding register_account_operation
  register_operation-Within id = Within-bind order (Within-gets order _) (λ administration.
      Within-bind order (Within-guard order _ _) (λ _. register_account-Within allows id))

  pub eject_operation-Within : (id : String) → Within R (eject_account_operation id)
  unfolding eject_account_operation
  eject_operation-Within id =
      Within-bind order (require_account-Within id)
        (λ a. Within-map_error order _ _ (eject_account-Within allows a))

  pub quarantine_operation-Within : (id : String) → Within R (quarantine_account_operation id)
  unfolding quarantine_account_operation
  quarantine_operation-Within id = Within-bind order (require_account-Within id) (λ a.
      Within-bind order (Within-guard order _ _) (λ _.
        Within-bind order (Within-guard order _ _) (λ _. quarantine_account-Within allows id _ _)))

  pub retry_operation-Within : (u : IsbUser) (id : String) → Within R (retry_cleanup_operation u id)
  unfolding retry_cleanup_operation
  retry_operation-Within u id =
      Within-bind order (require_account-Within id)
        (λ a. Within-map_error order _ _ (retry_cleanup-Within allows a _))
