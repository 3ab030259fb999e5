-- ===== src/AccountApi.antt =====
-- source/lambdas/api/accounts/src/smithy/account-operations.ts: the operations that read one account
-- or change one. The listings and `skipCooldown`, which reads the cleanup reports, are left out.
pub mod Effects
use innovation_sandbox_on_aw.Common.{String, not, some, any, str_eq}
use innovation_sandbox_on_aw.Types.{Account, Ou}
use innovation_sandbox_on_aw.Outcome.{
  Error, Action, or_throw, gets, guard, map_error, ◌>>=◌, ◌>>◌, http_error, account_in_clean_up,
  account_not_in_quarantine,
}
use innovation_sandbox_on_aw.Auth.{IsbUser, get_user_email}
use innovation_sandbox_on_aw.AccountStore.{get_account, same_ou}
use innovation_sandbox_on_aw.Sandbox.Pool.{
  register_account, retry_cleanup, eject_account, quarantine_account,
}
use innovation_sandbox_on_aw.World.{World}

-- `requireAccount`; also `getAccount`, whose answer is the account.
unfoldable pub require_account : String → Action World Account
require_account id = do found ← get_account id; or_throw found (http_error 404)

-- `registerAccount`, on a body that its schema has accepted.
unfoldable pub register_account_operation : String → Action World Account
register_account_operation id = do
  administration ← gets (λ w. w.administration_accounts)
  guard (not (any (λ a. str_eq a id) administration)) (http_error 400)
  register_account id

abbrev pub eject_status : Error → Error
eject_status account_in_clean_up = http_error 409
eject_status e = e

-- `ejectAccount`
unfoldable pub eject_account_operation : String → Action World (Unit {0})
eject_account_operation id = do a ← require_account id; map_error eject_status (eject_account a)

-- `quarantineAccount`
unfoldable pub quarantine_account_operation : String → Action World (Unit {0})
quarantine_account_operation id = do
  a ← require_account id
  guard (not (same_ou a.status Ou.quarantine)) (http_error 409)
  guard (not (same_ou a.status Ou.clean_up)) (http_error 409)
  quarantine_account id a.status "Manually quarantined by administrator"

abbrev pub retry_status : Error → Error
retry_status account_not_in_quarantine = http_error 409
retry_status account_in_clean_up = http_error 409
retry_status e = e

-- `retryCleanup`
unfoldable pub retry_cleanup_operation : IsbUser → String → Action World (Unit {0})
retry_cleanup_operation u id = do
  a ← require_account id
  map_error retry_status (retry_cleanup a (some (get_user_email u)))
