-- ===== src/AccountStore.antt =====
-- source/common/data/sandbox-account (the account table, keyed by account id), the account moves
-- of source/common/isb-services/sandbox-ou-service.ts, and the group access of
-- source/common/isb-services/idc-service.ts.
pub mod Laws
use innovation_sandbox_on_aw.Common.{
  ℕ, String, Bool, true, false, Option, none, some, List, find, keep, str_eq,
}
use innovation_sandbox_on_aw.Types.{
  Account, Ou, available, active, clean_up, quarantine, frozen, entry, exit,
}
use innovation_sandbox_on_aw.Outcome.{
  ok, err, Action, pure, or_throw, gets, modify, guard, ◌>>=◌, ◌>>◌, invalid_item,
}
use innovation_sandbox_on_aw.Transaction.{Step, nested}
use innovation_sandbox_on_aw.World.{
  World, remote, send, time, move_account, GroupRole, assign_group_access, revoke_group_access,
}
use innovation_sandbox_on_aw.LeaseStore.{StepResult, account_put, nothing}
use innovation_sandbox_on_aw.Table.{put, erase}

abbrev pub has_id : String → Account → Bool
has_id id a = str_eq a.aws_account_id id

-- SandboxAccountStatusSchema leaves out the organizational units Entry and Exit.
unfoldable pub is_account_status : Ou → Bool
is_account_status entry = false
is_account_status exit = false
is_account_status _ = true

-- `withMetadata`: every put stamps the record.
abbrev pub touched : Account → ℕ → Account
touched a now = record a { last_edit_time = some now }

-- `put`: `validateItem` throws before the call if the status is none that the schema allows, or if
-- the schema refuses the rest of the record.
unfoldable pub put_account : Account → Action World StepResult
put_account a = do
  guard (is_account_status a.status) invalid_item
  valid ← gets (λ w. w.account_is_valid a)
  guard valid invalid_item
  now ← gets time
  let a' = touched a now
  remote
  old ← gets (λ w. find (has_id a.aws_account_id) w.accounts)
  modify (λ w. record w { accounts = put (has_id a.aws_account_id) a' w.accounts })
  pure (account_put old a')

unfoldable pub get_account : String → Action World (Option Account)
get_account id = do remote; gets (λ w. find (has_id id) w.accounts)

unfoldable pub delete_account : String → Action World (Unit {0})
delete_account id = do remote; modify (λ w. record w { accounts = erase (has_id id) w.accounts })

abbrev pub same_ou : Ou → Ou → Bool
same_ou available available = true
same_ou active active = true
same_ou clean_up clean_up = true
same_ou quarantine quarantine = true
same_ou frozen frozen = true
same_ou entry entry = true
same_ou exit exit = true
same_ou _ _ = false

-- `findByStatus`, all pages.
unfoldable pub find_by_status : Ou → Action World (List Account)
find_by_status status = do remote; gets (λ w. keep (λ a. same_ou a.status status) w.accounts)

-- `moveAccount`: the account is moved, and then its record is written with the new status. One
-- call stands for the retries of `performAccountMoveAction`.
unfoldable pub move_account_to : Account → Ou → Ou → Action World StepResult
move_account_to a source destination = do
  send (move_account a.aws_account_id source destination)
  put_account (record a { status = destination })

-- `transactionalMoveAccount`: the rollback is the move back.
abbrev pub move_step : Account → Ou → Ou → Step World StepResult
move_step a source destination = record {
  begin = move_account_to a source destination;
  rollback = λ _. move_account_to a destination source >> pure tt;
}

unfoldable pub transactional_move_account : Account → Ou → Ou → Step World StepResult
transactional_move_account a source destination = nested (move_step a source destination)

-- `transactionalAssignGroupAccess`
abbrev pub access_step : String → GroupRole → Step World StepResult
access_step id role = record {
  begin = send (assign_group_access id role) >> pure nothing;
  rollback = λ _. send (revoke_group_access id role);
}

unfoldable pub transactional_assign_group_access : String → GroupRole → Step World StepResult
transactional_assign_group_access id role = nested (access_step id role)
