-- ===== src/Sandbox/Pool.antt =====
-- The operations on accounts of the pool: `registerAccount`, `retryCleanup`, `ejectAccount` and
-- `quarantineAccount`.
pub mod Laws
use innovation_sandbox_on_aw.Common.{
  ℕ, String, Bool, true, false, not, ◌&&◌, Option, none, some, List, [], ◌∷◌, ltb, or_default,
  if◌then◌else◌,
}
use innovation_sandbox_on_aw.Types.{Account, Lock, Ou, account_quarantined, ejected}
use innovation_sandbox_on_aw.Outcome.{
  ok, err, Action, pure, or_throw, gets, guard, swallow, ◌>>=◌, ◌>>◌, could_not_find_account,
  account_in_clean_up, account_not_in_quarantine,
}
use innovation_sandbox_on_aw.Events.{
  clean_account_request, account_registration, manually_initiated, account_quarantined_event,
}
use innovation_sandbox_on_aw.Transaction.{complete}
use innovation_sandbox_on_aw.World.{
  World, remote, send, time, put_event, manager, admin, move_account, untag_all,
  revoke_group_access,
}
use innovation_sandbox_on_aw.LeaseStore.{StepResult, account_put}
use innovation_sandbox_on_aw.AccountStore.{
  get_account, delete_account, same_ou, transactional_move_account,
  transactional_assign_group_access,
}
use innovation_sandbox_on_aw.Sandbox.{update_status_tag, send_events, move_to_clean_up}
use innovation_sandbox_on_aw.Sandbox.Terminate.{terminate_leases_of_account}

abbrev pub new_account : String → Option String → Option String → Account
new_account id email name = record {
  aws_account_id = id;
  email = email;
  name = name;
  last_cleanup_completed_at = none;
  current_lease = none;
  status = Ou.clean_up;
  drift_at_last_scan = false;
  resource_lock = none;
  last_edit_time = none;
}

abbrev pub new_account_item : Account → StepResult → Account
new_account_item a (account_put _ n) = n
new_account_item a _ = a

-- `registerAccount`
unfoldable pub register_account : String → Action World Account
register_account id = do
  remote
  found ← gets (λ w. w.organization_account id)
  described ← or_throw found could_not_find_account
  let a = new_account id described.0 described.1
  result ← complete (transactional_move_account a Ou.entry Ou.clean_up) (
      transactional_assign_group_access id manager
      ∷ transactional_assign_group_access id admin
      ∷ [])
  let a' = new_account_item a result
  update_status_tag a'.aws_account_id Ou.clean_up
  send_events (clean_account_request a'.aws_account_id account_registration none ∷ [])
  pure a'

-- The lock of a cleanup that is under way.
abbrev pub is_live : ℕ → Option Lock → Bool
is_live now none = false
is_live now (some l) = ltb now l.expires_at

-- The branch for an account that is not in CleanUp yet.
abbrev pub leave_quarantine : Account → Action World (Unit {0})
leave_quarantine a = do
  move_to_clean_up a Ou.quarantine
  update_status_tag a.aws_account_id Ou.clean_up

-- `retryCleanup`
unfoldable pub retry_cleanup : Account → (initiated_by : Option String) → Action World (Unit {0})
retry_cleanup a initiated_by = do
  guard (not (not (same_ou a.status Ou.quarantine) && not (same_ou a.status Ou.clean_up)))
      account_not_in_quarantine
  now ← gets time
  guard (not (is_live now a.resource_lock)) account_in_clean_up
  if not (same_ou a.status Ou.clean_up) then leave_quarantine a else pure tt
  send_events (clean_account_request a.aws_account_id manually_initiated initiated_by ∷ [])

-- `ejectAccount`
unfoldable pub eject_account : Account → Action World (Unit {0})
eject_account a = do
  guard (not (same_ou a.status Ou.clean_up)) account_in_clean_up
  swallow (terminate_leases_of_account a.aws_account_id ejected)
  swallow (send (untag_all a.aws_account_id))
  send (move_account a.aws_account_id a.status Ou.exit)
  send (revoke_group_access a.aws_account_id manager)
  send (revoke_group_access a.aws_account_id admin)
  delete_account a.aws_account_id

abbrev pub unknown_account : String → Account
unknown_account id = record (new_account id none none) {
  status = Ou.quarantine;
  drift_at_last_scan = true;
}

-- `quarantineAccount`
unfoldable pub quarantine_account : (id : String) → Ou → (reason : String) → Action World (Unit {0})
quarantine_account id current_ou reason = do
  found ← get_account id
  let a = or_default found (unknown_account id)
  terminate_leases_of_account id account_quarantined
  complete (transactional_move_account a current_ou Ou.quarantine) []
  update_status_tag id Ou.quarantine
  send (put_event (account_quarantined_event id reason))
