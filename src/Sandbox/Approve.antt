-- ===== src/Sandbox/Approve.antt =====
-- `acquireAvailableAccount` and `approveLease`.
pub mod Cooldown
use innovation_sandbox_on_aw.Common.{
  ℕ, ◌+◌, String, Bool, true, false, Option, none, some, List, [], ◌∷◌, keep, not, leb, length,
  get_elem?, or_default, is_some,
}
use innovation_sandbox_on_aw.Types.{Lease, LeaseStatus, Account, CurrentLease, Ou, provisioning}
use innovation_sandbox_on_aw.Outcome.{
  ok, err, Action, pure, or_throw, gets, guard, ◌>>=◌, ◌>>◌, no_accounts_available,
  blueprint_invalid,
}
use innovation_sandbox_on_aw.Events.{blueprint_deployment_request}
use innovation_sandbox_on_aw.Transaction.{complete}
use innovation_sandbox_on_aw.World.{World, remote, send, time, put_event}
use innovation_sandbox_on_aw.LeaseStore.{StepResult, lease_put, transactional_update}
use innovation_sandbox_on_aw.AccountStore.{find_by_status, transactional_move_account}
use innovation_sandbox_on_aw.AssignmentLock.{truthy}
use innovation_sandbox_on_aw.Sandbox.{assert_assignee_not_m2m, ms_per_day}
use innovation_sandbox_on_aw.Sandbox.Publish.{publish_lease, user_id_from_email}

-- An account whose last cleanup ended 24 hours ago or more, or that has none on record.
unfoldable pub is_cooled_down : ℕ → Account → Bool
is_cooled_down now a = elim a.last_cleanup_completed_at [
  | none ↦ true
  | some t ↦ leb (t + ms_per_day) now
]

-- The two lists of the loop, joined where one of them is chosen.
unfoldable pub candidates : ℕ → List Account → List Account
unfolding is_cooled_down
candidates now accounts = elim (keep (is_cooled_down now) accounts) [
  | [] ↦ keep (λ a. not (is_cooled_down now a)) accounts
  | a ∷ preferred ↦ a ∷ preferred
]

abbrev pub is_empty : List Account → Bool
is_empty [] = true
is_empty _ = false

-- The part of `acquireAvailableAccount` that follows the query.
unfoldable pub choose_account : List Account → Action World Account
choose_account accounts = do
  guard (not (is_empty accounts)) no_accounts_available
  now ← gets time
  let pool = candidates now accounts
  index ← gets (λ w. w.random_index w.ticks (length pool))
  or_throw (get_elem? pool index) no_accounts_available

-- `acquireAvailableAccount`
unfoldable pub acquire_available_account : Action World Account
unfolding choose_account
acquire_available_account = do accounts ← find_by_status Ou.available; choose_account accounts

-- `validateBlueprintForDeployment`
unfoldable pub validate_blueprint : String → Action World (Unit {0})
validate_blueprint blueprint = do
  remote
  known ← gets (λ w. w.blueprint_exists blueprint)
  guard known blueprint_invalid
  remote
  valid ← gets (λ w. w.blueprint_is_valid blueprint)
  guard valid blueprint_invalid

abbrev pub approved : Lease → String → Account → LeaseStatus → ℕ → Lease
approved l approver a status now = record l {
  approved_by = some approver;
  aws_account_id = some a.aws_account_id;
  status = status;
  start_date = some now;
  total_cost_accrued = 0;
  last_checked_date = some now;
}

abbrev pub occupied : Account → Lease → Account
occupied a l = record a {
  current_lease = some (record { lease_id = l.uuid; owner_email = l.user_email });
}

-- The transaction of `approveLease`, the same on its two branches.
unfoldable pub grant_account : Lease → String → Account → LeaseStatus → Action World StepResult
grant_account l approver a status = do
  now ← gets time
  complete (transactional_update (approved l approver a status now))
      (transactional_move_account (occupied a l) Ou.available Ou.active ∷ [])

abbrev pub publish_granted : StepResult → Action World (Unit {0})
publish_granted (lease_put _ l) = publish_lease l
publish_granted _ = pure tt

-- `approveLease`. The account and the user are asked for at the same time; here the account
-- comes first.
unfoldable pub approve_lease : Lease → String → Action World StepResult
approve_lease l approver = do
  assert_assignee_not_m2m l
  a ← acquire_available_account
  user_id_from_email l.user_email
  elim (truthy l.blueprint_id) [
    | none ↦ (do
      result ← grant_account l approver a LeaseStatus.active
      publish_granted result
      pure result)
    | some blueprint ↦ (do
      validate_blueprint blueprint
      result ← grant_account l approver a provisioning
      send (
          put_event
            (blueprint_deployment_request blueprint l.uuid l.user_email (some a.aws_account_id)))
      pure result)
  ]
