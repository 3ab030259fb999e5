-- ===== src/Sandbox.antt =====
-- The facade `InnovationSandbox` of source/common/innovation-sandbox.ts: the parts that its
-- operations share. Each operation acts on the `World`; logging and tracing are left out. The
-- clock is read between two calls of a service, and reads the same until the next call.
pub mod Parts
pub mod Steps
pub mod Freeze
pub mod Publish
pub mod Approve
pub mod Request
pub mod Terminate
pub mod Pool
pub mod Effects
pub mod Tests
use innovation_sandbox_on_aw.Common.{
  ℕ, ◌+◌, ◌*◌, ◌/◌, String, Bool, true, false, not, Option, none, some, List, [], ◌∷◌, or_default,
  if◌then◌else◌,
}
use innovation_sandbox_on_aw.Types.{Lease, Account, Ou, clean_up}
use innovation_sandbox_on_aw.Outcome.{
  ok, err, Action, pure, or_throw, gets, guard, swallow, ◌>>=◌, ◌>>◌, could_not_find_account,
  m2m_assignee_not_allowed,
}
use innovation_sandbox_on_aw.Events.{Event}
use innovation_sandbox_on_aw.Transaction.{complete}
use innovation_sandbox_on_aw.World.{
  World, remote, send, is_synthetic_m2m_email, tag_status, put_event, delete_stack_instances,
}
use innovation_sandbox_on_aw.LeaseStore.{StepResult}
use innovation_sandbox_on_aw.AccountStore.{get_account, transactional_move_account}
use innovation_sandbox_on_aw.AssignmentLock.{truthy}

-- `sandboxAccountStore.get(lease.awsAccountId)`, and the error if there is no such account.
unfoldable pub account_of : Lease → Action World Account
account_of l = do
  found ← get_account (or_default l.aws_account_id "")
  or_throw found could_not_find_account

-- `updateStatusTag` under its `try`: a failure is logged only.
unfoldable pub update_status_tag : String → Ou → Action World (Unit {0})
update_status_tag id status = swallow (send (tag_status id status))

-- `sendIsbEvents`: one event after the other.
unfoldable pub send_events : List Event → Action World (Unit {0})
send_events [] = pure tt
send_events (e ∷ es) = do send (put_event e); send_events es

-- `assertAssigneeNotM2m`
unfoldable pub assert_assignee_not_m2m : Lease → Action World (Unit {0})
assert_assignee_not_m2m l = do
  bad ← gets (λ w. is_synthetic_m2m_email w.env l.user_email)
  guard (not bad) m2m_assignee_not_allowed

-- `transactionalMoveAccount(account, source, "CleanUp").complete()`
unfoldable pub move_to_clean_up : Account → Ou → Action World StepResult
move_to_clean_up a source = complete (transactional_move_account a source clean_up) []

-- `deleteStackInstancesMetadata` of source/common/isb-services/blueprint-deployment-service.ts,
-- for a lease that has a blueprint: every error is logged and swallowed.
abbrev pub remove_stack_instances : String → String → Action World (Unit {0})
remove_stack_instances blueprint account_id = do
  remote
  known ← gets (λ w. w.blueprint_exists blueprint)
  if known then send (delete_stack_instances blueprint account_id) else pure tt

unfoldable pub delete_stack_instances_metadata : Lease → Action World (Unit {0})
delete_stack_instances_metadata l = elim (truthy l.blueprint_id) [
  | none ↦ pure tt
  | some b ↦ swallow (remove_stack_instances b (or_default l.aws_account_id ""))
]

abbrev pub ms_per_day : ℕ
ms_per_day = 86400000

-- `calculateTtlInEpochSeconds`
abbrev pub ttl_in_epoch_seconds : ℕ → ℕ → ℕ
ttl_in_epoch_seconds now days = (now + days * ms_per_day) / 1000
