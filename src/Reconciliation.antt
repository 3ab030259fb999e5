-- ===== src/Reconciliation.antt =====
-- The second half of source/common/isb-services/lease-assignment/lease-assignment.service.ts, as
-- the worker of source/lambdas/assignment-worker uses it: the access of one principal to the
-- account of one lease is brought in line with the lease's record.
pub mod Laws
pub mod Frame
mod Tests
use innovation_sandbox_on_aw.Common.{
  String, Bool, true, false, not, ◌&&◌, ◌||◌, Option, none, some, List, [], any, find, is_some,
  or_default, str_eq, if◌then◌else◌,
}
use innovation_sandbox_on_aw.Types.{
  Lease, Intent, PrincipalType, user, group, is_frozen_lease, is_expired_lease,
}
use innovation_sandbox_on_aw.Outcome.{
  ok, err, Action, pure, gets, modify, guard, ◌>>=◌, ◌>>◌, invalid_item,
}
use innovation_sandbox_on_aw.LeaseLock.{is_critical}
use innovation_sandbox_on_aw.Table.{put, erase}
use innovation_sandbox_on_aw.LeaseStore.{get_lease}
use innovation_sandbox_on_aw.World.{
  World, Assignment, remote, send, create_assignment, delete_assignment,
}

pub data AssignmentAction : Type 0 where
  grant revoke no_op : AssignmentAction

-- The message of the queue, without the task token and what the permission set is called.
pub record Message : Type 0 where
  pub lease_id : String
  pub intent : Intent
  pub requested_by : String
  pub principal_id : String
  pub principal_type : PrincipalType
  pub account_id : String
  pub lease_owner_email : String
  pub email : Option String
  pub display_name : Option String

abbrev pub same_type : PrincipalType → PrincipalType → Bool
same_type user user = true
same_type group group = true
same_type _ _ = false

-- The test for the key of the message in the principal table.
abbrev pub is_record : Message → Assignment → Bool
is_record m a =
    same_type a.principal_type m.principal_type
    && (str_eq a.principal_id m.principal_id && str_eq a.lease_id m.lease_id)

-- `assignmentRecordExists`
unfoldable pub assignment_record_exists : Message → Action World Bool
assignment_record_exists m = do remote; gets (λ w. is_some (find (is_record m) w.assignments))

-- Whether the lease, as it is read, wants the principal to have access.
abbrev pub is_desired : Message → Option Lease → Bool
is_desired m none = false
is_desired m (some l) =
    not (is_frozen_lease l || is_expired_lease l)
    && any (λ d. str_eq d.principal_id m.principal_id) (or_default l.desired_assignments [])

-- `shouldPrincipalHaveAccess`
unfoldable pub should_principal_have_access : Message → Action World Bool
should_principal_have_access m =
    if is_critical m.intent
    then pure false
    else (do found ← get_lease m.lease_owner_email m.lease_id; pure (is_desired m found))

-- `determineAction`
unfoldable pub determine_action : Intent → (wanted exists : Bool) → AssignmentAction
determine_action intent wanted exists =
    if is_critical intent
    then if exists then revoke else no_op
    else if wanted && not exists
    then grant
    else if not wanted && exists
    then revoke
    else no_op

-- `resolveAssignmentAction`
unfoldable pub resolve_assignment_action : Message → Action World AssignmentAction
resolve_assignment_action m = do
  exists ← assignment_record_exists m
  wanted ← should_principal_have_access m
  pure (determine_action m.intent wanted exists)

-- The record of `persistGrantRecord`; a group without a name gets its id for one.
unfoldable pub grant_record : Message → Assignment
grant_record m = record {
  principal_id = m.principal_id;
  principal_type = m.principal_type;
  lease_id = m.lease_id;
  display_name = elim m.principal_type [
    | user ↦ m.display_name
    | group ↦ some (or_default m.display_name m.principal_id)
  ];
  assignee_email = elim m.principal_type [ user ↦ some (or_default m.email "") | group ↦ none ];
  lease_owner_email = m.lease_owner_email;
  account_id = m.account_id;
  added_by = m.requested_by;
}

-- `executeGrant`: the configuration is read, and the access granted.
unfoldable pub execute_grant : Message → Action World (Unit {0})
execute_grant m = do remote; send (create_assignment m.account_id m.principal_id m.principal_type)

-- `persistGrantRecord` with the store's `createUserAssignment` and `createGroupAssignment`: the
-- schema is checked before the call, and a record that is there already is left alone.
unfoldable pub persist_grant_record : Message → Action World (Unit {0})
persist_grant_record m = do
  valid ← gets (λ w. w.assignment_is_valid (grant_record m))
  guard valid invalid_item
  remote
  there ← gets (λ w. is_some (find (is_record m) w.assignments))
  if there
      then pure tt
      else modify (λ w. record w { assignments = put (is_record m) (grant_record m) w.assignments })

-- `executeRevoke`: an assignment that Identity Center does not have counts as removed.
unfoldable pub execute_revoke : Message → Action World (Unit {0})
execute_revoke m = do
  remote
  missing ← gets (λ w. w.assignment_missing (w.ticks))
  if missing then remote else send (delete_assignment m.account_id m.principal_id m.principal_type)
  remote
  modify (λ w. record w { assignments = erase (is_record m) w.assignments })

-- `processAssignment`, and nothing for an action that is none.
unfoldable pub process_assignment : Message → AssignmentAction → Action World (Unit {0})
process_assignment m grant = do execute_grant m; persist_grant_record m
process_assignment m revoke = execute_revoke m
process_assignment m no_op = pure tt

-- The body of the `try` of the worker's `processRecord`.
unfoldable pub settle_assignment : Message → Action World (Unit {0})
settle_assignment m = do action ← resolve_assignment_action m; process_assignment m action
