-- ===== src/Processor.antt =====
-- source/lambdas/assignment-processor/src/assignment-processor-handler.ts: which principals the
-- workers settle for a lease (`handleFanOut`), and what is announced when they are done
-- (`handleCompletion`). The assignments of a lease fit on one page of the query. Logging and the
-- metrics that are logged are left out.
pub mod Fanout
pub mod Settled
pub mod Completion
mod Tests
use innovation_sandbox_on_aw.Common.{
  String, Bool, true, false, not, ◌&&◌, Option, none, some, List, [], ◌∷◌, ◌++◌, map, any, keep,
  or_default, str_eq, if◌then◌else◌,
}
use innovation_sandbox_on_aw.Types.{Intent, PrincipalType, user, group, DesiredAssignment, Lease}
use innovation_sandbox_on_aw.Outcome.{
  Action, pure, or_throw, gets, swallow, finally, ◌>>=◌, ◌>>◌, lease_missing, lease_without_account,
}
use innovation_sandbox_on_aw.Events.{Event, assignment_created, assignment_removed}
use innovation_sandbox_on_aw.LeaseLock.{is_critical}
use innovation_sandbox_on_aw.LeaseStore.{get_lease, release_lock}
use innovation_sandbox_on_aw.AssignmentLock.{truthy}
use innovation_sandbox_on_aw.Sandbox.{send_events}
use innovation_sandbox_on_aw.World.{World, Assignment, remote}

-- `FannedOutPrincipalSchema`
pub record FannedOut : Type 0 where
  pub principal_id : String
  pub principal_type : PrincipalType

-- `FanOutInputSchema` without the name of the execution.
pub record FanOutInput : Type 0 where
  pub lease_id : String
  pub intent : Intent
  pub lock_owner_id : String
  pub lease_owner_email : String
  pub requested_by : String

-- `HandleCompletionInputSchema`, an absent list as an empty one.
pub record CompletionInput : Type 0 where
  pub request : FanOutInput
  pub open request use *
  pub account_id : String
  pub fanned_out : List FannedOut
  pub pre_existing : List String

pub record WorkItem : Type 0 where
  pub principal_id : String
  pub principal_type : PrincipalType
  pub display_name : String
  pub email : String
  pub permission_set_arn : String

-- `getAssignmentsForLease` of source/common/data/principal/dynamo-principal-store.ts
unfoldable pub get_assignments_for_lease : String → Action World (List Assignment)
get_assignments_for_lease id = do remote; gets (λ w. keep (λ a. str_eq a.lease_id id) w.assignments)

-- An entry of the lease's list as a work item.
unfoldable pub desired_to_work_item : String → DesiredAssignment → WorkItem
desired_to_work_item arn d = record {
  principal_id = d.principal_id;
  principal_type = d.principal_type;
  display_name = or_default d.display_name "";
  email = or_default d.email "";
  permission_set_arn = arn;
}

-- `recordToWorkItem`
unfoldable pub record_to_work_item : String → Assignment → WorkItem
record_to_work_item arn a = record {
  principal_id = a.principal_id;
  principal_type = a.principal_type;
  display_name = elim a.principal_type [
    | user ↦ or_default a.display_name (or_default a.assignee_email "")
    | group ↦ or_default a.display_name ""
  ];
  email = elim a.principal_type [ user ↦ or_default a.assignee_email "" | group ↦ "" ];
  permission_set_arn = arn;
}

abbrev pub is_for : String → WorkItem → Bool
is_for id i = str_eq i.principal_id id

-- `if (!principalMap.has(id)) principalMap.set(id, item)`: the map keeps the order of insertion.
unfoldable pub add_item : List WorkItem → WorkItem → List WorkItem
add_item items i = if any (is_for i.principal_id) items then items else items ++ i ∷ []

-- A loop that adds items.
unfoldable pub add_items : List WorkItem → List WorkItem → List WorkItem
unfolding add_item
add_items items [] = items
add_items items (i ∷ is) = add_items (add_item items i) is

-- The two loops of `buildWorkItems`.
unfoldable pub union_items : String → List DesiredAssignment → List Assignment → List WorkItem
unfolding add_items desired_to_work_item record_to_work_item
union_items arn desired records =
    add_items (add_items [] (map (desired_to_work_item arn) desired))
      (map (record_to_work_item arn) records)

abbrev pub principal_ids : List Assignment → List String
principal_ids records = map (λ (a : Assignment). a.principal_id) records

-- `buildWorkItems`
unfoldable pub build_work_items :
    List DesiredAssignment → List Assignment → Action World (List WorkItem × List String)
build_work_items [] [] = pure ([], [])
build_work_items desired records = do
  remote
  arn ← gets (λ w. w.user_permission_set_arn)
  pure (union_items arn desired records, principal_ids records)

-- `handleFanOut`
unfoldable pub handle_fan_out : FanOutInput → Action World (List WorkItem × String × List String)
handle_fan_out input = do
  found ← get_lease input.lease_owner_email input.lease_id
  l ← or_throw found lease_missing
  account_id ← or_throw (truthy l.aws_account_id) lease_without_account
  records ← get_assignments_for_lease input.lease_id
  built ← build_work_items (or_default l.desired_assignments []) records
  pure (built.0, account_id, built.1)

-- The assignments of the lease that is read, if there is one.
abbrev pub assignments_of : Option Lease → List DesiredAssignment
assignments_of none = []
assignments_of (some l) = or_default l.desired_assignments []

abbrev pub has_string : List String → String → Bool
has_string ids id = any (λ i. str_eq i id) ids

-- The ids that shall have access: none for a critical intent.
unfoldable pub desired_principal_ids : Intent → List DesiredAssignment → List String
desired_principal_ids intent desired =
    if is_critical intent then [] else map (λ (d : DesiredAssignment). d.principal_id) desired

abbrev pub fanned_out_ids : CompletionInput → List String
fanned_out_ids input = map (λ (p : FannedOut). p.principal_id) input.fanned_out

unfoldable pub created_event : CompletionInput → Assignment → Event
created_event input a =
    assignment_created input.lease_id a.principal_id a.principal_type
      (elim a.principal_type [ user ↦ a.assignee_email | group ↦ none ]) input.account_id
      input.requested_by input.lease_owner_email

unfoldable pub removed_event : CompletionInput → FannedOut → Event
removed_event input p =
    assignment_removed input.lease_id p.principal_id p.principal_type input.account_id
      input.requested_by input.lease_owner_email

-- The test under which a record is announced as created.
abbrev pub is_created : CompletionInput → (desired : List String) → Assignment → Bool
is_created input desired a =
    has_string (fanned_out_ids input) a.principal_id
    && (has_string desired a.principal_id && not (has_string input.pre_existing a.principal_id))

-- The test under which a principal is announced as removed.
abbrev pub is_removed : (current desired : List String) → FannedOut → Bool
is_removed current desired p =
    not (has_string current p.principal_id) && not (has_string desired p.principal_id)

unfoldable pub completion_events : CompletionInput → List String → List Assignment → List Event
unfolding created_event removed_event
completion_events input desired records =
    map (created_event input) (keep (is_created input desired) records)
    ++ map (removed_event input)
        (keep (is_removed (principal_ids records) desired) input.fanned_out)

-- The body of the `try` of `handleCompletion`; it returns the events that it sent.
unfoldable pub complete_assignments : CompletionInput → Action World (List Event)
complete_assignments input = do
  found ← get_lease input.lease_owner_email input.lease_id
  records ← get_assignments_for_lease input.lease_id
  let events =
      completion_events input (desired_principal_ids input.intent (assignments_of found)) records
  send_events events
  pure events

-- `handleCompletion`
unfoldable pub handle_completion : CompletionInput → Action World (List Event)
handle_completion input =
    finally (complete_assignments input)
      (swallow (release_lock input.lease_owner_email input.lease_id input.lock_owner_id))
