-- ===== src/LeaseApi/Views.antt =====
-- `deriveAssignmentView` of
-- source/common/isb-services/lease-assignment/lease-assignment.service.ts: the assignments of a
-- lease as the API shows them. The dates at which records were added are left out.
pub mod Agrees
pub mod Shown
use innovation_sandbox_on_aw.Common.{
  ℕ, String, Bool, true, false, not, ◌&&◌, ◌||◌, Option, none, some, is_some, List, [], ◌∷◌, ◌++◌,
  map, any, keep, ltb, or_default, str_eq, if◌then◌else◌,
}
use innovation_sandbox_on_aw.Types.{
  Lease, Lock, Intent, terminate, freeze, unfreeze, PrincipalType, user, group, DesiredAssignment,
  is_frozen_lease, is_expired_lease,
}
use innovation_sandbox_on_aw.World.{Assignment}

-- `AssignmentSyncStatus`
pub data SyncStatus : Type 0 where
  active revoking revoke_failed suspended granting grant_failed : SyncStatus

pub record AssignmentView : Type 0 where
  pub principal_id : String
  pub principal_type : PrincipalType
  pub display_name : String
  pub assignee_email : Option String
  pub added_by : Option String
  pub is_owner : Bool
  pub is_desired : Bool
  pub sync_status : SyncStatus

-- `statusForAssigned`
unfoldable pub status_for_assigned : (should_not_be_assigned is_in_flight : Bool) → SyncStatus
status_for_assigned should_not flight =
    if not should_not then active else if flight then revoking else revoke_failed

-- `statusForUnassigned`
unfoldable pub status_for_unassigned : (no_access_expected is_in_flight : Bool) → SyncStatus
status_for_unassigned no_access flight =
    if no_access then suspended else if flight then granting else grant_failed

-- `a ?? b`
abbrev pub or_else : Option String → Option String → Option String
or_else none b = b
or_else (some a) b = some a

abbrev pub is_email : Option String → String → Bool
is_email none e = false
is_email (some a) e = str_eq a e

abbrev pub is_user : PrincipalType → Bool
is_user user = true
is_user group = false

-- `viewFromDesiredAssignment`
unfoldable pub view_from_desired :
    Lease → (no_access is_in_flight : Bool) → DesiredAssignment → AssignmentView
unfolding status_for_unassigned
view_from_desired l no_access flight d = record {
  principal_id = d.principal_id;
  principal_type = d.principal_type;
  display_name = or_default (or_else d.display_name d.email) d.principal_id;
  assignee_email = if is_user d.principal_type then d.email else none;
  added_by = none;
  is_owner = is_user d.principal_type && is_email d.email l.user_email;
  is_desired = true;
  sync_status = status_for_unassigned no_access flight;
}

-- The last entry for a principal: what the constructor of `Map` keeps.
abbrev pub desired_for : String → List DesiredAssignment → Option DesiredAssignment
desired_for id [] = none
desired_for id (d ∷ ds) = elim (desired_for id ds) [
  | some x ↦ some x
  | none ↦ if str_eq d.principal_id id then some d else none
]

abbrev pub name_of : Option DesiredAssignment → Option String
name_of none = none
name_of (some d) = d.display_name

abbrev pub is_owner_record : Lease → Assignment → Bool
is_owner_record l a = is_user a.principal_type && is_email a.assignee_email l.user_email

-- `viewFromAssignment`
unfoldable pub view_from_assignment :
    Lease → (no_access is_in_flight : Bool) → Option DesiredAssignment → Assignment → AssignmentView
unfolding status_for_assigned
view_from_assignment l no_access flight desired a =
    let is_desired = is_some desired || is_owner_record l a in
    record {
      principal_id = a.principal_id;
      principal_type = a.principal_type;
      display_name =
          or_default (or_else (name_of desired) (or_else a.display_name a.assignee_email))
            a.principal_id;
      assignee_email = a.assignee_email;
      added_by = some a.added_by;
      is_owner = is_owner_record l a;
      is_desired = is_desired;
      sync_status =
          status_for_assigned (no_access || (not is_desired && not (is_owner_record l a))) flight;
    }

-- `operationInProgress`
abbrev pub operation_in_progress : Option Lock → ℕ → Option Intent
operation_in_progress none now = none
operation_in_progress (some lock) now = if ltb now lock.expires_at then lock.intent else none

abbrev pub is_ending : Option Intent → Bool
is_ending (some freeze) = true
is_ending (some terminate) = true
is_ending _ = false

abbrev pub is_unfreezing : Option Intent → Bool
is_unfreezing (some unfreeze) = true
is_unfreezing _ = false

-- `noAccessExpected`
unfoldable pub no_access_expected : Lease → Option Intent → Bool
no_access_expected l operation =
    is_ending operation
    || ((is_frozen_lease l && not (is_unfreezing operation)) || is_expired_lease l)

abbrev pub is_assigned : List Assignment → String → Bool
is_assigned records id = any (λ (a : Assignment). str_eq a.principal_id id) records

-- `views` and `desiredOnlyViews`
abbrev pub views_from_records :
    Lease
    → List DesiredAssignment
    → (no_access is_in_flight : Bool) → List Assignment
    → List AssignmentView
views_from_records l desired no_access flight records =
    map
      (λ (a : Assignment).
        view_from_assignment l no_access flight (desired_for a.principal_id desired) a)
      records

abbrev pub desired_only : List Assignment → List DesiredAssignment → List DesiredAssignment
desired_only records desired =
    keep (λ (d : DesiredAssignment). not (is_assigned records d.principal_id)) desired

-- The list for an operation in progress, or for none.
unfoldable pub views_during : Lease → List Assignment → Option Intent → List AssignmentView
unfolding no_access_expected view_from_assignment view_from_desired
views_during l records operation =
    let no_access = no_access_expected l operation in
    let flight = is_some operation in
    let desired = or_default l.desired_assignments [] in
    views_from_records l desired no_access flight records
    ++ map (view_from_desired l no_access flight) (desired_only records desired)

-- `deriveAssignmentView`
unfoldable pub derive_assignment_view :
    Lease → List Assignment → ℕ → List AssignmentView × Option Intent
derive_assignment_view l records now =
    let operation = operation_in_progress l.resource_lock now in
    (views_during l records operation, operation)
