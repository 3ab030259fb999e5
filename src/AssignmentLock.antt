-- ===== src/AssignmentLock.antt =====
-- The first half of source/common/isb-services/lease-assignment/lease-assignment.service.ts:
-- taking the lock of a lease, with the assignments that it shall have, and requesting that they
-- are processed.
pub mod Laws
use Prim.Native.String
use innovation_sandbox_on_aw.Common.{
  ℕ, ◌≤◌, ◌≡◌, String, Bool, true, false, not, Option, none, some, List, [], ◌∷◌, ◌++◌, any, length,
  if◌then◌else◌, ltb, str_eq, is_some,
}
use innovation_sandbox_on_aw.Types.{
  Intent, terminate, freeze, update, publish, unfreeze, Lock, DesiredAssignment, PrincipalType,
  user, group,
}
use innovation_sandbox_on_aw.Outcome.{
  Result, ok, err, Action, pure, throw, or_throw, gets, modify, guard, swallow, on_error, ◌>>=◌,
  ◌>>◌, principal_unresolved, max_assignments_exceeded,
}
use innovation_sandbox_on_aw.LeaseLock.{is_critical}
use innovation_sandbox_on_aw.Events.{assignment_requested}
use innovation_sandbox_on_aw.World.{World, Env, Principal, remote, send, put_event}
use innovation_sandbox_on_aw.LeaseStore.{acquire_lock, release_lock}

abbrev pub critical_lock_timeout_seconds : ℕ
critical_lock_timeout_seconds = 900

abbrev pub non_critical_lock_timeout_seconds : ℕ
non_critical_lock_timeout_seconds = 300

abbrev pub max_assignments : ℕ
max_assignments = 20

-- `AssignmentProcessingLock`
pub record ProcessingLock : Type 0 where
  pub lease_id : String
  pub user_email : String
  pub intent : Intent
  pub requested_by : String
  pub lock_owner_id : String
  pub desired_count : ℕ
  pub lock : Lock
  pub release_lock_on_event_failure : Bool

abbrev pub intent_in_lower_case : Intent → String
intent_in_lower_case terminate = "terminate"
intent_in_lower_case freeze = "freeze"
intent_in_lower_case update = "update"
intent_in_lower_case publish = "publish"
intent_in_lower_case unfreeze = "unfreeze"

-- An empty text counts as missing.
abbrev pub truthy : Option String → Option String
truthy none = none
truthy (some s) = if str_eq s "" then none else some s

abbrev pub found_principal : Option Principal → Principal
found_principal none = record { email = none; display_name = none }
found_principal (some p) = p

-- The `map` of `enrichDesiredAssignments`, over the cache as filled on a miss.
unfoldable pub enriched : (String → Option Principal) → DesiredAssignment → Option DesiredAssignment
enriched cache a =
    let cached = cache a.principal_id in
    let e = truthy (found_principal cached).email in
    let entry = record a {
      email = e;
      display_name = truthy (found_principal cached).display_name;
    } in
    elim a.principal_type [
      | user ↦ if is_some e then some entry else none
      | group ↦ if is_some cached then some entry else none
    ]

unfoldable pub all_enriched :
    (String → Option Principal) → List DesiredAssignment → Option (List DesiredAssignment)
all_enriched cache [] = some []
all_enriched cache (a ∷ as') =
    let rest = all_enriched cache as' in
    elim (enriched cache a) [
      | none ↦ none
      | some x ↦ elim rest [ none ↦ none | some xs ↦ some (x ∷ xs) ]
    ]

-- `enrichDesiredAssignments`: one call stands for the reads of the cache and of Identity Center.
unfoldable pub enrich_desired_assignments :
    List DesiredAssignment → Action World (List DesiredAssignment)
enrich_desired_assignments [] = pure []
enrich_desired_assignments (a ∷ as') = do
  remote
  found ← gets (λ w. all_enriched w.principal_of (a ∷ as'))
  or_throw found principal_unresolved

abbrev pub owner_entry : String → DesiredAssignment
owner_entry id = record {
  principal_id = id;
  principal_type = user;
  display_name = none;
  email = none;
}

-- The list with the owner put in at the end, unless the owner is there.
unfoldable pub with_owner : String → List DesiredAssignment → List DesiredAssignment
with_owner owner desired =
    if any (λ a. str_eq a.principal_id owner) desired
    then desired
    else desired ++ owner_entry owner ∷ []

-- `enrichWithOwner`
unfoldable pub enrich_with_owner :
    List DesiredAssignment → String → Action World (List DesiredAssignment)
enrich_with_owner desired user_email = do
  remote
  found ← gets (λ w. w.principal_id_of user_email)
  owner ← or_throw found principal_unresolved
  enrich_desired_assignments (with_owner owner desired)

-- `validateAssignmentCount`
unfoldable pub validate_assignment_count : List DesiredAssignment → Action World (Unit {0})
validate_assignment_count as' =
    guard (not (ltb max_assignments (length as'))) max_assignments_exceeded

-- `acquireAssignmentLock`
unfoldable pub acquire_assignment_lock :
    (lease_id user_email : String)
    → Intent
    → Option (List DesiredAssignment)
    → String
    → ℕ
    → Action World (ℕ × Lock)
acquire_assignment_lock lease_id user_email intent none owner timeout = do
  lock ← acquire_lock user_email lease_id owner timeout (some intent) none
  pure (0, lock)
acquire_assignment_lock lease_id user_email intent (some desired) owner timeout = do
  enriched_list ← enrich_with_owner desired user_email
  validate_assignment_count enriched_list
  lock ← acquire_lock user_email lease_id owner timeout (some intent) (some enriched_list)
  pure (length enriched_list, lock)

unfoldable pub timeout_of : Intent → ℕ
timeout_of intent =
    if is_critical intent then critical_lock_timeout_seconds else non_critical_lock_timeout_seconds

-- The lock with the defaults of the optional properties: the owner of the lease asks, and a
-- failure to publish releases the lock only if the intent is not critical.
abbrev pub processing_lock :
    (lease_id user_email : String) → Intent → String → ℕ → Lock → ProcessingLock
processing_lock lease_id user_email intent owner count lock = record {
  lease_id = lease_id;
  user_email = user_email;
  intent = intent;
  requested_by = user_email;
  lock_owner_id = owner;
  desired_count = count;
  lock = lock;
  release_lock_on_event_failure = not (is_critical intent);
}

-- `acquireAssignmentProcessingLock`, with the defaults of its optional properties.
unfoldable pub acquire_assignment_processing_lock :
    (lease_id user_email : String)
    → Intent
    → Option (List DesiredAssignment)
    → Action World ProcessingLock
acquire_assignment_processing_lock lease_id user_email intent desired = do
  uuid ← gets (λ w. w.uuid_at w.ticks)
  let owner = String.◌++◌ (String.◌++◌ (intent_in_lower_case intent) "-") uuid
  acquired ← acquire_assignment_lock lease_id user_email intent desired owner (timeout_of intent)
  pure (processing_lock lease_id user_email intent owner acquired.0 acquired.1)

-- `releaseAssignmentProcessingLock`: a failure is logged and swallowed.
unfoldable pub release_assignment_processing_lock : ProcessingLock → Action World (Unit {0})
release_assignment_processing_lock l =
    swallow (release_lock l.user_email l.lease_id l.lock_owner_id)

-- `publishAssignmentProcessingRequest` and `publishAssignmentRequestedEvent`
unfoldable pub publish_assignment_processing_request : ProcessingLock → Action World (Unit {0})
publish_assignment_processing_request l =
    on_error
      (send (
        put_event
          (assignment_requested l.intent l.lease_id l.requested_by l.lock_owner_id l.user_email)))
      (if l.release_lock_on_event_failure then release_assignment_processing_lock l else pure tt)

-- `triggerAssignmentProcessing`
unfoldable pub trigger_assignment_processing :
    (lease_id user_email : String)
    → Intent
    → Option (List DesiredAssignment)
    → Action World (String × ℕ)
trigger_assignment_processing lease_id user_email intent desired = do
  l ← acquire_assignment_processing_lock lease_id user_email intent desired
  publish_assignment_processing_request l
  pure (l.lock_owner_id, l.desired_count)
