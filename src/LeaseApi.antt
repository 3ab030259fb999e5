-- ===== src/LeaseApi.antt =====
-- source/lambdas/api/leases/src/smithy/lease-operations.ts: who may do what to a lease over the API,
-- with source/shared/utils/group-assignment-policy.ts. A response other than success is an
-- `http_error` with its status; messages and logging are left out, as is the routing.
pub mod Validation
pub mod Operations
pub mod Reads
pub mod Effects
pub mod Ended
pub mod Hidden
pub mod RateLimit
pub mod Views
mod Tests
use innovation_sandbox_on_aw.Common.{
  String, Bool, true, false, not, ◌&&◌, ◌||◌, Option, none, some, List, [], ◌∷◌, any, keep, map,
  or_default, str_eq, if◌then◌else◌,
}
use innovation_sandbox_on_aw.Types.{
  Lease, LeaseStatus, DesiredAssignment, PrincipalType, user, group,
}
use innovation_sandbox_on_aw.Outcome.{
  ok, err, Action, pure, throw, or_throw, gets, guard, ◌>>=◌, ◌>>◌, http_error,
}
use innovation_sandbox_on_aw.Auth.{
  IsbUser, idc_user, m2m_user, Role, admin_role, manager_role, user_role, get_user_email,
}
use innovation_sandbox_on_aw.LeaseStore.{get_lease}
use innovation_sandbox_on_aw.World.{World, remote, LeaseRules}

-- `user.roles`
abbrev pub roles_of : IsbUser → List Role
roles_of (idc_user _ _ roles) = roles
roles_of (m2m_user _ roles) = roles

abbrev pub is_elevated : Role → Bool
is_elevated admin_role = true
is_elevated manager_role = true
is_elevated user_role = false

-- `isAdminOrManager`
abbrev pub is_admin_or_manager : IsbUser → Bool
is_admin_or_manager u = any is_elevated (roles_of u)

-- `parseLeaseCompositeKey`, for both of its refusals.
unfoldable pub parse_lease_composite_key : String → Action World (String × String)
parse_lease_composite_key id = do key ← gets (λ w. w.lease_key_of id); or_throw key (http_error 400)

-- `fetchLease`
unfoldable pub fetch_lease : String → Action World (Option Lease)
fetch_lease id = do key ← parse_lease_composite_key id; get_lease key.0 key.1

-- `fetchLeaseOrThrow404`
unfoldable pub fetch_lease_or_throw404 : String → Action World Lease
fetch_lease_or_throw404 id = do found ← fetch_lease id; or_throw found (http_error 404)

abbrev pub is_user_entry : String → DesiredAssignment → Bool
is_user_entry id d = elim d.principal_type [ user ↦ str_eq d.principal_id id | group ↦ false ]

abbrev pub is_group : PrincipalType → Bool
is_group user = false
is_group group = true

abbrev pub is_group_entry : DesiredAssignment → Bool
is_group_entry d = is_group d.principal_type

abbrev pub is_listed : List String → String → Bool
is_listed ids id = any (λ i. str_eq i id) ids

-- The part of `hasReadAccessForLease` for a user of Identity Center: a direct assignment, or one
-- of a group; the cache of memberships is only read if the lease has groups.
unfoldable pub has_shared_access : String → List DesiredAssignment → Action World Bool
has_shared_access user_id desired =
    if any (is_user_entry user_id) desired
    then pure true
    else if not (any is_group_entry desired)
    then pure false
    else (do
      remote
      groups ← gets (λ w. w.group_ids_of user_id)
      pure (any (λ d. is_listed groups d.principal_id) (keep is_group_entry desired)))

-- The assignments that count for the caller: none for a machine.
abbrev pub shared_with : IsbUser → Lease → Action World Bool
shared_with (m2m_user _ _) l = pure false
shared_with (idc_user _ id _) l = has_shared_access id (or_default l.desired_assignments [])

-- `hasReadAccessForLease`
unfoldable pub has_read_access_for_lease : IsbUser → Lease → Action World Bool
has_read_access_for_lease u l =
    if is_admin_or_manager u
    then pure true
    else if str_eq (get_user_email u) l.user_email
    then pure true
    else shared_with u l

abbrev pub is_true : Option Bool → Bool
is_true none = false
is_true (some b) = b

-- `assertCallerCanManageAssignments`
unfoldable pub assert_caller_can_manage_assignments : IsbUser → Lease → Action World (Unit {0})
assert_caller_can_manage_assignments u l = if is_admin_or_manager u then pure tt else (do
  enabled ← gets (λ w. w.rules.lease_sharing_enabled)
  guard enabled (http_error 403)
  guard (is_true l.allow_owner_to_share_lease) (http_error 403))

-- `findDisallowedGroupAssignments`
unfoldable pub find_disallowed_group_assignments :
    (groups_enabled : Bool) (desired existing : List DesiredAssignment) → List DesiredAssignment
find_disallowed_group_assignments true desired existing = []
find_disallowed_group_assignments false desired existing =
    keep
      (λ d.
        is_group_entry d
        && not (
            is_listed
              (map (λ (e : DesiredAssignment). e.principal_id) (keep is_group_entry existing))
              d.principal_id))
      desired

abbrev pub is_none_left : List DesiredAssignment → Bool
is_none_left [] = true
is_none_left _ = false

-- `assertGroupAssignmentsAllowed`
unfoldable pub assert_group_assignments_allowed :
    (desired existing : List DesiredAssignment) → Action World (Unit {0})
assert_group_assignments_allowed desired existing = do
  enabled ← gets (λ w. w.rules.groups_enabled)
  guard (is_none_left (find_disallowed_group_assignments enabled desired existing)) (http_error 400)

abbrev pub is_own : IsbUser → Option Lease → Bool
is_own u none = false
is_own u (some l) = str_eq l.user_email (get_user_email u)

-- `lease.status === "Frozen" || lease.status === "Provisioning"`, read where there is a lease.
abbrev pub is_held : Option Lease → Bool
is_held none = false
is_held (some l) = elim l.status [
  | LeaseStatus.frozen ↦ true
  | LeaseStatus.provisioning ↦ true
  | _ ↦ false
]

-- `authorizeTermination`; it returns whether the caller is a mere user.
unfoldable pub authorize_termination : IsbUser → Option Lease → Action World Bool
authorize_termination u found = if is_admin_or_manager u then pure false else (do
  allowed ← gets (λ w. w.rules.allow_user_lease_termination)
  guard allowed (http_error 403)
  guard (is_own u found) (http_error 403)
  guard (not (is_held found)) (http_error 403)
  pure true)
