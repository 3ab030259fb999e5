-- ===== src/World.antt =====
-- The state that the handlers act on: the DynamoDB tables, the calls that other services
-- accepted, and the environment. Every call of a service may throw: the environment says which.
pub mod Triple
pub mod Frame
pub mod Within
use Prim.Native.String
use innovation_sandbox_on_aw.Common.{
  ℕ, ◌+◌, String, Bool, true, false, ◌||◌, Option, List, ◌∷◌, [], if◌then◌else◌, str_eq,
}
use innovation_sandbox_on_aw.Types.{
  Lease, LeaseTemplate, Lock, DesiredAssignment, Account, Ou, PrincipalType,
}
use innovation_sandbox_on_aw.Auth.{IsbUser}
use innovation_sandbox_on_aw.Events.{Event}
use innovation_sandbox_on_aw.Outcome.{Action, ok, err, remote_failure, modify, ◌>>◌}

-- What the principal cache, filled from Identity Center on a miss, has for a principal.
pub record Principal : Type 0 where
  pub email : Option String
  pub display_name : Option String

pub data GroupRole : Type 0 where
  manager admin : GroupRole

-- A call that changes the state of a service: Organizations (`MoveAccount`, `TagResource`,
-- `UntagResource`), Identity Center, CloudFormation and EventBridge.
pub data Call : Type 0 where
  move_account : (account_id : String) (source destination : Ou) → Call
  tag_status : (account_id : String) → Ou → Call
  tag_cost_report_group : (account_id cost_report_group : String) → Call
  tag_lease : (account_id uuid cost_report_group template_uuid user_id : String) → Ou → Call
  untag_all : (account_id : String) → Call
  create_assignment delete_assignment : (account_id principal_id : String) → PrincipalType → Call
  assign_group_access revoke_group_access : (account_id : String) → GroupRole → Call
  delete_stack_instances : (blueprint_id account_id : String) → Call
  put_event : Event → Call

-- The records of the principal table that say who has access to which lease.
pub record Assignment : Type 0 where
  pub principal_id : String
  pub principal_type : PrincipalType
  pub lease_id : String
  pub display_name : Option String
  pub assignee_email : Option String
  pub lease_owner_email : String
  pub account_id : String
  pub added_by : String

-- What the leases section and the cost reporting section of the global configuration say, as far
-- as the modelled code reads it; `groups_enabled` is the group assignment mode ALL.
pub record LeaseRules : Type 0 where
  pub lease_sharing_enabled : Bool
  pub allow_user_lease_termination : Bool
  pub groups_enabled : Bool
  pub max_budget : ℕ
  pub require_max_budget : Bool
  pub max_duration_hours : ℕ
  pub require_max_duration : Bool
  pub require_cost_report_group : Bool
  pub cost_report_groups : List String
  pub lease_request_window_hours : ℕ
  pub max_lease_requests_per_window : ℕ

-- The n-th call of a service throws if `fails n`, and finds the clock at `clock n`; `uuid_at n` is
-- `randomUUID()` and `random_index n k` is `Math.floor(Math.random() * k)` at that moment;
-- `assignment_missing n` says that it finds no such assignment in Identity Center. `accounts_in_ou
-- n ou` lists the accounts (their ids, where they have one) that Organizations finds in a unit at
-- that moment. `assignment_is_valid`, `lease_is_valid`, `lock_is_valid`, `desired_are_valid` and
-- `account_is_valid` are what the zod schemas accept of the assignment records, of the leases, of
-- their locks and lists of assignments, and of the accounts but for the status.
-- `lease_key_of` is the owner's email and the uuid that a path label decodes to, if it does and
-- the key is a valid one; `group_ids_of` is the cached membership of a user, and `created_time_of`
-- the creation stamp in the metadata of the lease with a uuid, which no write changes;
-- `template_of` and `is_private_template` are the lease templates with their visibility, and
-- `idc_user_of` the user of Identity Center with an email. `administration_accounts` are the ids
-- of the accounts that the sandbox itself runs in. `blueprint_exists` says that a blueprint is on
-- record with a stack set, and `blueprint_is_valid` that the stack set can be deployed.
pub record Env : Type 0 where
  pub fails : ℕ → Bool
  pub clock : ℕ → ℕ
  pub uuid_at : ℕ → String
  pub random_index : ℕ → ℕ → ℕ
  pub assignment_missing : ℕ → Bool
  pub assignment_is_valid : Assignment → Bool
  pub lease_is_valid : Lease → Bool
  pub lock_is_valid : Lock → Bool
  pub desired_are_valid : List DesiredAssignment → Bool
  pub account_is_valid : Account → Bool
  pub to_lower_case : String → String
  pub user_id_of : String → Option String
  pub principal_id_of : String → Option String
  pub principal_of : String → Option Principal
  pub blueprint_exists : String → Bool
  pub blueprint_is_valid : String → Bool
  pub organization_account : String → Option (Option String × Option String)
  pub max_leases_per_user : ℕ
  pub ttl_days : ℕ
  pub user_permission_set_arn : String
  pub rules : LeaseRules
  pub lease_key_of : String → Option (String × String)
  pub group_ids_of : String → List String
  pub created_time_of : String → Option ℕ
  pub template_of : String → Option LeaseTemplate
  pub is_private_template : String → Bool
  pub idc_user_of : String → Option IsbUser
  pub administration_accounts : List String
  pub accounts_in_ou : ℕ → Ou → List (Option String)

pub record World : Type 0 where
  pub env : Env
  pub open env use *
  pub ticks : ℕ
  pub leases : List Lease
  pub accounts : List Account
  pub assignments : List Assignment
  -- the newest first
  pub sent : List Call

abbrev pub tick : World → World
tick w = record w { ticks = w.ticks + 1 }

-- One call of a service, which may throw.
unfoldable pub remote : Action World (Unit {0})
remote w = if w.fails w.ticks then (err remote_failure, tick w) else (ok tt, tick w)

-- A call that, if the service accepts it, changes the service's state.
unfoldable pub send : Call → Action World (Unit {0})
send c = do remote; modify (λ w. record w { sent = c ∷ w.sent })

abbrev pub time : World → ℕ
time w = w.clock w.ticks

-- `String.prototype.endsWith`
unfoldable pub ends_with : String → String → Bool
ends_with String.[] suffix = str_eq String.[] suffix
ends_with (String.◌∷◌ c s) suffix = str_eq (String.◌∷◌ c s) suffix || ends_with s suffix

-- `isSyntheticM2mEmail` of source/shared/utils/auth-utils.ts
unfoldable pub is_synthetic_m2m_email : Env → String → Bool
is_synthetic_m2m_email env email = ends_with (env.to_lower_case email) "@automation.local"
