-- ===== src/Sandbox/Tests.antt =====
-- One user with one lease on one account; a second account is free.
use innovation_sandbox_on_aw.Common.{
  ◌*◌, ◌==◌, ◌≤◌, eq_iff, subst, ◌≡◌, refl, ◌⊎◌, inl, inr, String, true, false, none, some, [], ◌∷◌,
  arith, Bool-cases, str_eq,
}
use innovation_sandbox_on_aw.Types.{
  Lease, LeaseTemplate, LeaseStatus, Account, Ou, is_active_lease, is_frozen_lease, user_terminated,
}
use innovation_sandbox_on_aw.Outcome.{remote_failure, no_accounts_available, rollback_failed, ◌>>=◌}
use innovation_sandbox_on_aw.Auth.{IsbUser, idc_user, user_role}
use innovation_sandbox_on_aw.Events.{FrozenReason, manually_frozen}
use innovation_sandbox_on_aw.Transaction.{complete, begin_transaction, rollback_transaction}
use innovation_sandbox_on_aw.Table.{count}
use innovation_sandbox_on_aw.LeaseStore.Laws.{lease_in}
use innovation_sandbox_on_aw.AccountStore.{
  has_id, is_account_status, move_account_to, put_account, transactional_move_account,
  transactional_assign_group_access,
}
use innovation_sandbox_on_aw.Sandbox.Freeze.{freeze_lease, unfreeze_lease}
use innovation_sandbox_on_aw.Sandbox.Freeze.Laws.{FreezeDone, FreezeFailed, freeze_lease_lem}
use innovation_sandbox_on_aw.Sandbox.Freeze.Unfreeze.{Thawed, UnfreezeFailed, unfreeze_lease_lem}
use innovation_sandbox_on_aw.Sandbox.Approve.{acquire_available_account}
use innovation_sandbox_on_aw.Sandbox.Approve.Cooldown.{
  IsPreferred, available_in, acquire_available_account_lem,
}
use innovation_sandbox_on_aw.Sandbox.Request.{request_lease, settle_request}
use innovation_sandbox_on_aw.Sandbox.Request.Laws.{
  Waiting, NotRequested, request_lease_lem, settle_request_lem,
}
use innovation_sandbox_on_aw.AccountStore.Laws.{account_in}
use innovation_sandbox_on_aw.Sandbox.Parts.{account_id}
use innovation_sandbox_on_aw.Sandbox.Terminate.{terminate_lease}
use innovation_sandbox_on_aw.Sandbox.Terminate.Pieces.{TerminateFailed}
use innovation_sandbox_on_aw.Sandbox.Terminate.Laws.{TerminateDone, terminate_lease_lem}
use innovation_sandbox_on_aw.Sandbox.Pool.Laws.{register_account_move}
use innovation_sandbox_on_aw.Sandbox.Effects.Requests.{freeze, unfreeze, terminate, serve_all}
use innovation_sandbox_on_aw.Sandbox.Effects.Invariants.{IsWellFormed, serve_all-IsWellFormed}
use innovation_sandbox_on_aw.World.{World, Env, manager, send, remote}
use innovation_sandbox_on_aw.World.Triple.{view, Ended}

abbrev pub env : Env
env = record {
  fails = λ n. false;
  clock = λ n. 1000 * n;
  uuid_at = λ n. "u";
  random_index = λ n k. 0;
  assignment_missing = λ n. false;
  assignment_is_valid = λ a. true;
  lease_is_valid = λ x. true;
  lock_is_valid = λ x. true;
  desired_are_valid = λ x. true;
  account_is_valid = λ x. true;
  to_lower_case = λ s. s;
  user_id_of = λ email. some "ann-id";
  principal_id_of = λ email. some "ann-id";
  principal_of = λ id. some (record { email = some "ann@corp"; display_name = some "Ann" });
  blueprint_exists = λ b. false;
  blueprint_is_valid = λ b. false;
  organization_account = λ id. some (none, none);
  max_leases_per_user = 2;
  ttl_days = 30;
  user_permission_set_arn = "arn";
  rules = record {
    lease_sharing_enabled = true;
    allow_user_lease_termination = true;
    groups_enabled = true;
    max_budget = 100;
    require_max_budget = false;
    max_duration_hours = 48;
    require_max_duration = false;
    require_cost_report_group = false;
    cost_report_groups = [];
    lease_request_window_hours = 24;
    max_lease_requests_per_window = 2;
  };
  lease_key_of = λ id. some ("ann@corp", "l1");
  group_ids_of = λ id. [];
  created_time_of = λ uuid. none;
  template_of = λ uuid. none;
  is_private_template = λ uuid. false;
  idc_user_of = λ email. none;
  administration_accounts = "999" ∷ [];
  accounts_in_ou = λ n ou. [];
}

abbrev pub lease : Lease
lease = record {
  user_email = "ann@corp";
  uuid = "l1";
  status = LeaseStatus.active;
  template_uuid = "t1";
  template_name = "small";
  comments = none;
  created_by = some "ann@corp";
  blueprint_id = none;
  blueprint_name = none;
  max_spend = some 50;
  lease_duration_in_hours = some 24;
  budget_thresholds = none;
  duration_thresholds = none;
  cost_report_group = none;
  allow_owner_to_share_lease = none;
  desired_assignments = some [];
  resource_lock = none;
  aws_account_id = some "111";
  approved_by = some "AUTO_APPROVED";
  start_date = some 0;
  expiration_date = some 86400000;
  last_checked_date = some 0;
  total_cost_accrued = 0;
  end_date = none;
  ttl = none;
  last_edit_time = some 0;
}

abbrev pub account : String → Ou → Account
account id ou = record {
  aws_account_id = id;
  email = none;
  name = none;
  last_cleanup_completed_at = none;
  current_lease = none;
  status = ou;
  drift_at_last_scan = false;
  resource_lock = none;
  last_edit_time = none;
}

abbrev pub start : World
start = record {
  env = env;
  ticks = 0;
  leases = lease ∷ [];
  accounts = account "111" Ou.active ∷ account "222" Ou.available ∷ [];
  assignments = [];
  sent = [];
}

abbrev reason : FrozenReason
reason = manually_frozen "spend"

abbrev frozen_one : Lease
frozen_one = record lease { status = LeaseStatus.frozen }

abbrev template : LeaseTemplate
template = record {
  uuid = "t1";
  name = "small";
  requires_approval = true;
  cost_report_group = none;
  blueprint_id = none;
  blueprint_name = none;
  allow_owner_to_share_lease = none;
  max_spend = some 50;
  budget_thresholds = none;
  lease_duration_in_hours = some 24;
  duration_thresholds = none;
}

abbrev ann : IsbUser
ann = idc_user "ann@corp" "ann-id" (user_role ∷ [])

pub start-IsWellFormed : IsWellFormed (view start)
unfolding is_account_status
start-IsWellFormed = record {
  lease_keys = λ email uuid. ground arith;
  account_ids = λ id. elim (Bool-cases (str_eq "111" id)) [
    | inl e ↦ subst (λ i. count (has_id i) start.accounts ≤ 1) ((eq_iff "111" id).0 e) (omega arith)
    | inr e ↦ ground (arith, e)
  ];
  statuses = (refl, (refl, tt));
}

serve_all-IsWellFormed_example : IsWellFormed (
    view (
      serve_all
        (freeze lease reason ∷ unfreeze frozen_one ∷ terminate lease user_terminated true ∷ [])
        start))
serve_all-IsWellFormed_example =
    serve_all-IsWellFormed
      (freeze lease reason ∷ unfreeze frozen_one ∷ terminate lease user_terminated true ∷ []) start
      start-IsWellFormed

freeze_lease_lem_example :
    Ended
      (λ _ v. (is_active_lease lease ≡ true) × FreezeDone lease reason (view start) v)
      (FreezeFailed lease (view start))
      (freeze_lease lease reason start)
freeze_lease_lem_example = freeze_lease_lem lease reason start

unfreeze_lease_lem_example :
    Ended
      (λ _ v. (is_frozen_lease frozen_one ≡ true) × Thawed frozen_one (view start) v)
      (UnfreezeFailed frozen_one (view start))
      (unfreeze_lease frozen_one start)
unfreeze_lease_lem_example = unfreeze_lease_lem frozen_one start

request_lease_lem_example :
    Ended
      (Waiting template none ann none [] (view start))
      (NotRequested template none ann none [] (view start))
      (request_lease template none ann none [] start)
request_lease_lem_example = request_lease_lem template none ann none [] start refl

settle_request_lem_example :
    Ended
      (λ _ _. Unit {0})
      (λ e v. (e ≡ remote_failure) ⊎ (lease_in v lease.user_email lease.uuid ≡ none))
      (settle_request lease true start)
settle_request_lem_example = settle_request_lem lease start

acquire_available_account_lem_example :
    Ended
      (λ a v. (v ≡ view start) × IsPreferred 1000 (available_in (view start)) a)
      (λ e v.
        (v ≡ view start)
        × ((e ≡ remote_failure) ⊎ ((e ≡ no_accounts_available) × (available_in (view start) ≡ []))))
      (acquire_available_account start)
acquire_available_account_lem_example =
    acquire_available_account_lem start (λ n k positive. positive)

-- The third call of a service fails.
abbrev outage : World
outage = record start { env = record env { fails = λ n. n == 2 } }

register_account_move_example : rollback_failed ≡ rollback_failed
unfolding transactional_move_account transactional_assign_group_access move_account_to put_account
    is_account_status complete begin_transaction rollback_transaction ◌>>=◌ send remote
register_account_move_example =
    register_account_move (account "333" Ou.clean_up)
      (transactional_assign_group_access "333" manager ∷ []) outage _ rollback_failed refl refl

terminate_lease_lem_example :
    Ended
      (λ _ v.
        (a : Account) × (account_in (view start) (account_id lease) ≡ some a)
        × TerminateDone lease user_terminated (view start) a true v)
      (TerminateFailed lease user_terminated (view start))
      (terminate_lease lease user_terminated true start)
terminate_lease_lem_example = terminate_lease_lem lease user_terminated true start

-- The move of the account fails after the lease was written.
abbrev interrupted : World
interrupted = record start { env = record env { fails = λ n. n == 1 } }
