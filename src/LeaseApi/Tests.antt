-- ===== src/LeaseApi/Tests.antt =====
-- Requests about the lease of one user, after it has run out and while it is active.
use innovation_sandbox_on_aw.Common.{
  ◌≡◌, refl, ap, String, true, false, none, some, List, [], ◌∷◌, arith, inl, inr, Among, str_eq,
}
use innovation_sandbox_on_aw.Table.{count}
use innovation_sandbox_on_aw.Types.{Lease, ended, expired, user, update}
use innovation_sandbox_on_aw.Auth.{IsbUser, idc_user, user_role, get_user_email}
use innovation_sandbox_on_aw.World.{World, Assignment, time}
use innovation_sandbox_on_aw.Reconciliation.{Message}
use innovation_sandbox_on_aw.World.Triple.{view, Ended}
use innovation_sandbox_on_aw.Sandbox.Tests.{start, env, lease}
use innovation_sandbox_on_aw.LeaseApi.Ended.{freeze, terminate, run, ended_lease_stays}
use innovation_sandbox_on_aw.LeaseApi.Hidden.{IsForbidden, owner_only_lem}
use innovation_sandbox_on_aw.LeaseApi.RateLimit.{enforce_lease_request_rate_limit}
use innovation_sandbox_on_aw.LeaseApi.RateLimit.Enforced.{
  Allowed, TooMany, enforce_lease_request_rate_limit_lem,
}
use innovation_sandbox_on_aw.LeaseApi.Views.{
  AssignmentView, granting, status_for_assigned, status_for_unassigned, no_access_expected,
  view_from_desired, view_from_assignment, views_during, is_owner_record, derive_assignment_view,
}
use innovation_sandbox_on_aw.LeaseApi.Views.Agrees.{
  status_of_action, worker_action, lease_when_processed, is_listed_in,
  derive_assignment_view-worker_action,
}
use innovation_sandbox_on_aw.LeaseApi.Views.Shown.{count-derive_assignment_view}

abbrev over : Lease
over = record lease { status = ended expired }

abbrev later : World
later = record start { leases = over ∷ [] }

abbrev ann : IsbUser
ann = idc_user "ann@corp" "ann-id" (user_role ∷ [])

abbrev bob : IsbUser
bob = idc_user "bob@corp" "bob-id" (user_role ∷ [])

ended_lease_stays_example : view (run (freeze ann "id") later).1 ≡ view later
ended_lease_stays_example =
    ended_lease_stays (freeze ann "id") "ann@corp" "l1" over expired later refl refl refl

owner_only_lem_example :
    Ended (λ _ _. ⊥) (IsForbidden (view start)) (run (terminate bob "id") start)
unfolding get_user_email
owner_only_lem_example =
    owner_only_lem (terminate bob "id") bob "ann@corp" "l1" start refl refl refl refl

-- Two leases were requested within the day, which is as many as may be.
abbrev busy : World
busy = record start {
  ticks = 10;
  leases = lease ∷ record lease { uuid = "l2" } ∷ [];
  env = record env { created_time_of = λ uuid. some 5000 };
}

enforce_lease_request_rate_limit_lem_example :
    Ended
      (λ _. Allowed ann "ann@corp" (time busy) (view busy))
      (TooMany ann "ann@corp" (time busy) (view busy))
      (enforce_lease_request_rate_limit ann "ann@corp" busy)
enforce_lease_request_rate_limit_lem_example =
    enforce_lease_request_rate_limit_lem ann "ann@corp" busy (omega arith)

-- One principal is to get access and another is to lose it, while the lease is locked for that.
abbrev shared : Lease
shared = record lease {
  desired_assignments = some (
      record {
        principal_id = "bob-id";
        principal_type = user;
        email = some "bob@corp";
        display_name = none;
      }
      ∷ []);
  resource_lock =
      some (record { owner_id = "o"; acquired_at = 50; expires_at = 900; intent = some update });
}

abbrev records : List Assignment
records =
    record {
      principal_id = "cid-id";
      principal_type = user;
      lease_id = "l1";
      display_name = none;
      assignee_email = some "cid@corp";
      lease_owner_email = "ann@corp";
      account_id = "111";
      added_by = "ann@corp";
    }
    ∷ []

abbrev message : String → Message
message id = record {
  lease_id = "l1";
  intent = update;
  requested_by = "ann@corp";
  principal_id = id;
  principal_type = user;
  account_id = "111";
  lease_owner_email = "ann@corp";
  email = none;
  display_name = none;
}

not_owned :
    (a : Assignment)
    → Among a records
    → is_owner_record shared a ≡ true
    → is_listed_in shared a.principal_id ≡ true
not_owned a (inl same) owned =
    let other : is_owner_record shared a ≡ false = ap (is_owner_record shared) same in absurd cc
not_owned a (inr h) owned = absurd h

abbrev bob_view : AssignmentView
bob_view = record {
  principal_id = "bob-id";
  principal_type = user;
  display_name = "bob@corp";
  assignee_email = some "bob@corp";
  added_by = none;
  is_owner = false;
  is_desired = true;
  sync_status = granting;
}

derive_assignment_view-worker_action_example :
    granting
    ≡ status_of_action
        (worker_action (message "bob-id") (lease_when_processed update shared) false)
        false
unfolding derive_assignment_view views_during view_from_assignment view_from_desired
    status_for_unassigned status_for_assigned no_access_expected
derive_assignment_view-worker_action_example =
    derive_assignment_view-worker_action shared records 100 (message "bob-id") refl not_owned
      bob_view (inr (inl refl)) refl

count-derive_assignment_view_example :
    count
      (λ (v : AssignmentView). str_eq v.principal_id "bob-id")
      (derive_assignment_view shared records 100).0
    ≡ 1
count-derive_assignment_view_example = count-derive_assignment_view shared records 100 "bob-id"
