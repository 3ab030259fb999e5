-- ===== src/Reconciliation/Tests.antt =====
-- Ann is among the assignments of a lease that she has no access to yet.
use innovation_sandbox_on_aw.Common.{◌≡◌, refl, none, some, [], ◌∷◌}
use innovation_sandbox_on_aw.Types.{publish, user}
use innovation_sandbox_on_aw.Reconciliation.{
  Message, settle_assignment, resolve_assignment_action, assignment_record_exists,
  should_principal_have_access, process_assignment, execute_grant, persist_grant_record,
  determine_action, grant_record,
}
use innovation_sandbox_on_aw.LeaseLock.{is_critical}
use innovation_sandbox_on_aw.LeaseStore.{get_lease}
use innovation_sandbox_on_aw.Table.{put}
use innovation_sandbox_on_aw.Outcome.{◌>>=◌}
use innovation_sandbox_on_aw.Reconciliation.Laws.{
  Settled, NotSettled, settle_assignment_lem, settle_assignment_again,
}
use innovation_sandbox_on_aw.World.{World, remote, send}
use innovation_sandbox_on_aw.World.Triple.{view, Ended}
use innovation_sandbox_on_aw.Sandbox.Tests.{start, lease}

abbrev world : World
world = record start {
  leases =
      record lease {
        desired_assignments = some (
            record {
              principal_id = "ann-id";
              principal_type = user;
              display_name = none;
              email = some "ann@corp";
            }
            ∷ []);
      }
      ∷ [];
}

abbrev message : Message
message = record {
  lease_id = "l1";
  intent = publish;
  requested_by = "ann@corp";
  principal_id = "ann-id";
  principal_type = user;
  account_id = "111";
  lease_owner_email = "ann@corp";
  email = some "ann@corp";
  display_name = some "Ann";
}

settle_assignment_lem_example :
    Ended
      (λ _ v. Settled message (view world) v)
      (λ _ v. NotSettled message (view world) v)
      (settle_assignment message world)
settle_assignment_lem_example = settle_assignment_lem message world

settle_assignment_again_example :
    view (settle_assignment message (settle_assignment message world).1).1
    ≡ view (settle_assignment message world).1
unfolding settle_assignment resolve_assignment_action assignment_record_exists
    should_principal_have_access process_assignment execute_grant persist_grant_record
    determine_action grant_record is_critical get_lease put remote send ◌>>=◌
settle_assignment_again_example =
    settle_assignment_again message world (settle_assignment message world).1 refl refl
