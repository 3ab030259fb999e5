-- ===== src/Processor/Tests.antt =====
-- One lease that wants access for one principal, and a record of another one.
use innovation_sandbox_on_aw.Common.{◌≡◌, refl, none, some, [], ◌∷◌, List}
use innovation_sandbox_on_aw.Types.{publish, user}
use innovation_sandbox_on_aw.Outcome.{◌>>=◌, remote_failure}
use innovation_sandbox_on_aw.LeaseLock.{is_critical}
use innovation_sandbox_on_aw.LeaseStore.{get_lease}
use innovation_sandbox_on_aw.LeaseStore.Laws.{released}
use innovation_sandbox_on_aw.Table.{put, erase}
use innovation_sandbox_on_aw.World.{World, remote, send}
use innovation_sandbox_on_aw.World.Triple.{view, Ended}
use innovation_sandbox_on_aw.Sandbox.Tests.{start, lease}
use innovation_sandbox_on_aw.Sandbox.{send_events}
use innovation_sandbox_on_aw.Reconciliation.{
  settle_assignment, resolve_assignment_action, assignment_record_exists,
  should_principal_have_access, process_assignment, execute_grant, execute_revoke,
  persist_grant_record, determine_action, grant_record,
}
use innovation_sandbox_on_aw.Processor.{
  FanOutInput, CompletionInput, WorkItem, handle_fan_out, get_assignments_for_lease,
  build_work_items, union_items, completion_events, desired_principal_ids, handle_completion,
  complete_assignments,
}
use innovation_sandbox_on_aw.Processor.Settled.{
  message_of, settle_all, Swept, handle_fan_out-settle_all,
}
use innovation_sandbox_on_aw.Processor.Completion.{
  Announced, handle_completion_lem, handle_completion-release_lock,
}

abbrev world : World
world = record start {
  leases =
      record lease {
        desired_assignments = some (
            record {
              principal_id = "ann-id";
              principal_type = user;
              display_name = none;
              email = some "ann@corp";
            }
            ∷ []);
      }
      ∷ [];
  assignments =
      record {
        principal_id = "bob-id";
        principal_type = user;
        lease_id = "l1";
        display_name = none;
        assignee_email = some "bob@corp";
        lease_owner_email = "ann@corp";
        account_id = "111";
        added_by = "ann@corp";
      }
      ∷ [];
}

abbrev input : FanOutInput
input = record {
  lease_id = "l1";
  intent = publish;
  lock_owner_id = "publish-u";
  lease_owner_email = "ann@corp";
  requested_by = "ann@corp";
}

abbrev items : List WorkItem
items =
    record {
      principal_id = "ann-id";
      principal_type = user;
      display_name = "";
      email = "ann@corp";
      permission_set_arn = "arn";
    }
    ∷ record {
      principal_id = "bob-id";
      principal_type = user;
      display_name = "bob@corp";
      email = "bob@corp";
      permission_set_arn = "arn";
    }
    ∷ []

handle_fan_out-settle_all_example : Swept input world (handle_fan_out input world).1 items "111"
unfolding handle_fan_out get_assignments_for_lease build_work_items union_items settle_all
    message_of settle_assignment resolve_assignment_action assignment_record_exists
    should_principal_have_access process_assignment execute_grant execute_revoke
    persist_grant_record determine_action grant_record is_critical get_lease put erase remote send
    ◌>>=◌
handle_fan_out-settle_all_example =
    handle_fan_out-settle_all input world (handle_fan_out input world).1 items "111" ("bob-id" ∷ [])
      refl refl refl

abbrev completion : CompletionInput
completion = record {
  request = input;
  account_id = "111";
  fanned_out =
      record { principal_id = "ann-id"; principal_type = user }
      ∷ record { principal_id = "bob-id"; principal_type = user }
      ∷ [];
  pre_existing = "bob-id" ∷ [];
}

handle_completion_lem_example :
    Ended
      (λ es v. Announced completion (view world) es v)
      (λ e v. e ≡ remote_failure)
      (handle_completion completion world)
handle_completion_lem_example = handle_completion_lem completion world

handle_completion-release_lock_example :
    (handle_completion completion world).1.leases
    ≡ (released "ann@corp" "l1" "publish-u" (view world)).leases
unfolding complete_assignments ◌>>=◌ get_lease remote get_assignments_for_lease send_events
    completion_events desired_principal_ids is_critical
handle_completion-release_lock_example = handle_completion-release_lock completion world refl
