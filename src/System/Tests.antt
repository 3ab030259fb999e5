-- ===== src/System/Tests.antt =====
-- A lease is frozen over the API and its access revoked, an account is quarantined, and the units
-- are scanned.
use innovation_sandbox_on_aw.Common.{refl, arith, ◌∷◌, [], some, none}
use innovation_sandbox_on_aw.Types.{Intent, user}
use innovation_sandbox_on_aw.Auth.{IsbUser, idc_user, manager_role}
use innovation_sandbox_on_aw.World.{World}
use innovation_sandbox_on_aw.World.Triple.{view}
use innovation_sandbox_on_aw.Reconciliation.{Message, grant_record}
use innovation_sandbox_on_aw.Sandbox.Tests.{start, start-IsWellFormed}
use innovation_sandbox_on_aw.System.Effects.Records.{IsConsistent}
use innovation_sandbox_on_aw.LeaseApi.Ended.{freeze}
use innovation_sandbox_on_aw.System.{
  lease_operation, account_quarantine, drift_scan, work_item, invoke_all,
}
use innovation_sandbox_on_aw.System.Effects.{invoke_all-IsConsistent}

abbrev mia : IsbUser
mia = idc_user "mia@corp" "mia-id" (manager_role ∷ [])

abbrev message : Message
message = record {
  lease_id = "l1";
  intent = Intent.freeze;
  requested_by = "SYSTEM";
  principal_id = "ann-id";
  principal_type = user;
  account_id = "111";
  lease_owner_email = "ann@corp";
  email = some "ann@corp";
  display_name = none;
}

-- The access that is revoked is on record.
abbrev granted : World
granted = record start { assignments = grant_record message ∷ [] }

granted-IsConsistent : IsConsistent (view granted)
unfolding grant_record
granted-IsConsistent = record {
  tables = record {
    lease_keys = start-IsWellFormed.lease_keys;
    account_ids = start-IsWellFormed.account_ids;
    statuses = start-IsWellFormed.statuses;
  };
  record_keys = λ m. ground arith;
  valid_records = (refl, tt);
}

invoke_all-IsConsistent_example : IsConsistent (
    view (
      invoke_all
        (lease_operation (freeze mia "id")
          ∷ work_item message
          ∷ account_quarantine "222"
          ∷ drift_scan
          ∷ [])
        granted))
invoke_all-IsConsistent_example =
    invoke_all-IsConsistent
      (lease_operation (freeze mia "id")
        ∷ work_item message
        ∷ account_quarantine "222"
        ∷ drift_scan
        ∷ [])
      granted granted-IsConsistent
