-- ===== src/Drift/Tests.antt =====
-- Account 111 was drifting at the last scan and still is, account 222 is where its record says, and
-- account 333 has no record.
use innovation_sandbox_on_aw.Common.{
  ◌≡◌, refl, String, true, Option, none, some, [], ◌∷◌, List, any, ◌≤◌, arith,
}
use innovation_sandbox_on_aw.Types.{Account, Ou, active, available, frozen, quarantine}
use innovation_sandbox_on_aw.Outcome.{◌>>=◌}
use innovation_sandbox_on_aw.Table.{put, count}
use innovation_sandbox_on_aw.AccountStore.{has_id}
use innovation_sandbox_on_aw.AccountStore.Laws.{account_in}
use innovation_sandbox_on_aw.World.{World, remote}
use innovation_sandbox_on_aw.World.Triple.{view, Ended}
use innovation_sandbox_on_aw.Sandbox.Tests.{start, env, account}
use innovation_sandbox_on_aw.Drift.{
  OuMap, discover_in, set_all, drift_status, drift_tasks, do_account_drift_monitoring,
}
use innovation_sandbox_on_aw.Drift.Alerts.{alerts, drift_tasks-alerts}
use innovation_sandbox_on_aw.Drift.Marks.{flag_in, drift_flag, do_account_drift_monitoring_lem}

abbrev listed : Ou → List (Option String)
listed available = some "222" ∷ []
listed frozen = some "111" ∷ none ∷ []
listed quarantine = some "333" ∷ []
listed _ = []

abbrev accounts : List Account
accounts =
    record (account "111" active) { drift_at_last_scan = true } ∷ account "222" available ∷ []

abbrev world : World
world = record start {
  accounts = accounts;
  env = record env { accounts_in_ou = λ n ou. listed ou };
}

abbrev ous : OuMap
ous = ("222", available) ∷ ("333", quarantine) ∷ ("111", frozen) ∷ []

do_account_drift_monitoring_lem_example :
    Ended
      (λ _ v.
        (id : String)
        → count (has_id id) world.accounts ≤ 1
        → flag_in v id ≡ drift_flag ous id (account_in (view world) id))
      (λ _ _. Unit {0})
      (do_account_drift_monitoring world)
unfolding discover_in set_all put remote ◌>>=◌
do_account_drift_monitoring_lem_example = do_account_drift_monitoring_lem world ous refl

drift_tasks-alerts_example : any (alerts "111") (drift_tasks (drift_status ous accounts)) ≡ true
drift_tasks-alerts_example = drift_tasks-alerts ous accounts "111" (omega arith) (omega arith)
