-- ===== src/Drift.antt =====
-- source/lambdas/account-management/account-drift-monitoring/src: accounts that are in another
-- organizational unit than their records say. Logging is left out.
pub mod Alerts
pub mod Marks
mod Tests
use innovation_sandbox_on_aw.Common.{
  String, Bool, true, false, not, ◌||◌, Option, none, some, List, [], ◌∷◌, ◌++◌, map, find, keep,
  str_eq, if◌then◌else◌,
}
use innovation_sandbox_on_aw.Types.{
  Account, Ou, available, active, clean_up, quarantine, frozen, entry, exit,
}
use innovation_sandbox_on_aw.Outcome.{Result, ok, err, Action, pure, gets, ◌>>=◌, ◌>>◌}
use innovation_sandbox_on_aw.Events.{account_drift_detected_alert}
use innovation_sandbox_on_aw.Table.{put, erase}
use innovation_sandbox_on_aw.AccountStore.{put_account, same_ou}
use innovation_sandbox_on_aw.World.{World, remote, send, put_event}

-- `Map<string, IsbOu>`: the unit in which an account was found.
abbrev pub OuMap : Type 0
OuMap = List (String × Ou)

abbrev pub is_key : String → String × Ou → Bool
is_key id e = str_eq e.0 id

abbrev pub ou_of : Option (String × Ou) → Option Ou
ou_of none = none
ou_of (some e) = some e.1

abbrev pub get_ou : String → OuMap → Option Ou
get_ou id m = ou_of (find (is_key id) m)

-- IsbOuSchema.options
abbrev pub isb_ous : List Ou
isb_ous = available ∷ active ∷ clean_up ∷ quarantine ∷ frozen ∷ entry ∷ exit ∷ []

-- The inner loop of `discoverAllAccountsInOUs`.
unfoldable pub set_all : Ou → List (Option String) → OuMap → OuMap
set_all ou [] m = m
set_all ou (none ∷ ids) m = set_all ou ids m
set_all ou (some id ∷ ids) m = set_all ou ids (put (is_key id) (id, ou) m)

-- `discoverAllAccountsInOUs`, from the units that are left.
unfoldable pub discover_in : List Ou → OuMap → Action World OuMap
unfolding set_all
discover_in [] m = pure m
discover_in (ou ∷ ous) m = do
  remote
  ids ← gets (λ w. w.accounts_in_ou w.ticks ou)
  discover_in ous (set_all ou ids m)

pub record DriftingAccount : Type 0 where
  pub account : Account
  pub actual_ou : Option Ou
  pub expected_ou : Ou

pub record DriftStatus : Type 0 where
  pub accounts_not_in_drift : List Account
  pub accounts_in_drift : List DriftingAccount
  pub untracked_accounts : OuMap

-- `account.status == actualOu`
abbrev pub is_in : Ou → Option Ou → Bool
is_in ou none = false
is_in ou (some actual) = same_ou ou actual

-- The loop of `detectDriftStatus` over the accounts that are left, with the map that is left.
unfoldable pub drift_status : OuMap → List Account → DriftStatus
drift_status m [] = record {
  accounts_not_in_drift = [];
  accounts_in_drift = [];
  untracked_accounts = m;
}
drift_status m (a ∷ accounts) =
    let actual = get_ou a.aws_account_id m in
    let rest = drift_status (erase (is_key a.aws_account_id) m) accounts in
    if not (is_in a.status actual)
    then record rest {
      accounts_in_drift =
          record { account = a; actual_ou = actual; expected_ou = a.status }
          ∷ rest.accounts_in_drift;
    }
    else record rest { accounts_not_in_drift = a ∷ rest.accounts_not_in_drift }

-- `detectDriftStatus`; the accounts are read to the last page.
unfoldable pub detect_drift_status : Action World DriftStatus
detect_drift_status = do
  m ← discover_in isb_ous []
  remote
  accounts ← gets (λ w. w.accounts)
  pure (drift_status m accounts)

-- What is pushed on the list of promises.
pub data Task : Type 0 where
  alert : (account_id : String) (expected_ou actual_ou : Option Ou) → Task
  mark : Account → (drift_at_last_scan : Bool) → Task

abbrev pub is_expected_untracked : Ou → Bool
is_expected_untracked entry = true
is_expected_untracked exit = true
is_expected_untracked _ = false

abbrev pub alert_drifting : DriftingAccount → Task
alert_drifting d = alert d.account.aws_account_id (some d.expected_ou) d.actual_ou

abbrev pub alert_untracked : String × Ou → Task
alert_untracked e = alert e.0 none (some e.1)

-- The four loops of `doAccountDriftMonitoring`.
abbrev pub confirmed_tasks : DriftStatus → List Task
confirmed_tasks s =
    map alert_drifting
      (keep (λ (d : DriftingAccount). d.account.drift_at_last_scan) s.accounts_in_drift)

abbrev pub new_tasks : DriftStatus → List Task
new_tasks s =
    map (λ (d : DriftingAccount). mark d.account true)
      (keep (λ (d : DriftingAccount). not d.account.drift_at_last_scan) s.accounts_in_drift)

abbrev pub ended_tasks : DriftStatus → List Task
ended_tasks s =
    map (λ a. mark a false) (keep (λ (a : Account). a.drift_at_last_scan) s.accounts_not_in_drift)

abbrev pub untracked_tasks : DriftStatus → List Task
untracked_tasks s =
    map alert_untracked (keep (λ e. not (is_expected_untracked e.1)) s.untracked_accounts)

unfoldable pub drift_tasks : DriftStatus → List Task
drift_tasks s = confirmed_tasks s ++ (new_tasks s ++ (ended_tasks s ++ untracked_tasks s))

abbrev pub marked : Account → Bool → Account
marked a b = record a { drift_at_last_scan = b }

unfoldable pub perform : Task → Action World (Unit {0})
perform (alert id expected actual) =
    send (put_event (account_drift_detected_alert id expected actual))
perform (mark a b) = put_account (marked a b) >> pure tt

abbrev pub first_error : Result (Unit {0}) → Result (Unit {0}) → Result (Unit {0})
first_error (ok _) r = r
first_error (err e) r = err e

-- `Promise.all`: all calls are on their way before one can fail, so that each of them is made. They
-- run at the same time; here they run one after the other, and the first error in the list is thrown.
unfoldable pub perform_all : List Task → Action World (Unit {0})
unfolding perform
perform_all [] w = (ok tt, w)
perform_all (t ∷ ts) w =
    let (r, w') = perform t w in let (r', w'') = perform_all ts w' in (first_error r r', w'')

-- `doAccountDriftMonitoring`
unfoldable pub do_account_drift_monitoring : Action World (Unit {0})
unfolding drift_tasks
do_account_drift_monitoring = do status ← detect_drift_status; perform_all (drift_tasks status)
