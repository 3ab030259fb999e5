-- ===== src/Drift/Marks.antt =====
-- What a scan leaves on record.
use innovation_sandbox_on_aw.Common.{
  ℕ, ◌≤◌, ◌≡◌, refl, sym, ap, ◌∙◌, subst, String, Bool, true, false, not, ◌&&◌, Bool-cases, Option,
  none, some, ◌⊎◌, inl, inr, List, [], ◌∷◌, ◌++◌, map, find, keep, any, eq_iff, eq_refl, arith,
  if◌then◌else◌,
}
use innovation_sandbox_on_aw.Types.{Account, Ou}
use innovation_sandbox_on_aw.Outcome.{Result, ok, err, gets, bind-ok, bind-err, remote_failure}
use innovation_sandbox_on_aw.Table.{put, count, count-put, find-put, find-put_ne}
use innovation_sandbox_on_aw.AccountStore.{has_id, touched}
use innovation_sandbox_on_aw.AccountStore.Laws.{account_in, with_account, put_account-Triple}
use innovation_sandbox_on_aw.World.{World, remote, tick}
use innovation_sandbox_on_aw.World.Triple.{
  View, view, Ended, Triple, Triple-bind, Triple-map, Triple-pure, Triple-returned,
}
use innovation_sandbox_on_aw.World.Triple.Bind.{bind_gets, bind_remote}
use innovation_sandbox_on_aw.World.Frame.{send-Triple, remote-cases}
use innovation_sandbox_on_aw.Drift.{
  OuMap, is_key, isb_ous, set_all, discover_in, drift_status, DriftingAccount, Task, alert, mark,
  marked, first_error, perform, perform_all, drift_tasks, detect_drift_status, confirmed_tasks,
  new_tasks, ended_tasks, untracked_tasks, do_account_drift_monitoring, is_expected_untracked,
}
use innovation_sandbox_on_aw.Drift.Alerts.{drifts, for_record, tracked_lem}

abbrev pub flag_of : Option Account → Option Bool
flag_of none = none
flag_of (some a) = some a.drift_at_last_scan

-- The flag of the account's record, if it has one.
abbrev pub flag_in : View → String → Option Bool
flag_in g id = flag_of (account_in g id)

-- Whether the account that is on record, if one is, drifts.
abbrev pub drift_flag : OuMap → String → Option Account → Option Bool
drift_flag m id none = none
drift_flag m id (some a) = some (drifts m id a)

-- The flag after the tasks.
abbrev last_mark : String → List Task → Option Bool → Option Bool
last_mark id [] d = d
last_mark id (alert _ _ _ ∷ ts) d = last_mark id ts d
last_mark id (mark a b ∷ ts) d = last_mark id ts (if has_id id a then some b else d)

flag-put :
    (g : View) (a : Account) (b : Bool) (t : ℕ) (id : String)
    → flag_in (with_account (touched (marked a b) t) g) id
      ≡ (if has_id id a then some b else flag_in g id)
flag-put g a b t id = elim (Bool-cases (has_id id a)) [
  | inl e ↦ rw e (
      subst (λ x. flag_in (with_account (touched (marked a b) t) g) x ≡ some b)
        ((eq_iff a.aws_account_id id).0 e)
        (ap flag_of (
          find-put (has_id a.aws_account_id) (touched (marked a b) t) g.accounts
            (eq_refl a.aws_account_id))))
  | inr e ↦ rw e (
      ap flag_of (
        find-put_ne (has_id a.aws_account_id) (has_id id) (touched (marked a b) t) g.accounts e
          (λ x h. ground (
            arith,
            eq_iff x.aws_account_id a.aws_account_id,
            eq_iff x.aws_account_id id,
            eq_iff a.aws_account_id id,
          ))))
]

abbrev Marked : List Task → View → View → Type 0
Marked ts g v = (id : String) → flag_in v id ≡ last_mark id ts (flag_in g id)

perform-Triple :
    (t : Task) (g : View) → Triple g (λ _ v. Marked (t ∷ []) g v) (λ _ _. Unit {0}) (perform t)
unfolding perform
perform-Triple (alert id expected actual) g =
    Triple-map _ (send-Triple _ g) (λ _ v p id'. ap (λ (x : View). flag_in x id') p) (λ e v h. tt)
perform-Triple (mark a b) g =
    Triple-bind _ _ (put_account-Triple (marked a b) g) (λ e v h. tt)
      (λ r v (valid, (t, _, p)).
        Triple-pure tt (λ id. ap (λ (x : View). flag_in x id) p ∙ flag-put g a b t id))

last_mark-cons :
    (t : Task) (ts : List Task) (id : String) (d : Option Bool)
    → last_mark id ts (last_mark id (t ∷ []) d) ≡ last_mark id (t ∷ ts) d
last_mark-cons (alert _ _ _) ts id d = refl
last_mark-cons (mark a b) ts id d = refl

perform_all-Triple :
    (ts : List Task) (g : View) → Triple g (λ _ v. Marked ts g v) (λ _ _. Unit {0}) (perform_all ts)
unfolding perform_all
perform_all-Triple [] g = record { at = λ w p id. ap (λ (x : View). flag_in x id) p }
perform_all-Triple (t ∷ ts) g = record {
  at = λ w p. first (perform_all-Triple ts) (perform t w) ((perform-Triple t g).at w p);
}
  where
    second :
        (u : View) (r : Result (Unit {0}) × World)
        → Marked (t ∷ []) g u
        → Ended (λ _ v. Marked ts u v) (λ _ _. Unit {0}) r
        → Ended (λ _ v. Marked (t ∷ ts) g v) (λ _ _. Unit {0}) r
    second u (ok _, w) h k =
        λ id. k id ∙ ap (last_mark id ts) (h id) ∙ last_mark-cons t ts id (flag_in g id)
    second u (err e, w) h k = tt

    first :
        ((u : View) → Triple u (λ _ v. Marked ts u v) (λ _ _. Unit {0}) (perform_all ts))
        → (r : Result (Unit {0}) × World) → Ended (λ _ v. Marked (t ∷ []) g v) (λ _ _. Unit {0}) r
        → Ended
            (λ _ v. Marked (t ∷ ts) g v)
            (λ _ _. Unit {0})
            (first_error r.0 (perform_all ts r.1).0, (perform_all ts r.1).1)
    first rest (ok _, w) h = second (view w) (perform_all ts w) h ((rest (view w)).at w refl)
    first rest (err e, w) h = tt

last_mark-append :
    (id : String) (ts us : List Task) (d : Option Bool)
    → last_mark id (ts ++ us) d ≡ last_mark id us (last_mark id ts d)
last_mark-append id [] us d = refl
last_mark-append id (alert _ _ _ ∷ ts) us d = last_mark-append id ts us d
last_mark-append id (mark a b ∷ ts) us d =
    last_mark-append id ts us (if has_id id a then some b else d)

last_mark-alerts :
    {A : Type 0} (id_of : A → String) (expected actual : A → Option Ou) (id : String) (xs : List A)
    (d : Option Bool)
    → last_mark id (map (λ x. alert (id_of x) (expected x) (actual x)) xs) d ≡ d
last_mark-alerts id_of expected actual id [] d = refl
last_mark-alerts id_of expected actual id (x ∷ xs) d =
    last_mark-alerts id_of expected actual id xs d

-- A list that sets one flag sets it, or has no task for the account.
last_mark-marks :
    {A : Type 0} (account_of : A → Account) (b : Bool) (test : A → Bool) (id : String) (xs : List A)
    (d : Option Bool)
    → last_mark id (map (λ x. mark (account_of x) b) (keep test xs)) d
      ≡ (if any (λ x. has_id id (account_of x) && test x) xs then some b else d)
last_mark-marks account_of b test id [] d = refl
last_mark-marks account_of b test id (x ∷ xs) d = ground (
  arith,
  last_mark-marks account_of b test id xs (if has_id id (account_of x) then some b else d),
  last_mark-marks account_of b test id xs d,
)

-- The flags that a scan sets: whether the account drifts.
drift_tasks-flags :
    (m : OuMap) (accounts : List Account) (id : String)
    → count (has_id id) accounts ≤ 1
    → let found = find (has_id id) accounts in
      last_mark id (drift_tasks (drift_status m accounts)) (flag_of found) ≡ drift_flag m id found
unfolding drift_tasks
drift_tasks-flags m accounts id few =
    let s = drift_status m accounts in
    let found = find (has_id id) accounts in
    let new = (tracked_lem (λ a. not a.drift_at_last_scan) id m accounts few).0 in
    let ended = (tracked_lem (λ a. a.drift_at_last_scan) id m accounts few).1 in
    last_mark-append id (confirmed_tasks s) (new_tasks s ++ (ended_tasks s ++ untracked_tasks s))
      (flag_of found)
    ∙ ap (last_mark id (new_tasks s ++ (ended_tasks s ++ untracked_tasks s))) (
        last_mark-alerts (λ (d : DriftingAccount). d.account.aws_account_id)
          (λ (d : DriftingAccount). some d.expected_ou) (λ (d : DriftingAccount). d.actual_ou) id
          (keep (λ (d : DriftingAccount). d.account.drift_at_last_scan) s.accounts_in_drift)
          (flag_of found))
    ∙ last_mark-append id (new_tasks s) (ended_tasks s ++ untracked_tasks s) (flag_of found)
    ∙ ap (last_mark id (ended_tasks s ++ untracked_tasks s)) (
        last_mark-marks (λ (d : DriftingAccount). d.account) true
          (λ (d : DriftingAccount). not d.account.drift_at_last_scan) id s.accounts_in_drift
          (flag_of found)
        ∙ ap (λ b. if b then some true else flag_of found) new)
    ∙ last_mark-append id (ended_tasks s) (untracked_tasks s) (
        if for_record found (λ a. not a.drift_at_last_scan && drifts m id a) false
        then some true
        else flag_of found)
    ∙ last_mark-alerts (λ (e : String × Ou). e.0) (λ e. none) (λ (e : String × Ou). some e.1) id
        (keep (λ e. not (is_expected_untracked e.1)) s.untracked_accounts)
        (last_mark id (ended_tasks s) (
          if for_record found (λ a. not a.drift_at_last_scan && drifts m id a) false
          then some true
          else flag_of found))
    ∙ last_mark-marks (λ (a : Account). a) false (λ (a : Account). a.drift_at_last_scan) id
        s.accounts_not_in_drift
        (if for_record found (λ a. not a.drift_at_last_scan && drifts m id a) false
          then some true
          else flag_of found)
    ∙ ap
        (λ b.
          if b
          then some false
          else (if for_record found (λ a. not a.drift_at_last_scan && drifts m id a) false
              then some true
              else flag_of found))
        ended
    ∙ joined found
  where
    joined :
        (found : Option Account)
        → (if for_record found (λ a. a.drift_at_last_scan && not (drifts m id a)) false
            then some false
            else (if for_record found (λ a. not a.drift_at_last_scan && drifts m id a) false
                then some true
                else flag_of found))
          ≡ drift_flag m id found
    joined none = refl
    joined (some a) = ground arith

set_all-count :
    (ou : Ou) (ids : List (Option String)) (m : OuMap)
    → ((id : String) → count (is_key id) m ≤ 1)
    → (id : String) → count (is_key id) (set_all ou ids m) ≤ 1
unfolding set_all
set_all-count ou [] m h = h
set_all-count ou (none ∷ ids) m h = set_all-count ou ids m h
set_all-count ou (some x ∷ ids) m h = set_all-count ou ids (put (is_key x) (x, ou) m) (λ id.
    count-put (is_key x) (is_key id) (x, ou) m
      (λ e k. ground (arith, eq_iff e.0 x, eq_iff e.0 id, eq_iff x id))
      (λ e k k'. ground (arith, eq_iff e.0 x, eq_iff e.0 id, eq_iff x id)) (h id))

discover_in-Triple :
    (ous : List Ou) (m : OuMap) (g : View)
    → ((id : String) → count (is_key id) m ≤ 1)
    → Triple g
        (λ r v. (v ≡ g) × ((id : String) → count (is_key id) r ≤ 1))
        (λ e v. v ≡ g)
        (discover_in ous m)
unfolding discover_in
discover_in-Triple [] m g h = Triple-pure m (refl, h)
discover_in-Triple (ou ∷ ous) m g h = bind_remote _ refl (
    bind_gets _ _ (λ w p.
      discover_in-Triple ous (set_all ou (w.accounts_in_ou w.ticks ou) m) g
        (set_all-count ou (w.accounts_in_ou w.ticks ou) m h)))

-- The world after the units have been read.
module _ (w : World) (m : OuMap) (found : (discover_in isb_ous [] w).0 ≡ ok m) where
  abbrev after_discovery : World
  after_discovery = (discover_in isb_ous [] w).1

  discovered : discover_in isb_ous [] w ≡ (ok m, after_discovery)
  discovered = cc

  pub discovery_lem : (view after_discovery ≡ view w) × ((id : String) → count (is_key id) m ≤ 1)
  discovery_lem =
      Triple-returned (discover_in isb_ous []) w m
        (discover_in-Triple isb_ous [] (view w) (λ id. omega arith)) found

  -- The scan from there: the accounts are read, or that call fails.
  scan_cases :
      (do_account_drift_monitoring w
        ≡ perform_all
            (drift_tasks (drift_status m after_discovery.accounts))
            (tick after_discovery))
      ⊎ (do_account_drift_monitoring w ≡ (err remote_failure, tick after_discovery))
  unfolding do_account_drift_monitoring detect_drift_status
  scan_cases = elim (remote-cases after_discovery) [
    | inl up ↦ inl (
        bind-ok detect_drift_status _ w (tick after_discovery)
          (drift_status m after_discovery.accounts)
          (bind-ok (discover_in isb_ous []) _ w after_discovery m discovered
            ∙ bind-ok remote _ after_discovery (tick after_discovery) tt up
            ∙ bind-ok (gets (λ (x : World). x.accounts)) _ (tick after_discovery)
                (tick after_discovery) after_discovery.accounts refl))
    | inr down ↦ inr (
        bind-err detect_drift_status _ w (tick after_discovery) remote_failure (
          bind-ok (discover_in isb_ous []) _ w after_discovery m discovered
          ∙ bind-err remote _ after_discovery (tick after_discovery) remote_failure down))
  ]

-- If a scan returns, then every account that has one record is flagged from then on exactly if the
-- unit in which Organizations had it is not the one that its record names, and no account's record
-- has appeared or gone.
pub do_account_drift_monitoring_lem :
    (w : World) (m : OuMap)
    → (discover_in isb_ous [] w).0 ≡ ok m
    → Ended
        (λ _ v.
          (id : String)
          → count (has_id id) w.accounts ≤ 1
          → flag_in v id ≡ drift_flag m id (account_in (view w) id))
        (λ _ _. Unit {0})
        (do_account_drift_monitoring w)
do_account_drift_monitoring_lem w m found = elim (scan_cases w m found) [
  | inl p ↦ subst (Ended Flagged (λ _ _. Unit {0})) (sym p) (
      (Triple-map {Q' = Flagged} _ (perform_all-Triple tasks (view u)) (λ _ v h. flagged v h)
          (λ e v h. tt)).at
        (tick u) refl)
  | inr p ↦ subst (Ended Flagged (λ _ _. Unit {0})) (sym p) tt
]
  where
    u : World
    u = (discover_in isb_ous [] w).1

    tasks : List Task
    tasks = drift_tasks (drift_status m u.accounts)

    Flagged : Unit {0} → View → Type 0
    Flagged _ v =
        (id : String)
        → count (has_id id) w.accounts ≤ 1
        → flag_in v id ≡ drift_flag m id (account_in (view w) id)

    accounts : u.accounts ≡ w.accounts
    accounts = ap (λ (x : View). x.accounts) (discovery_lem w m found).0

    flagged : (v : View) → Marked tasks (view u) v → Flagged tt v
    flagged v h id few =
        h id
        ∙ drift_tasks-flags m u.accounts id
            (subst (λ as'. count (has_id id) as' ≤ 1) (sym accounts) few)
        ∙ ap (λ as'. drift_flag m id (find (has_id id) as')) accounts
