-- ===== src/Drift/Alerts.antt =====
-- For which accounts a scan sends an alert.
use innovation_sandbox_on_aw.Common.{
  ◌≤◌, ◌≡◌, refl, ap, ◌∙◌, subst, String, Bool, true, false, not, ◌&&◌, ◌||◌, Bool-cases, Option,
  none, some, inl, inr, is_some, List, [], ◌∷◌, ◌++◌, map, find, keep, any, any-append,
  any-map_none, str_eq, eq_iff, arith, if◌then◌else◌,
}
use mathlib.Core.Path.{ap₂}
use innovation_sandbox_on_aw.Types.{Account, Ou}
use innovation_sandbox_on_aw.Table.{erase, count, count-erase, find-erase, find-erase_ne}
use innovation_sandbox_on_aw.AccountStore.{has_id}
use innovation_sandbox_on_aw.Drift.{
  OuMap, is_key, ou_of, get_ou, is_in, DriftingAccount, drift_status, Task, alert, mark,
  alert_drifting, alert_untracked, is_expected_untracked, drift_tasks, confirmed_tasks, new_tasks,
  ended_tasks, untracked_tasks,
}

-- A key that no item has is not found.
pub find-count_zero : {A : Type 0} (p : A → Bool) (xs : List A) → count p xs ≡ 0 → find p xs ≡ none
find-count_zero p [] h = refl
find-count_zero p (x ∷ xs) h = ground (arith, find-count_zero p xs)

-- Whether an account is in another unit than its record says, by the map and the account's id.
abbrev pub drifts : OuMap → String → Account → Bool
drifts m id a = not (is_in a.status (get_ou id m))

-- Entries at different keys.
keys_apart :
    (id other : String)
    → str_eq other id ≡ false
    → (e : String × Ou) → is_key other e ≡ true
    → is_key id e ≡ false
keys_apart id other h e k = ground (arith, eq_iff e.0 other, eq_iff e.0 id, eq_iff other id)

-- Another account's entry does not matter.
pub get_ou-erase :
    (m : OuMap) (id other : String)
    → str_eq other id ≡ false
    → get_ou id (erase (is_key other) m) ≡ get_ou id m
get_ou-erase m id other apart =
    ap ou_of (find-erase_ne (is_key other) (is_key id) m (keys_apart id other apart))

get_ou-erased :
    (m : OuMap) (id other : String)
    → str_eq other id ≡ true
    → find (is_key id) (erase (is_key other) m) ≡ none
get_ou-erased m id other same =
    subst (λ x. find (is_key x) (erase (is_key other) m) ≡ none) ((eq_iff other id).0 same)
      (find-erase (is_key other) m)

-- The answer for the account that is on record, if one is.
abbrev pub for_record : Option Account → (Account → Bool) → Bool → Bool
for_record none f b = b
for_record (some a) f b = f a

-- A test of the account among the drifting ones, and among the others.
module _ (test : Account → Bool) (id : String) where
  abbrev pub drifting_passes : DriftingAccount → Bool
  drifting_passes d = has_id id d.account && test d.account

  abbrev pub other_passes : Account → Bool
  other_passes a = has_id id a && test a

  none_passes :
      (m : OuMap) (accounts : List Account)
      → find (has_id id) accounts ≡ none
      → (any drifting_passes (drift_status m accounts).accounts_in_drift ≡ false)
        × (any other_passes (drift_status m accounts).accounts_not_in_drift ≡ false)
  unfolding drift_status
  none_passes m [] h = (refl, refl)
  none_passes m (a ∷ accounts) h =
      let rest = none_passes (erase (is_key a.aws_account_id) m) accounts (ground arith) in
      elim (Bool-cases (is_in a.status (get_ou a.aws_account_id m))) [
        | inl e ↦ rw e (ground (arith, rest))
        | inr e ↦ rw e (ground (arith, rest))
      ]

  pub tracked_lem :
      (m : OuMap) (accounts : List Account)
      → count (has_id id) accounts ≤ 1
      → let found = find (has_id id) accounts in
        (any drifting_passes (drift_status m accounts).accounts_in_drift
          ≡ for_record found (λ a. test a && drifts m id a) false)
        × (any other_passes (drift_status m accounts).accounts_not_in_drift
            ≡ for_record found (λ a. test a && not (drifts m id a)) false)
  unfolding drift_status
  tracked_lem m [] few = (refl, refl)
  tracked_lem m (a ∷ accounts) few = elim (Bool-cases (has_id id a)) [
    | inl e ↦
        let same : get_ou a.aws_account_id m ≡ get_ou id m =
          ap (λ x. get_ou x m) ((eq_iff a.aws_account_id id).0 e) in
        let (rest, rest') =
          none_passes (erase (is_key a.aws_account_id) m) accounts
            (find-count_zero (has_id id) accounts (ground arith)) in
        elim (Bool-cases (is_in a.status (get_ou a.aws_account_id m))) [
          | inl p ↦ (ground (arith, e, p, rest, same), ground (arith, e, p, rest', same))
          | inr p ↦ (ground (arith, e, p, rest, same), ground (arith, e, p, rest', same))
        ]
    | inr e ↦
        let (there, there') =
          tracked_lem (erase (is_key a.aws_account_id) m) accounts (ground arith) in
        let same = get_ou-erase m id a.aws_account_id e in
        let found = find (has_id id) accounts in
        let rest =
          there ∙ ap (λ x. for_record found (λ b. test b && not (is_in b.status x)) false) same in
        let rest' =
          there'
          ∙ ap (λ x. for_record found (λ b. test b && not (not (is_in b.status x))) false) same in
        elim (Bool-cases (is_in a.status (get_ou a.aws_account_id m))) [
          | inl p ↦ (ground (arith, e, p, rest), ground (arith, e, p, rest'))
          | inr p ↦ (ground (arith, e, p, rest), ground (arith, e, p, rest'))
        ]
  ]

-- The entries that are left are those of accounts that have no record.
left_none :
    (id : String) (m : OuMap) (accounts : List Account)
    → find (is_key id) m ≡ none
    → find (is_key id) (drift_status m accounts).untracked_accounts ≡ none
unfolding drift_status
left_none id m [] h = h
left_none id m (a ∷ accounts) h = elim (Bool-cases (is_in a.status (get_ou a.aws_account_id m))) [
  | inl p ↦ rw p (left_none id (erase (is_key a.aws_account_id) m) accounts gone)
  | inr p ↦ rw p (left_none id (erase (is_key a.aws_account_id) m) accounts gone)
]
  where
    gone : find (is_key id) (erase (is_key a.aws_account_id) m) ≡ none
    gone = elim (Bool-cases (str_eq a.aws_account_id id)) [
      | inl e ↦ get_ou-erased m id a.aws_account_id e
      | inr e ↦
          find-erase_ne (is_key a.aws_account_id) (is_key id) m (keys_apart id a.aws_account_id e)
          ∙ h
    ]

left_lem :
    (id : String) (m : OuMap) (accounts : List Account)
    → find (is_key id) (drift_status m accounts).untracked_accounts
      ≡ (if is_some (find (has_id id) accounts) then none else find (is_key id) m)
unfolding drift_status
left_lem id m [] = refl
left_lem id m (a ∷ accounts) = elim (Bool-cases (has_id id a)) [
  | inl e ↦
      let rest =
        left_none id (erase (is_key a.aws_account_id) m) accounts
          (get_ou-erased m id a.aws_account_id e) in
      elim (Bool-cases (is_in a.status (get_ou a.aws_account_id m))) [
        | inl p ↦ rw (e, p) rest
        | inr p ↦ rw (e, p) rest
      ]
  | inr e ↦
      let rest =
        left_lem id (erase (is_key a.aws_account_id) m) accounts
        ∙ ap (λ x. if is_some (find (has_id id) accounts) then none else x)
            (find-erase_ne (is_key a.aws_account_id) (is_key id) m
              (keys_apart id a.aws_account_id e)) in
      elim (Bool-cases (is_in a.status (get_ou a.aws_account_id m))) [
        | inl p ↦ rw (e, p) rest
        | inr p ↦ rw (e, p) rest
      ]
]

left_count :
    (id : String) (m : OuMap) (accounts : List Account)
    → count (is_key id) m ≤ 1
    → count (is_key id) (drift_status m accounts).untracked_accounts ≤ 1
unfolding drift_status
left_count id m [] h = h
left_count id m (a ∷ accounts) h =
    let rest =
      left_count id (erase (is_key a.aws_account_id) m) accounts
        (omega (arith, count-erase (is_key a.aws_account_id) (is_key id) m)) in
    elim (Bool-cases (is_in a.status (get_ou a.aws_account_id m))) [
      | inl p ↦ rw p rest
      | inr p ↦ rw p rest
    ]

-- An account that has no record is reported unless it is in Entry or Exit.
abbrev pub reports_untracked : Option (String × Ou) → Bool
reports_untracked none = false
reports_untracked (some e) = not (is_expected_untracked e.1)

none_reported :
    (id : String) (m : OuMap)
    → count (is_key id) m ≡ 0
    → any (λ e. is_key id e && not (is_expected_untracked e.1)) m ≡ false
none_reported id [] h = refl
none_reported id (e ∷ m) h = ground (arith, none_reported id m)

reported_lem :
    (id : String) (m : OuMap)
    → count (is_key id) m ≤ 1
    → any (λ e. is_key id e && not (is_expected_untracked e.1)) m
      ≡ reports_untracked (find (is_key id) m)
reported_lem id [] h = refl
reported_lem id (e ∷ m) h = elim (Bool-cases (is_key id e)) [
  | inl p ↦ ground (arith, p, none_reported id m)
  | inr p ↦ ground (arith, p, reported_lem id m)
]

abbrev pub alerts : String → Task → Bool
alerts id (alert x _ _) = str_eq x id
alerts id (mark _ _) = false

any-alerts :
    {A : Type 0} (f : A → Task) (test is : A → Bool) (id : String)
    → ((x : A) → (alerts id (f x) && test x) ≡ is x)
    → (xs : List A) → any (alerts id) (map f (keep test xs)) ≡ any is xs
any-alerts f test is id same [] = refl
any-alerts f test is id same (x ∷ xs) = elim (Bool-cases (test x)) [
  | inl p ↦ ground (arith, p, same x, any-alerts f test is id same xs)
  | inr p ↦ ground (arith, p, same x, any-alerts f test is id same xs)
]

any_four :
    {A : Type 0} (p : A → Bool) (as' bs cs ds : List A)
    → any p (as' ++ (bs ++ (cs ++ ds))) ≡ (any p as' || (any p bs || (any p cs || any p ds)))
any_four p as' bs cs ds =
    grind
      (arith, any-append p as' (bs ++ (cs ++ ds)), any-append p bs (cs ++ ds), any-append p cs ds)

-- A scan sends an alert for an account exactly if the account's record says that it was drifting at
-- the last scan and its unit is not the one that its record names; or if it has no record and was
-- found in a unit other than Entry and Exit. For this the account may have one record at most, and
-- one entry at most in the map of the units.
pub drift_tasks-alerts :
    (m : OuMap) (accounts : List Account) (id : String)
    → count (has_id id) accounts ≤ 1
    → count (is_key id) m ≤ 1
    → any (alerts id) (drift_tasks (drift_status m accounts))
      ≡ for_record
          (find (has_id id) accounts)
          (λ a. a.drift_at_last_scan && drifts m id a)
          (reports_untracked (find (is_key id) m))
unfolding drift_tasks
drift_tasks-alerts m accounts id few one =
    let s = drift_status m accounts in
    let known =
      any-alerts alert_drifting (λ (d : DriftingAccount). d.account.drift_at_last_scan)
        (drifting_passes (λ a. a.drift_at_last_scan) id) id (λ d. refl) s.accounts_in_drift
      ∙ (tracked_lem (λ a. a.drift_at_last_scan) id m accounts few).0 in
    let unknown =
      any-alerts alert_untracked (λ e. not (is_expected_untracked e.1))
        (λ e. is_key id e && not (is_expected_untracked e.1)) id (λ e. refl) s.untracked_accounts
      ∙ reported_lem id s.untracked_accounts (left_count id m accounts one)
      ∙ ap reports_untracked (left_lem id m accounts) in
    any_four (alerts id) (confirmed_tasks s) (new_tasks s) (ended_tasks s) (untracked_tasks s)
    ∙ ap₂ (λ x y. x || y) known
        (ap₂ (λ x y. x || y)
          (any-map_none (alerts id) (λ (d : DriftingAccount). mark d.account true) (λ d. refl)
            (keep (λ (d : DriftingAccount). not d.account.drift_at_last_scan) s.accounts_in_drift))
          (ap₂ (λ x y. x || y)
            (any-map_none (alerts id) (λ a. mark a false) (λ a. refl)
              (keep (λ (a : Account). a.drift_at_last_scan) s.accounts_not_in_drift))
            unknown))
    ∙ joined (find (has_id id) accounts)
  where
    joined :
        (found : Option Account)
        → let f : Account → Bool = λ a. a.drift_at_last_scan && drifts m id a in
          (for_record found f false
            || (false
                || (false
                    || reports_untracked (if is_some found then none else find (is_key id) m))))
          ≡ for_record found f (reports_untracked (find (is_key id) m))
    joined none = refl
    joined (some a) = ground arith
