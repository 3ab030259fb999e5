-- ===== src/Sandbox/Approve/Cooldown.antt =====
-- Which account `acquireAvailableAccount` picks.
use innovation_sandbox_on_aw.Common.{
  ℕ, zero, suc, ◌<◌, ◌+◌, ◌≡◌, refl, sym, subst, ◌⊎◌, inl, inr, Bool, true, false, not, Option,
  none, some, List, [], ◌∷◌, keep, length, get_elem?, Among, Among-keep, Bool-cases, arith,
}
use innovation_sandbox_on_aw.Types.{Account, Ou}
use innovation_sandbox_on_aw.Outcome.{
  Error, ok, err, or_throw, remote_failure, no_accounts_available, ◌>>=◌, bind-ok, bind-err,
}
use innovation_sandbox_on_aw.AccountStore.{same_ou, find_by_status}
use innovation_sandbox_on_aw.Sandbox.Approve.{
  is_cooled_down, candidates, is_empty, acquire_available_account, choose_account,
}
use innovation_sandbox_on_aw.World.{World, tick}
use innovation_sandbox_on_aw.World.Frame.{remote-cases}
use innovation_sandbox_on_aw.World.Triple.{View, view, Ended, Ended-map}

module _ {A : Type 0} where
  Among-get_elem? : (xs : List A) (i : ℕ) (a : A) → get_elem? xs i ≡ some a → Among a xs
  Among-get_elem? [] i a h = cc
  Among-get_elem? (x ∷ xs) zero a h = ground arith
  Among-get_elem? (x ∷ xs) (suc i) a h = inr (Among-get_elem? xs i a h)

  get_elem?-bound : (xs : List A) (i : ℕ) → i < length xs → get_elem? xs i ≡ none → ⊥
  get_elem?-bound [] i h p = omega arith
  get_elem?-bound (x ∷ xs) zero h p = cc
  get_elem?-bound (x ∷ xs) (suc i) h p = get_elem?-bound xs i (omega arith) p

  keep-none : (p : A → Bool) (xs : List A) → keep p xs ≡ [] → (a : A) → Among a xs → p a ≡ false
  keep-none p xs e a m = elim (Bool-cases (p a)) [
    | inl h ↦ absurd (subst (Among a) e ((Among-keep p a xs).1 (m, h)))
    | inr h ↦ h
  ]

-- The account is on the list, and is cooled down if any account on the list is.
abbrev pub IsPreferred : ℕ → List Account → Account → Type 0
IsPreferred now accounts a =
    Among a accounts
    × ((b : Account) → Among b accounts → is_cooled_down now b ≡ true → is_cooled_down now a ≡ true)

candidates-IsPreferred :
    (now : ℕ) (accounts : List Account) (a : Account)
    → Among a (candidates now accounts)
    → IsPreferred now accounts a
unfolding candidates
candidates-IsPreferred now accounts a m = go (keep (is_cooled_down now) accounts) refl m
  where
    go :
        (preferred : List Account)
        → keep (is_cooled_down now) accounts ≡ preferred
        → Among a (elim preferred [
          | [] ↦ keep (λ a. not (is_cooled_down now a)) accounts
          | a ∷ rest ↦ a ∷ rest
        ])
        → IsPreferred now accounts a
    go [] e h = (
      ((Among-keep _ a accounts).0 h).0,
      λ b there cooled. ground (arith, keep-none (is_cooled_down now) accounts e b there),
    )
    go (x ∷ xs) e h =
        let (there, cooled) =
          (Among-keep (is_cooled_down now) a accounts).0 (subst (Among a) (sym e) h) in
        (there, λ b _ _. cooled)

none_cooled :
    (now : ℕ) (accounts : List Account)
    → is_empty accounts ≡ false
    → keep (is_cooled_down now) accounts ≡ []
    → 0 < length (keep (λ a. not (is_cooled_down now a)) accounts)
none_cooled now [] h e = cc
none_cooled now (x ∷ xs) h e =
    let warm = keep-none (is_cooled_down now) (x ∷ xs) e x (inl refl) in rw warm (omega arith)

length-candidates :
    (now : ℕ) (accounts : List Account)
    → is_empty accounts ≡ false
    → 0 < length (candidates now accounts)
unfolding candidates
length-candidates now accounts h = go (keep (is_cooled_down now) accounts) refl
  where
    go :
        (preferred : List Account)
        → keep (is_cooled_down now) accounts ≡ preferred
        → 0
          < length (elim preferred [
            | [] ↦ keep (λ a. not (is_cooled_down now a)) accounts
            | a ∷ rest ↦ a ∷ rest
          ])
    go [] e = none_cooled now accounts h e
    go (x ∷ xs) e = omega arith

-- The accounts that are on record as Available.
abbrev pub available_in : View → List Account
available_in g = keep (λ a. same_ou a.status Ou.available) g.accounts

choose_account_lem :
    (accounts : List Account) (w : World)
    → ((n k : ℕ) → 0 < k → w.random_index n k < k)
    → Ended
        (λ a v. (v ≡ view w) × IsPreferred (w.clock w.ticks) accounts a)
        (λ e v. (v ≡ view w) × (e ≡ no_accounts_available) × (accounts ≡ []))
        (choose_account accounts w)
unfolding choose_account ◌>>=◌
choose_account_lem [] w in_range = (refl, refl, refl)
choose_account_lem (x ∷ xs) w in_range = pick (get_elem? pool index) refl
  where
    pool : List Account
    pool = candidates (w.clock w.ticks) (x ∷ xs)

    index : ℕ
    index = w.random_index w.ticks (length pool)

    pick :
        (o : Option Account)
        → get_elem? pool index ≡ o
        → Ended
            (λ a v. (v ≡ view w) × IsPreferred (w.clock w.ticks) (x ∷ xs) a)
            (λ e v. (v ≡ view w) × (e ≡ no_accounts_available) × (x ∷ xs ≡ []))
            (or_throw o no_accounts_available w)
    pick none e = absurd (
        get_elem?-bound pool index
          (in_range w.ticks (length pool) (length-candidates (w.clock w.ticks) (x ∷ xs) refl)) e)
    pick (some a) e =
        (refl, candidates-IsPreferred (w.clock w.ticks) (x ∷ xs) a (Among-get_elem? pool index a e))

find_by_status-cases :
    (status : Ou) (w : World)
    → (find_by_status status w ≡ (ok (keep (λ a. same_ou a.status status) w.accounts), tick w))
      ⊎ (find_by_status status w ≡ (err remote_failure, tick w))
unfolding find_by_status
find_by_status-cases status w = elim (remote-cases w) [
  | inl e ↦ inl (bind-ok _ _ w (tick w) tt e)
  | inr e ↦ inr (bind-err _ _ w (tick w) remote_failure e)
]

-- If `Math.random` picks an index in range, then nothing is written; the account that is returned
-- is on record as Available, and is cooled down at the time of the choice if any Available account
-- is; and the call throws only for an error of the query, or because no account is Available.
pub acquire_available_account_lem :
    (w : World)
    → ((n k : ℕ) → 0 < k → w.random_index n k < k)
    → Ended
        (λ a v. (v ≡ view w) × IsPreferred (w.clock (w.ticks + 1)) (available_in (view w)) a)
        (λ e v.
          (v ≡ view w)
          × ((e ≡ remote_failure) ⊎ ((e ≡ no_accounts_available) × (available_in (view w) ≡ []))))
        (acquire_available_account w)
unfolding acquire_available_account
acquire_available_account_lem w in_range = elim (find_by_status-cases Ou.available w) [
  | inl e ↦
      subst (λ r. Ended Chosen NotChosen r) (sym (bind-ok _ _ w (tick w) _ e))
        (Ended-map _ Chosen _ NotChosen _
          (choose_account_lem (available_in (view w)) (tick w) in_range) (λ a v h. h) refused)
  | inr e ↦
      subst (λ r. Ended Chosen NotChosen r) (sym (bind-err _ _ w (tick w) _ e)) (refl, inl refl)
]
  where
    Chosen : Account → View → Type 0
    Chosen a v = (v ≡ view w) × IsPreferred (w.clock (w.ticks + 1)) (available_in (view w)) a

    NotChosen : Error → View → Type 0
    NotChosen e v =
        (v ≡ view w)
        × ((e ≡ remote_failure) ⊎ ((e ≡ no_accounts_available) × (available_in (view w) ≡ [])))

    refused :
        (e : Error) (v : View)
        → (v ≡ view w) × (e ≡ no_accounts_available) × (available_in (view w) ≡ [])
        → NotChosen e v
    refused e v (same, why, none_left) = (same, inr (why, none_left))
