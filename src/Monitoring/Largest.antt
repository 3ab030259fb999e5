-- ===== src/Monitoring/Largest.antt =====
-- The thresholds that the scan reports are the extreme ones.
use innovation_sandbox_on_aw.Common.{
  ◌≤◌, ◌≡◌, inl, inr, refl, sym, subst, some, List, [], ◌∷◌, All, Among, arith, ltb, Bool-cases,
}
use innovation_sandbox_on_aw.Types.{BudgetThreshold, DurationThreshold}
use innovation_sandbox_on_aw.Monitoring.{
  largest_from, largest_budget_threshold, latest_from, latest_duration_threshold,
}

largest_from_bound :
    (p : BudgetThreshold) (ts : List BudgetThreshold)
    → All (λ t. t.dollars_spent ≤ (largest_from p ts).dollars_spent) (p ∷ ts)
unfolding largest_from
largest_from_bound p [] = (omega arith, tt)
largest_from_bound p (t ∷ ts) = elim (Bool-cases (ltb t.dollars_spent p.dollars_spent)) [
  | inl e ↦
      let (here, later) = largest_from_bound p ts in
      let same : largest_from p (t ∷ ts) ≡ largest_from p ts = rw (e, largest_from) in
      subst (λ u. All (λ v. v.dollars_spent ≤ u.dollars_spent) (p ∷ t ∷ ts)) (sym same)
        (here, (ground arith, later))
  | inr e ↦
      let (here, later) = largest_from_bound t ts in
      let same : largest_from p (t ∷ ts) ≡ largest_from t ts = rw (e, largest_from) in
      subst (λ u. All (λ v. v.dollars_spent ≤ u.dollars_spent) (p ∷ t ∷ ts)) (sym same)
        (ground arith, (here, later))
]

largest_from-Among :
    (p : BudgetThreshold) (ts : List BudgetThreshold) → Among (largest_from p ts) (p ∷ ts)
unfolding largest_from
largest_from-Among p [] = inl refl
largest_from-Among p (t ∷ ts) = ground (arith, largest_from-Among p ts, largest_from-Among t ts)

-- The threshold that a budget alert names is one of the breached ones, and the dearest of them.
pub largest_budget_threshold_lem :
    (ts : List BudgetThreshold) (t : BudgetThreshold)
    → largest_budget_threshold ts ≡ some t
    → Among t ts × All (λ u. u.dollars_spent ≤ t.dollars_spent) ts
unfolding largest_budget_threshold
largest_budget_threshold_lem [] t e = cc
largest_budget_threshold_lem (p ∷ ts) t e =
    let same : largest_from p ts ≡ t = ground arith in
    subst (λ u. Among u (p ∷ ts) × All (λ v. v.dollars_spent ≤ u.dollars_spent) (p ∷ ts)) same
      (largest_from-Among p ts, largest_from_bound p ts)

latest_from_bound :
    (p : DurationThreshold) (ts : List DurationThreshold)
    → All (λ t. (latest_from p ts).hours_remaining ≤ t.hours_remaining) (p ∷ ts)
unfolding latest_from
latest_from_bound p [] = (omega arith, tt)
latest_from_bound p (t ∷ ts) = elim (Bool-cases (ltb p.hours_remaining t.hours_remaining)) [
  | inl e ↦
      let (here, later) = latest_from_bound p ts in
      let same : latest_from p (t ∷ ts) ≡ latest_from p ts = rw (e, latest_from) in
      subst (λ u. All (λ v. u.hours_remaining ≤ v.hours_remaining) (p ∷ t ∷ ts)) (sym same)
        (here, (ground arith, later))
  | inr e ↦
      let (here, later) = latest_from_bound t ts in
      let same : latest_from p (t ∷ ts) ≡ latest_from t ts = rw (e, latest_from) in
      subst (λ u. All (λ v. u.hours_remaining ≤ v.hours_remaining) (p ∷ t ∷ ts)) (sym same)
        (ground arith, (here, later))
]

latest_from-Among :
    (p : DurationThreshold) (ts : List DurationThreshold) → Among (latest_from p ts) (p ∷ ts)
unfolding latest_from
latest_from-Among p [] = inl refl
latest_from-Among p (t ∷ ts) = ground (arith, latest_from-Among p ts, latest_from-Among t ts)

-- The threshold that a duration alert names is the breached one with the least time left.
pub latest_duration_threshold_lem :
    (ts : List DurationThreshold) (t : DurationThreshold)
    → latest_duration_threshold ts ≡ some t
    → Among t ts × All (λ u. t.hours_remaining ≤ u.hours_remaining) ts
unfolding latest_duration_threshold
latest_duration_threshold_lem [] t e = cc
latest_duration_threshold_lem (p ∷ ts) t e =
    let same : latest_from p ts ≡ t = ground arith in
    subst (λ u. Among u (p ∷ ts) × All (λ v. u.hours_remaining ≤ v.hours_remaining) (p ∷ ts)) same
      (latest_from-Among p ts, latest_from_bound p ts)
