-- ===== src/Monitoring/Once.antt =====
-- Over a history of scans, each threshold fires once.
use innovation_sandbox_on_aw.Common.{
  ℕ, ◌+◌, ◌*◌, ◌≤◌, ◌≡◌, refl, ◌&&◌, some, List, [], ◌∷◌, arith, ltb, leb, if◌then◌else◌,
}
use innovation_sandbox_on_aw.Types.{Lease, BudgetThreshold, DurationThreshold}
use innovation_sandbox_on_aw.Monitoring.{
  newly_breached_budget, newly_breached_duration, checked, ms_per_hour,
}

-- A scan: the cost that the report has for the lease, and the time.
pub record Scan : Type 0 where
  pub cost : ℕ
  pub time : ℕ

-- In how many of the scans a budget threshold is newly breached, each scan starting from the
-- record that the one before wrote back.
pub budget_firings : Lease → BudgetThreshold → List Scan → ℕ
unfolding newly_breached_budget checked
budget_firings l t [] = 0
budget_firings l t (s ∷ rest) =
    (if newly_breached_budget l s.cost t then 1 else 0)
    + budget_firings (checked l s.cost s.time) t rest

pub duration_firings : Lease → DurationThreshold → List Scan → ℕ
unfolding newly_breached_duration checked
duration_firings l t [] = 0
duration_firings l t (s ∷ rest) =
    (if newly_breached_duration l s.time t then 1 else 0)
    + duration_firings (checked l s.cost s.time) t rest

-- The cost, and the time, after the last scan.
abbrev pub last_cost : ℕ → List Scan → ℕ
last_cost c [] = c
last_cost c (s ∷ rest) = last_cost s.cost rest

abbrev pub last_time : ℕ → List Scan → ℕ
last_time c [] = c
last_time c (s ∷ rest) = last_time s.time rest

-- No scan reports a smaller cost, or an earlier time, than the one before.
abbrev pub IsAscending : ℕ → ℕ → List Scan → Type 0
IsAscending cost time [] = Unit
IsAscending cost time (s ∷ rest) =
    (cost ≤ s.cost) × (time ≤ s.time) × IsAscending s.cost s.time rest

last_cost-ge : (c t : ℕ) (ss : List Scan) → IsAscending c t ss → c ≤ last_cost c ss
last_cost-ge c t [] h = omega arith
last_cost-ge c t (s ∷ ss) (p, q, h) = omega (arith, last_cost-ge s.cost s.time ss h)

last_time-ge : (c t : ℕ) (ss : List Scan) → IsAscending c t ss → t ≤ last_time t ss
last_time-ge c t [] h = omega arith
last_time-ge c t (s ∷ ss) (p, q, h) = omega (arith, last_time-ge s.cost s.time ss h)

-- While neither the reported cost nor the time falls, a budget threshold fires in exactly one scan
-- if the cost has reached it by the last scan and had not at the start, and else in none.
pub budget_fires_once :
    (l : Lease) (t : BudgetThreshold) (now : ℕ) (scans : List Scan)
    → IsAscending l.total_cost_accrued now scans
    → budget_firings l t scans ≡ (
        if ltb l.total_cost_accrued t.dollars_spent
          && leb t.dollars_spent (last_cost l.total_cost_accrued scans)
        then 1
        else 0)
unfolding budget_firings
budget_fires_once l t now [] h = ground arith
budget_fires_once l t now (s ∷ scans) (p, q, h) = ground (
  arith,
  budget_fires_once (checked l s.cost s.time) t s.time scans h,
  last_cost-ge s.cost s.time scans h,
)

-- For a lease that expires and has been checked, while neither the reported cost nor the time
-- falls: a duration threshold fires in exactly one scan if the last scan reaches its date and the
-- lease had not been checked at it or later before the first, and else in none.
pub duration_fires_once :
    (l : Lease) (t : DurationThreshold) (expiration now : ℕ) (scans : List Scan)
    → l.expiration_date ≡ some expiration
    → l.last_checked_date ≡ some now
    → IsAscending l.total_cost_accrued now scans
    → duration_firings l t scans ≡ (
        if ltb (now + t.hours_remaining * ms_per_hour) expiration
          && leb expiration (last_time now scans + t.hours_remaining * ms_per_hour)
        then 1
        else 0)
unfolding duration_firings
duration_fires_once l t expiration now [] x y h = ground arith
duration_fires_once l t expiration now (s ∷ scans) x y (p, q, h) = ground (
  arith,
  duration_fires_once (checked l s.cost s.time) t expiration s.time scans x refl h,
  last_time-ge s.cost s.time scans h,
)
