-- ===== src/LeaseApi/RateLimit.antt =====
-- `enforceLeaseRequestRateLimit` of source/lambdas/api/leases/src/smithy/lease-operations.ts. Times
-- are milliseconds, and sort as their ISO texts do.
pub mod Retry
pub mod Enforced
use innovation_sandbox_on_aw.Common.{
  ℕ, ◌+◌, ◌-◌, ◌*◌, String, Bool, true, false, not, ◌&&◌, Option, none, some, List, [], ◌∷◌, keep,
  length, get_elem?, leb, ltb, if◌then◌else◌,
}
use innovation_sandbox_on_aw.Types.{Lease, LeaseStatus}
use innovation_sandbox_on_aw.Outcome.{
  ok, err, Action, pure, throw, or_throw, gets, ◌>>=◌, ◌>>◌, lease_request_rate_limit_exceeded,
  retry_time_undetermined,
}
use innovation_sandbox_on_aw.Auth.{IsbUser}
use innovation_sandbox_on_aw.LeaseStore.{find_by_user_email}
use innovation_sandbox_on_aw.Sandbox.Publish.{ms_per_hour}
use innovation_sandbox_on_aw.World.{World, LeaseRules, time}
use innovation_sandbox_on_aw.LeaseApi.{is_admin_or_manager}

abbrev pub minimum : ℕ → ℕ → ℕ
minimum a b = if leb a b then a else b

-- `effectiveWindowHours`, in milliseconds
abbrev pub effective_window : (window_hours ttl_days : ℕ) → ℕ
effective_window window_hours ttl_days = minimum window_hours (ttl_days * 24) * ms_per_hour

abbrev pub is_counted_status : LeaseStatus → Bool
is_counted_status LeaseStatus.pending_approval = false
is_counted_status LeaseStatus.approval_denied = false
is_counted_status _ = true

-- `createdTime >= windowStart`
abbrev pub is_in_window : (now window : ℕ) → ℕ → Bool
is_in_window now window t = leb now (t + window)

-- The creation times of the leases that count, wherever they lie.
unfoldable pub counted_times : (String → Option ℕ) → List Lease → List ℕ
counted_times created [] = []
counted_times created (l ∷ ls) =
    let rest = counted_times created ls in
    if is_counted_status l.status
    then elim (created l.uuid) [ none ↦ rest | some t ↦ t ∷ rest ]
    else rest

-- `Array.prototype.sort`, by time.
abbrev pub insert_time : ℕ → List ℕ → List ℕ
insert_time t [] = t ∷ []
insert_time t (x ∷ xs) = if leb t x then t ∷ x ∷ xs else x ∷ insert_time t xs

unfoldable pub sort_times : List ℕ → List ℕ
sort_times [] = []
sort_times (t ∷ ts) = insert_time t (sort_times ts)

-- `pivotTime`, for as many times as there are or more than the limit.
unfoldable pub pivot_time : (limit : ℕ) → List ℕ → Option ℕ
pivot_time limit times = get_elem? (sort_times times) (length times - limit)

-- The branch that refuses.
abbrev pub refuse : (limit window : ℕ) → List ℕ → Action World (Unit {0})
refuse limit window times = do
  pivot ← or_throw (pivot_time limit times) retry_time_undetermined
  throw (lease_request_rate_limit_exceeded (pivot + window))

-- What follows once the window and the time are known.
unfoldable pub check_window :
    (limit window now : ℕ) (email : String) → (String → Option ℕ) → Action World (Unit {0})
unfolding counted_times pivot_time
check_window limit window now email created = do
  leases ← find_by_user_email email
  let times = keep (is_in_window now window) (counted_times created leases)
  if ltb (length times) limit then pure tt else refuse limit window times

-- `enforceLeaseRequestRateLimit`
unfoldable pub enforce_lease_request_rate_limit :
    (caller : IsbUser) (target_user_email : String) → Action World (Unit {0})
enforce_lease_request_rate_limit u email = if is_admin_or_manager u then pure tt else (do
  rules ← gets (λ w. w.rules)
  days ← gets (λ w. w.ttl_days)
  now ← gets time
  created ← gets (λ w. w.created_time_of)
  check_window rules.max_lease_requests_per_window
      (effective_window rules.lease_request_window_hours days) now email created)
