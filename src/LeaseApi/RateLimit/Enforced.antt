-- ===== src/LeaseApi/RateLimit/Enforced.antt =====
-- When a request for a lease is refused by its rate, and what the refusal says.
use innovation_sandbox_on_aw.Common.{
  ℕ, ◌+◌, ◌-◌, ◌≤◌, ◌<◌, ◌≡◌, refl, sym, subst, ◌⊎◌, inl, inr, String, true, false, Bool-cases,
  Option, none, some, List, keep, length, ltb, str_eq, arith, if◌then◌else◌,
}
use innovation_sandbox_on_aw.Table.{count}
use innovation_sandbox_on_aw.Types.{Lease}
use innovation_sandbox_on_aw.Outcome.{
  Error, pure, ◌>>=◌, remote_failure, lease_request_rate_limit_exceeded, retry_time_undetermined,
}
use innovation_sandbox_on_aw.Auth.{IsbUser}
use innovation_sandbox_on_aw.LeaseStore.Laws.{find_by_user_email-Triple}
use innovation_sandbox_on_aw.World.{World, time}
use innovation_sandbox_on_aw.World.Triple.{
  View, view, Ended, Triple, Triple-bind, Triple-view, Triple-pure, Triple-throw,
}
use innovation_sandbox_on_aw.World.Triple.Bind.{bind_or_throw}
use innovation_sandbox_on_aw.LeaseApi.{is_admin_or_manager}
use innovation_sandbox_on_aw.LeaseApi.RateLimit.{
  effective_window, counted_times, is_in_window, sort_times, pivot_time, refuse, check_window,
  enforce_lease_request_rate_limit,
}
use innovation_sandbox_on_aw.LeaseApi.RateLimit.Retry.{
  entry_at, length-sort, allowed_after, refused_until,
}

-- How many leases of a user count at a time, and how many may.
abbrev pub window_of : View → ℕ
window_of v = effective_window v.env.rules.lease_request_window_hours v.env.ttl_days

abbrev pub times_of : String → View → List ℕ
times_of email v =
    counted_times v.env.created_time_of (keep (λ (l : Lease). str_eq l.user_email email) v.leases)

abbrev pub requests_at : String → View → ℕ → ℕ
requests_at email v now = count (is_in_window now (window_of v)) (times_of email v)

abbrev pub max_requests : View → ℕ
max_requests v = v.env.rules.max_lease_requests_per_window

abbrev pub Allowed : IsbUser → String → (now : ℕ) → View → View → Type 0
Allowed u email now g v =
    (v ≡ g) × ((is_admin_or_manager u ≡ true) ⊎ (requests_at email g now < max_requests g))

-- The leases that are there now stand in the way up to the time told, and no longer.
abbrev pub RetryAt : String → View → ℕ → ℕ → Type 0
RetryAt email g now at =
    ((m : ℕ) → m ≤ at → max_requests g ≤ requests_at email g m)
    × ((later : ℕ) → now ≤ later → at < later → requests_at email g later < max_requests g)

abbrev pub TooMany : IsbUser → String → (now : ℕ) → View → Error → View → Type 0
TooMany u email now g e v =
    (v ≡ g)
    × ((is_admin_or_manager u ≡ false)
        × ((e ≡ remote_failure)
            ⊎ ((max_requests g ≤ requests_at email g now)
                × ((at : ℕ) × ((e ≡ lease_request_rate_limit_exceeded at)
                      × RetryAt email g now at)))))

module _ (u : IsbUser) (email : String) (now : ℕ) (g : View) (bounded : 0 < max_requests g)
    (plain : is_admin_or_manager u ≡ false) where
  refuse-Triple :
      max_requests g ≤ requests_at email g now
      → Triple g
          (λ _. Allowed u email now g)
          (TooMany u email now g)
          (refuse
            (max_requests g)
            (window_of g)
            (keep (is_in_window now (window_of g)) (times_of email g)))
  unfolding pivot_time
  refuse-Triple full =
      let times = keep (is_in_window now (window_of g)) (times_of email g) in
      let entry =
        entry_at (sort_times times) (length times - max_requests g)
          (omega (arith, length-sort times, bounded, full)) in
      bind_or_throw _ retry_time_undetermined _
        (λ p is. Triple-throw _ (
          refl,
          (
            plain,
            inr (
              full,
              (
                p + window_of g,
                (
                  refl,
                  (
                    refused_until (max_requests g) (window_of g) now (times_of email g) bounded p
                        full is,
                    allowed_after (max_requests g) (window_of g) now (times_of email g) bounded p
                        full is,
                  ),
                ),
              ),
            ),
          ),
        ))
        (λ missing. absurd (impossible entry missing))
    where
      impossible : {o : Option ℕ} → (p : ℕ) × (o ≡ some p) → o ≡ none → ⊥
      impossible (p, is) missing = cc

  check_window-Triple :
      Triple g
        (λ _. Allowed u email now g)
        (TooMany u email now g)
        (check_window (max_requests g) (window_of g) now email g.env.created_time_of)
  unfolding check_window
  check_window-Triple =
      Triple-bind _ _ (find_by_user_email-Triple email g) (λ e v h. (h.1, (plain, inl h.0)))
        (λ r v (same, is). Triple-view same (
          subst
            (λ leases.
              let times =
                keep (is_in_window now (window_of g))
                  (counted_times g.env.created_time_of leases) in
              Triple g (λ _. Allowed u email now g) (TooMany u email now g)
                (if ltb (length times) (max_requests g)
                  then pure tt
                  else refuse (max_requests g) (window_of g) times))
            (sym is) decided))
    where
      decided :
          let times = keep (is_in_window now (window_of g)) (times_of email g) in
          Triple g
            (λ _. Allowed u email now g)
            (TooMany u email now g)
            (if ltb (length times) (max_requests g)
              then pure tt
              else refuse (max_requests g) (window_of g) times)
      decided = elim (Bool-cases (ltb (requests_at email g now) (max_requests g))) [
        | inl e ↦ rw e (Triple-pure tt (refl, inr (ground (arith, e))))
        | inr e ↦ rw e (refuse-Triple (ground (arith, e)))
      ]

-- With a positive limit: a request passes only if its caller is administrator or manager, or if
-- fewer leases of the user than the limit count at the time of the call. It is refused only if as
-- many as the limit count then, unless a service fails. The refusal tells a time: up to it and at
-- it the leases that are there stand in the way, after it they do not. Nothing changes either way,
-- and no refusal lacks its time.
pub enforce_lease_request_rate_limit_lem :
    (u : IsbUser) (email : String) (w : World)
    → 0 < max_requests (view w)
    → Ended
        (λ _. Allowed u email (time w) (view w))
        (TooMany u email (time w) (view w))
        (enforce_lease_request_rate_limit u email w)
unfolding enforce_lease_request_rate_limit ◌>>=◌
enforce_lease_request_rate_limit_lem u email w bounded = elim (Bool-cases (is_admin_or_manager u)) [
  | inl e ↦ rw e (refl, inl e)
  | inr e ↦ rw e ((check_window-Triple u email (time w) (view w) bounded e).at w refl)
]
