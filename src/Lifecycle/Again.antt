-- ===== src/Lifecycle/Again.antt =====
-- An alert that ends a lease, delivered twice.
use innovation_sandbox_on_aw.Common.{
  ◌≡◌, refl, sym, ap, ◌∙◌, subst, ◌⊎◌, inl, inr, String, Bool, true, false, Option, none, some, [],
  ◌∷◌, find,
}
use mathlib.Core.Path.{ap₂}
use innovation_sandbox_on_aw.Types.{Lease, ExpiredStatus, budget_exceeded, expired, ended}
use innovation_sandbox_on_aw.Outcome.{Error, ok, remote_failure, lease_inactive, lease_missing}
use innovation_sandbox_on_aw.Events.{Event, lease_budget_exceeded_alert, lease_expired_alert}
use innovation_sandbox_on_aw.LeaseStore.{is_at}
use innovation_sandbox_on_aw.LeaseStore.Laws.{
  lease_in, lease_in-key, find-put_lease, get_lease-Triple,
}
use innovation_sandbox_on_aw.Sandbox.Terminate.{terminated}
use innovation_sandbox_on_aw.Sandbox.Terminate.Pieces.{TerminatedIn}
use innovation_sandbox_on_aw.Sandbox.Terminate.Laws.{LockedIn-TerminatedIn, terminate_lease-Triple}
use innovation_sandbox_on_aw.World.{World}
use innovation_sandbox_on_aw.World.Triple.{
  View, view, Ended, Triple, Triple-bind, Triple-map, Triple-pure, Triple-view, Triple-returned,
}
use innovation_sandbox_on_aw.World.Triple.Bind.{bind_or_throw, bind_guard}
use innovation_sandbox_on_aw.Lifecycle.{
  lease_for, is_monitored_lease, end_lease, handle_lease_budget_exceeded, handle_lease_expired,
  handle_account_life_cycle_event,
}

-- The lease that an alert ends, and the status that it gives it.
abbrev pub ended_by : Event → Option (String × String × ExpiredStatus)
ended_by (lease_budget_exceeded_alert email uuid _ _ _) = some (email, uuid, budget_exceeded)
ended_by (lease_expired_alert email uuid _ _) = some (email, uuid, expired)
ended_by _ = none

lease_for-Triple :
    (test : Lease → Bool) (email uuid : String) (g : View)
    → Triple g
        (λ l v. (v ≡ g) × (lease_in g email uuid ≡ some l) × (test l ≡ true))
        (λ e v.
          (v ≡ g)
          × ((e ≡ remote_failure)
              ⊎ (((e ≡ lease_missing) × (lease_in g email uuid ≡ none))
                  ⊎ ((e ≡ lease_inactive)
                      × ((l : Lease) × (lease_in g email uuid ≡ some l) × (test l ≡ false))))))
        (lease_for test email uuid)
unfolding lease_for
lease_for-Triple test email uuid g =
    Triple-bind _ _ (get_lease-Triple email uuid g) (λ e v h. (h.1, inl h.0))
      (λ found v (same, is). Triple-view same (
        bind_or_throw _ _ _
          (λ l p.
            bind_guard _ _ _ (λ q. Triple-pure l (refl, sym is ∙ p, q))
              (λ q. (refl, inr (inr (refl, (l, sym is ∙ p, q))))))
          (λ p. (refl, inr (inl (refl, sym is ∙ p))))))

-- The record of the lease says that it has ended.
abbrev pub EndedAt : (email uuid : String) → ExpiredStatus → View → Type 0
EndedAt email uuid status v =
    (l : Lease) × (lease_in v email uuid ≡ some l) × (l.status ≡ ended status)

ended_at :
    (email uuid : String) (l : Lease) (status : ExpiredStatus) (g v : View)
    → lease_in g email uuid ≡ some l
    → TerminatedIn l status g v
    → EndedAt email uuid status v
ended_at email uuid l status g v found (now, (slot, stamp, p)) =
    let r : Lease = record (terminated l status now g.env.ttl_days) {
      resource_lock = slot;
      last_edit_time = stamp;
    } in
    let (at_email, at_uuid) = lease_in-key g email uuid l found in
    (
      r,
      sym (ap₂ (λ x y. lease_in v x y) at_email at_uuid)
          ∙ (ap (λ ls. find (is_at l.user_email l.uuid) ls) p ∙ find-put_lease r g.leases),
      refl,
    )

end_lease-Triple :
    (email uuid : String) (status : ExpiredStatus) (g : View)
    → Triple g (λ _ v. EndedAt email uuid status v) (λ _ _. Unit {0}) (end_lease email uuid status)
unfolding end_lease
end_lease-Triple email uuid status g =
    Triple-bind _ _ (lease_for-Triple is_monitored_lease email uuid g) (λ e v h. tt)
      (λ l v (same, found, _). Triple-view same (
        Triple-map _ (terminate_lease-Triple l status g true)
          (λ _ x (a, _, (owner, (locked, _, _))).
            ended_at email uuid l status g x found
              (LockedIn-TerminatedIn l status g owner x locked))
          (λ e x h. tt)))

-- An alert for a lease that has ended changes nothing.
abbrev pub Refused : View → Error → View → Type 0
Refused g e v = (v ≡ g) × ((e ≡ lease_inactive) ⊎ (e ≡ remote_failure))

end_lease-Refused :
    (email uuid : String) (status status' : ExpiredStatus) (g : View)
    → EndedAt email uuid status g
    → Triple g (λ _ _. ⊥) (Refused g) (end_lease email uuid status')
unfolding end_lease
end_lease-Refused email uuid status status' g (l, found, is) =
    Triple-bind _ _ (lease_for-Triple is_monitored_lease email uuid g)
      (λ e v (same, why). (same, reason e why))
      (λ l' v (same, found', monitored). absurd (contradiction l' found' monitored))
  where
    contradiction :
        (l' : Lease) → lease_in g email uuid ≡ some l' → is_monitored_lease l' ≡ true → ⊥
    contradiction l' p q = cc

    reason :
        (e : Error)
        → ((e ≡ remote_failure)
            ⊎ (((e ≡ lease_missing) × (lease_in g email uuid ≡ none))
                ⊎ ((e ≡ lease_inactive)
                    × ((x : Lease) × (lease_in g email uuid ≡ some x)
                        × (is_monitored_lease x ≡ false)))))
        → (e ≡ lease_inactive) ⊎ (e ≡ remote_failure)
    reason e (inl p) = inr p
    reason e (inr (inl (p, missing))) = cc
    reason e (inr (inr (p, _))) = inl p

handled :
    (e : Event) (email uuid : String) (status : ExpiredStatus)
    → ended_by e ≡ some (email, uuid, status)
    → handle_account_life_cycle_event (e ∷ []) ≡ end_lease email uuid status
unfolding handle_account_life_cycle_event handle_lease_budget_exceeded handle_lease_expired
handled (lease_budget_exceeded_alert a b _ _ _) email uuid status p = cc
handled (lease_expired_alert a b _ _) email uuid status p = cc
handled _ email uuid status p = cc

-- If the handler has returned for an alert that a lease is over, because of its budget or its time,
-- then the lease's record says that it has ended, for that reason; and the same alert, delivered
-- again to any world that shows the same tables and services, is refused as one for an inactive
-- lease, or a service fails; it changes nothing.
pub alert_again :
    (e : Event) (email uuid : String) (status : ExpiredStatus) (w u : World)
    → ended_by e ≡ some (email, uuid, status)
    → (handle_account_life_cycle_event (e ∷ []) w).0 ≡ ok tt
    → view u ≡ view (handle_account_life_cycle_event (e ∷ []) w).1
    → EndedAt email uuid status (view u)
      × Ended (λ _ _. ⊥) (Refused (view u)) (handle_account_life_cycle_event (e ∷ []) u)
alert_again e email uuid status w u is returned same =
    let p = handled e email uuid status is in
    let first =
      Triple-returned (end_lease email uuid status) w tt
        (end_lease-Triple email uuid status (view w)) (sym (ap (λ m. (m w).0) p) ∙ returned) in
    let there = subst (EndedAt email uuid status) (sym (same ∙ ap (λ m. view (m w).1) p)) first in
    (
      there,
      subst (λ m. Ended (λ _ _. ⊥) (Refused (view u)) (m u)) (sym p)
          ((end_lease-Refused email uuid status status (view u) there).at u refl),
    )
