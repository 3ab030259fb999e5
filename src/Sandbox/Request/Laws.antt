-- ===== src/Sandbox/Request/Laws.antt =====
-- How `requestLease` ends: the limit, the lease that waits for approval, and the lease that is
-- deleted when its approval fails.
use innovation_sandbox_on_aw.Common.{
  ℕ, ◌<◌, ◌≤◌, ◌≡◌, refl, sym, ap, ◌∙◌, subst, ◌⊎◌, inl, inr, String, Bool, true, false, Option,
  none, some, List, ◌∷◌, keep, arith, str_eq,
}
use innovation_sandbox_on_aw.Types.{Lease, LeaseTemplate, DesiredAssignment}
use innovation_sandbox_on_aw.Outcome.{
  Error, remote_failure, invalid_item, max_number_of_leases_exceeded, not_an_idc_user,
  item_already_exists,
}
use innovation_sandbox_on_aw.Auth.{IsbUser, get_user_email, idc_user_id}
use innovation_sandbox_on_aw.Events.{lease_requested}
use innovation_sandbox_on_aw.Table.{find-erase}
use innovation_sandbox_on_aw.LeaseStore.{edited, is_at}
use innovation_sandbox_on_aw.LeaseStore.Laws.{
  lease_in, with_lease, find_by_user_email-Triple, create_lease-Triple, delete_lease-Triple,
}
use innovation_sandbox_on_aw.AssignmentLock.{owner_entry, all_enriched}
use innovation_sandbox_on_aw.AssignmentLock.Laws.{enrich-Triple, IsLockError}
use innovation_sandbox_on_aw.Sandbox.Request.{
  number_of_active, requested_lease, is_auto_approved, settle_request, request_lease,
}
use innovation_sandbox_on_aw.World.{World, put_event}
use innovation_sandbox_on_aw.World.Triple.{
  View, view, Ended, Triple, Triple-bind, Triple-map, Triple-pure, Triple-view,
  Triple-rethrow_after, Triple-any,
}
use innovation_sandbox_on_aw.World.Triple.Bind.{
  bind_gets, bind_reads, bind_guard, bind_or_throw, bind_send,
}
use innovation_sandbox_on_aw.World.Frame.{after_call}

-- The leases that count against the limit of the user.
abbrev pub in_use : View → String → ℕ
in_use g email = number_of_active (keep (λ l. str_eq l.user_email email) g.leases)

module _ (t : LeaseTemplate) (comments : Option String) (target : IsbUser)
    (created_by : Option String) (ds : List DesiredAssignment) where
  -- The lease is on record, with the owner among its assignments, under a key that was free.
  abbrev pub Requested : View → Lease → View → Type 0
  Requested g l v =
      (user_id : String) × (uuid : String) × (now : ℕ) × (es : List DesiredAssignment) × (in_use g
          (get_user_email target)
        < g.env.max_leases_per_user)
      × (idc_user_id target ≡ some user_id)
      × (all_enriched g.env.principal_of (owner_entry user_id ∷ ds) ≡ some es)
      × (l ≡ edited (requested_lease t (get_user_email target) uuid comments created_by es) now)
      × (lease_in g (get_user_email target) uuid ≡ none)
      × (v ≡ with_lease l g)

  abbrev pub NotRequested : View → Error → View → Type 0
  NotRequested g max_number_of_leases_exceeded v =
      (v ≡ g) × (g.env.max_leases_per_user ≤ in_use g (get_user_email target))
  NotRequested g not_an_idc_user v = (v ≡ g) × (idc_user_id target ≡ none)
  NotRequested g remote_failure v = (v ≡ g) ⊎ ((l : Lease) × Requested g l v)
  NotRequested g _ v = v ≡ g

  abbrev pub Waiting : View → Lease → View → Type 0
  Waiting g l v =
      (u : View) × Requested g l u
      × (v ≡ after_call (put_event (lease_requested l.user_email l.uuid l.comments true)) u)

  lock_error : (g : View) (e : Error) → IsLockError e → NotRequested g e g
  lock_error g remote_failure h = inl refl
  lock_error g max_number_of_leases_exceeded h = absurd h
  lock_error g not_an_idc_user h = absurd h
  lock_error g _ h = refl

  not_created :
      (g : View) (e : Error)
      → (e ≡ invalid_item) ⊎ ((e ≡ remote_failure) ⊎ (e ≡ item_already_exists))
      → NotRequested g e g
  not_created g e (inl p) = subst (λ x. NotRequested g x g) (sym p) refl
  not_created g e (inr (inl p)) = subst (λ x. NotRequested g x g) (sym p) (inl refl)
  not_created g e (inr (inr p)) = subst (λ x. NotRequested g x g) (sym p) refl

  wait-Triple :
      (g u : View) (l : Lease) (auto : Bool)
      → auto ≡ false
      → Requested g l u
      → Triple u (Waiting g) (NotRequested g) (settle_request l auto)
  unfolding settle_request
  wait-Triple g u l true p h = cc
  wait-Triple g u l false p h = bind_send _ _ (inr (l, h)) (Triple-pure l (u, h, refl))

  request_lease-Triple :
      (g : View)
      → is_auto_approved t created_by ≡ false
      → Triple g (Waiting g) (NotRequested g) (request_lease t comments target created_by ds)
  unfolding request_lease requested_lease
  request_lease-Triple g manual =
      Triple-bind _ _ (find_by_user_email-Triple (get_user_email target) g)
        (λ e v (p, same). subst (λ x. NotRequested g x v) (sym p) (inl same))
        (λ leases v (same, found). Triple-view same (
          bind_reads (λ (x : View). x.env.max_leases_per_user) _
            (bind_guard _ _ _
              (λ below.
                bind_or_throw _ _ _
                  (λ user_id is.
                    Triple-bind _ _ (enrich-Triple (owner_entry user_id ∷ ds) g)
                      (λ e x (p, h). subst (NotRequested g e) (sym p) (lock_error g e h))
                      (λ es x (p, enriched). Triple-view p (
                        bind_gets _ _ (λ w _.
                          Triple-bind _ _ (create_lease-Triple _ g)
                            (λ e y (q, h). subst (NotRequested g e) (sym q) (not_created g e h))
                            (λ l y (now, free, new, q). wait-Triple g y l _ manual (
                              user_id,
                              _,
                              now,
                              es,
                              ground (arith, found, below),
                              is,
                              enriched,
                              new,
                              free,
                              q ∙ ap (λ x'. with_lease x' g) (sym new),
                            ))))))
                  (λ missing. (refl, missing)))
              (λ full. (refl, ground (arith, found, full))))))

  -- For a request that needs an approval: the lease is put on record with the owner among its
  -- assignments, and approval is asked for, only if the user had fewer leases in use than the
  -- limit allows, is a user of Identity Center, and every assignment resolves. If the limit is
  -- reached, or the user is none of Identity Center, or an assignment does not resolve, or the
  -- schema refuses the record, nothing has changed; an error of a service leaves either nothing or
  -- the lease on record without the event.
  pub request_lease_lem :
      (w : World)
      → is_auto_approved t created_by ≡ false
      → Ended
          (Waiting (view w))
          (NotRequested (view w))
          (request_lease t comments target created_by ds w)
  request_lease_lem w manual = (request_lease-Triple (view w) manual).at w refl

-- If a lease that was just created is to be approved at once and the approval throws, then the
-- lease is off the record again, unless the error is one of a service.
pub settle_request_lem :
    (l : Lease) (w : World)
    → Ended
        (λ _ _. Unit {0})
        (λ e v. (e ≡ remote_failure) ⊎ (lease_in v l.user_email l.uuid ≡ none))
        (settle_request l true w)
unfolding settle_request
settle_request_lem l w = (triple (view w)).at w refl
  where
    triple :
        (g : View)
        → Triple g
            (λ _ _. Unit {0})
            (λ e v. (e ≡ remote_failure) ⊎ (lease_in v l.user_email l.uuid ≡ none))
            (settle_request l true)
    triple g =
        Triple-bind {Q = λ _ _. Unit {0}} _ _
          (Triple-rethrow_after {Q = λ _ _. Unit {0}} {E = λ _ _. Unit {0}} _ _ (Triple-any _)
            (λ _ v h. tt)
            (λ e v h.
              Triple-map _ (delete_lease-Triple l.user_email l.uuid v)
                (λ _ u p. inr (
                  ap (λ (y : View). lease_in y l.user_email l.uuid) p
                  ∙ find-erase (is_at l.user_email l.uuid) v.leases))
                (λ e u p. inl p.0)))
          (λ e v h. h) (λ _ v h. Triple-pure _ tt)
