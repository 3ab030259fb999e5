-- ===== src/Sandbox/Freeze/Unfreeze.antt =====
-- How `unfreezeLease` ends.
use innovation_sandbox_on_aw.Common.{
  ℕ, ◌≡◌, ◌⊎◌, inl, inr, refl, sym, ap, subst, ◌∙◌, String, true, false, none, some, if◌then◌else◌,
}
use innovation_sandbox_on_aw.Types.{Lease, Account, Lock, unfreeze, active, frozen, is_frozen_lease}
use innovation_sandbox_on_aw.Outcome.{
  Error, transaction_failed_and_rolled_back, rollback_failed, remote_failure, ◌>>◌, pure,
}
use innovation_sandbox_on_aw.Events.{lease_unfrozen}
use innovation_sandbox_on_aw.Table.{put, put-put, find-put, find-holds}
use innovation_sandbox_on_aw.LeaseStore.{StepResult, is_at, same_key, edited, locked}
use innovation_sandbox_on_aw.LeaseStore.Laws.{
  lease_in, with_lease_at, with_lease, KeepsLease, HasRecord, released_rest, released-HasRecord,
}
use innovation_sandbox_on_aw.AccountStore.Laws.{account_in}
use innovation_sandbox_on_aw.AssignmentLock.{
  ProcessingLock, processing_lock, publish_assignment_processing_request,
}
use innovation_sandbox_on_aw.AssignmentLock.Laws.{
  IsLockError, NotRequested, Returned, Returned-GaveBack, GaveBack, release-Triple,
  GaveBack-KeepsLease, bind_lock, bind_publish,
}
use innovation_sandbox_on_aw.Sandbox.Parts.{events_of, account_id, bind_account_of, bind_tag}
use innovation_sandbox_on_aw.Sandbox.Steps.{settled, update_then_move-Triple}
use innovation_sandbox_on_aw.Sandbox.Steps.Kept.{
  AccountIn, NoEvent, WriteKept, WriteFailed-WriteKept,
}
use innovation_sandbox_on_aw.Sandbox.Freeze.{unfreeze_lease}
use innovation_sandbox_on_aw.World.{World, send, put_event, tag_status}
use innovation_sandbox_on_aw.World.Triple.{
  View, view, Ended, Triple, Triple-bind, Triple-map, Triple-view, Triple-on_error, Triple-pure,
}
use innovation_sandbox_on_aw.World.Triple.Bind.{bind_guard, bind_send}
use innovation_sandbox_on_aw.World.Frame.{after_call}

abbrev thawed : Lease → Lease
thawed l = record l { status = active }

-- The tables after a lease and its account were unfrozen.
abbrev pub Thawed : Lease → View → View → Type 0
Thawed l g v =
    (a : Account) × (account_in g (account_id l) ≡ some a)
    × HasRecord (thawed l) g v
    × AccountIn a active g v

-- The accounts are as they were, and no event was sent; the record has kept all but its lock and
-- stamp, or, if the rollback failed, it is the active one.
abbrev pub UnfreezeFailed : Lease → View → Error → View → Type 0
UnfreezeFailed l g transaction_failed_and_rolled_back v =
    (v.accounts ≡ g.accounts)
    × NoEvent g v
    × ((old : Lease) × (lease_in g l.user_email l.uuid ≡ some old)
        × KeepsLease l.user_email l.uuid old v)
UnfreezeFailed l g rollback_failed v =
    (v.accounts ≡ g.accounts) × NoEvent g v × HasRecord (thawed l) g v
UnfreezeFailed l g remote_failure v = (v ≡ g) ⊎ Thawed l g v
UnfreezeFailed l g _ v = v ≡ g

UnfreezeFailed-lock : (l : Lease) (g : View) (e : Error) → IsLockError e → UnfreezeFailed l g e g
UnfreezeFailed-lock l g remote_failure h = inl refl
UnfreezeFailed-lock l g transaction_failed_and_rolled_back h = absurd h
UnfreezeFailed-lock l g rollback_failed h = absurd h
UnfreezeFailed-lock l g _ h = refl

module _ (l : Lease) (g : View) (a : Account) (found : account_in g (account_id l) ≡ some a)
    (old : Lease) (there : lease_in g l.user_email l.uuid ≡ some old) (owner : String) (count : ℕ)
    (lock : Lock) where
  abbrev taken : View
  taken = with_lease_at l.user_email l.uuid (locked old lock none) g

  abbrev held : ProcessingLock
  held = processing_lock l.uuid l.user_email unfreeze owner count lock

  abbrev active_lease : Lease
  active_lease = record l { status = active; resource_lock = some lock }

  at_key : is_at l.user_email l.uuid old ≡ true
  at_key = find-holds (is_at l.user_email l.uuid) g.leases old there

  -- What is written over the locked record is written over the record.
  over : (x : Lease) → put (same_key l) x taken.leases ≡ put (same_key l) x g.leases
  over x = put-put (same_key l) x (locked old lock none) g.leases at_key

  gave_back :
      (x v : View)
      → GaveBack held x v
      → HasRecord (thawed l) g x
      → HasRecord (thawed l) g v × (v.accounts ≡ x.accounts) × (v.sent ≡ x.sent)
  gave_back x v (inl p) h =
      let rest = released_rest l.user_email l.uuid owner x in
      (
        subst (HasRecord (thawed l) g) (sym p) (released-HasRecord (thawed l) owner g x h),
        ap (λ (y : View). y.accounts) p ∙ rest.0,
        ap (λ (y : View). y.sent) p ∙ rest.1,
      )
  gave_back x v (inr p) h = (
    subst (HasRecord (thawed l) g) (sym p) h,
    ap (λ (y : View). y.accounts) p,
    ap (λ (y : View). y.sent) p,
  )

  rolled_back :
      (e : Error) (x : View)
      → WriteKept active_lease taken e x
      → (v : View) → GaveBack held x v
      → UnfreezeFailed l g e v
  rolled_back transaction_failed_and_rolled_back x (accounts, quiet, kept) v b =
      let (stamp, is) =
        kept (locked old lock none)
          (find-put (is_at l.user_email l.uuid) (locked old lock none) g.leases at_key) in
      let (lease, same, sent) = GaveBack-KeepsLease held old x v (some lock, stamp, is) b in
      (same ∙ accounts, ap events_of sent ∙ quiet, (old, there, lease))
  rolled_back rollback_failed x (accounts, quiet, (t, p)) v b =
      let (lease, same, sent) = gave_back x v b (some lock, some t, p ∙ over _) in
      (same ∙ accounts, ap events_of sent ∙ quiet, lease)
  rolled_back _ x h v b = absurd h

  written :
      (t t' : ℕ) (u v : View)
      → u ≡ with_lease (edited active_lease t) taken
      → v ≡ settled a frozen active t' u
      → Thawed l g v
  written t t' u v p q =
      let same = q ∙ ap (settled a frozen active t') p in
      (
        a,
        found,
        (some lock, some t, ap (λ (x : View). x.leases) same ∙ over _),
        (t', ap (λ (x : View). x.accounts) same),
      )

  request_failed : (u v : View) → NotRequested held u remote_failure v → Thawed l g u → Thawed l g v
  request_failed u v (_, h) (b, is, record', (t, accounts)) =
      choice (held.release_lock_on_event_failure) h
    where
      back : GaveBack held u v → Thawed l g v
      back k =
          let (lease, same, sent) = gave_back u v k record' in (b, is, lease, (t, same ∙ accounts))

      choice : (c : _) → (if c then Returned held u v else v ≡ u) → Thawed l g v
      choice true k = back (Returned-GaveBack held u v k)
      choice false k = back (inr k)

  unfreeze_end-Triple :
      (r : StepResult) (u : View)
      → Thawed l g u
      → Triple u
          (λ _ v. Thawed l g v)
          (UnfreezeFailed l g)
          (do
            publish_assignment_processing_request held
            send (
                put_event (
                  lease_unfrozen l.user_email l.uuid a.aws_account_id l.max_spend
                    l.lease_duration_in_hours))
            pure r)
  unfreeze_end-Triple r u h =
      bind_publish _ _ (λ v x. inr (request_failed u v x h))
        (bind_send _ _ (inr h) (Triple-pure r h))

unfreeze_lease-Triple :
    (l : Lease) (g : View)
    → Triple g
        (λ _ v. (is_frozen_lease l ≡ true) × Thawed l g v)
        (UnfreezeFailed l g)
        (unfreeze_lease l)
unfolding unfreeze_lease
unfreeze_lease-Triple l g =
    bind_guard _ _ _
      (λ is_frozen. bind_account_of l _ (inl refl) refl (λ a found.
        bind_lock l.uuid l.user_email unfreeze none _ (UnfreezeFailed-lock l g)
          (λ owner count lock v1 (now, old, ds, there, admitted, is_new, (p, q), same).
            Triple-view (same ∙ ap (λ x. with_lease_at l.user_email l.uuid (locked old lock x) g) p)
              (Triple-bind _ _
                (Triple-on_error _ _
                  (update_then_move-Triple a frozen active
                    (active_lease l g a found old there owner count lock)
                    (taken l g a found old there owner count lock))
                  (λ r v h. h)
                  (λ e x h.
                    Triple-map _ (release-Triple _ x)
                      (λ _ v b.
                        rolled_back l g a found old there owner count lock e x
                          (WriteFailed-WriteKept
                            (active_lease l g a found old there owner count lock) a frozen active _
                            e x h)
                          v b)
                      (λ _ v (h : ⊥). absurd h)))
                (λ e v h. h)
                (λ r v (old', u, t, t', _, _, written', moved').
                  let done =
                    written l g a found old there owner count lock t t' u v written' moved' in
                  Triple-map _
                    (bind_tag _ _ _
                      (unfreeze_end-Triple l g a found old there owner count lock r
                        (after_call (tag_status a.aws_account_id active) v) done)
                      (unfreeze_end-Triple l g a found old there owner count lock r v done))
                    (λ _ x k. (is_frozen, k)) (λ e x k. k))))))
      (λ not_frozen. refl)

-- If `unfreezeLease` returns, the lease was Frozen; now its record is Active and the account's
-- record is in the Active unit. If the transaction was rolled back, the accounts are as they were,
-- the lease's record has kept all but its lock and its edit stamp, and no event was sent; if the
-- rollback failed too, the record is the Active one while the account is not moved. An error of a
-- service has changed nothing, or has come after the transaction; any other error has changed
-- nothing.
pub unfreeze_lease_lem :
    (l : Lease) (w : World)
    → Ended
        (λ _ v. (is_frozen_lease l ≡ true) × Thawed l (view w) v)
        (UnfreezeFailed l (view w))
        (unfreeze_lease l w)
unfreeze_lease_lem l w = (unfreeze_lease-Triple l (view w)).at w refl
