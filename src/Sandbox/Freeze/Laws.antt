-- ===== src/Sandbox/Freeze/Laws.antt =====
-- How `freezeLease` ends.
use innovation_sandbox_on_aw.Common.{
  ℕ, ◌≡◌, ◌⊎◌, inl, inr, refl, sym, ap, subst, ◌∙◌, String, true, none, some, List, find, [], ◌∷◌,
  ◌++◌,
}
use innovation_sandbox_on_aw.Types.{Lease, Account, Lock, freeze, active, frozen, is_active_lease}
use innovation_sandbox_on_aw.Outcome.{
  Error, transaction_failed_and_rolled_back, rollback_failed, remote_failure, ◌>>◌,
}
use innovation_sandbox_on_aw.Events.{Event, FrozenReason, lease_frozen, assignment_requested}
use innovation_sandbox_on_aw.Table.{put, put-put, find-holds}
use innovation_sandbox_on_aw.LeaseStore.{is_at, same_key, edited, locked}
use innovation_sandbox_on_aw.LeaseStore.Laws.{
  lease_in, with_lease_at, KeepsLease, locked-KeepsLease,
}
use innovation_sandbox_on_aw.AccountStore.Laws.{account_in}
use innovation_sandbox_on_aw.AssignmentLock.{
  ProcessingLock, processing_lock, publish_assignment_processing_request,
}
use innovation_sandbox_on_aw.AssignmentLock.Laws.{
  IsLockError, NotRequested, GaveBack, release-Triple, GaveBack-KeepsLease, bind_lock, bind_publish,
}
use innovation_sandbox_on_aw.Sandbox.{update_status_tag}
use innovation_sandbox_on_aw.Sandbox.Parts.{events_of, account_id, bind_account_of, bind_tag}
use innovation_sandbox_on_aw.Sandbox.Steps.{Rewritten, settled, move_then_update-Triple}
use innovation_sandbox_on_aw.Sandbox.Steps.Kept.{
  AccountIn, AccountBack, NoEvent, MoveKept, MoveFailed-MoveKept,
}
use innovation_sandbox_on_aw.Sandbox.Freeze.{freeze_lease}
use innovation_sandbox_on_aw.World.{World, send, put_event, tag_status}
use innovation_sandbox_on_aw.World.Triple.{
  View, view, Ended, Triple, Triple-bind, Triple-map, Triple-view, Triple-on_error,
}
use innovation_sandbox_on_aw.World.Triple.Bind.{bind_guard}
use innovation_sandbox_on_aw.World.Frame.{send-Triple, after_call}
use innovation_sandbox_on_aw.LeaseLock.{is_critical}

-- The lease as it is written, with the lock that was taken for it.
abbrev pub frozen_lease : Lease → Lock → Lease
frozen_lease l lock = record l { status = frozen; resource_lock = some lock }

-- The tables after a freeze of the lease and of its account.
abbrev pub Frozen : Lease → View → View → Type 0
Frozen l g v =
    (a : Account) × (lock : Lock) × (t : ℕ) × (account_in g (account_id l) ≡ some a)
    × (v.leases ≡ put (same_key l) (edited (frozen_lease l lock) t) g.leases)
    × AccountIn a frozen g v

-- The tables after a freeze that came to nothing: the lease's record has kept all but its lock.
abbrev pub NotFrozen : Lease → (Account → View → Type 0) → View → View → Type 0
NotFrozen l Accounts g v =
    (a : Account) × (old : Lease) × (account_in g (account_id l) ≡ some a)
    × (lease_in g l.user_email l.uuid ≡ some old)
    × KeepsLease l.user_email l.uuid old v
    × Accounts a v
    × NoEvent g v

abbrev pub FreezeFailed : Lease → View → Error → View → Type 0
FreezeFailed l g transaction_failed_and_rolled_back v =
    NotFrozen l (λ a x. AccountBack a active g x) g v
FreezeFailed l g rollback_failed v = NotFrozen l (λ a x. AccountIn a frozen g x) g v
FreezeFailed l g remote_failure v = (v ≡ g) ⊎ Frozen l g v
FreezeFailed l g _ v = v ≡ g

module _ (l : Lease) (g : View) (a : Account) (found : account_in g (account_id l) ≡ some a)
    (old : Lease) (there : lease_in g l.user_email l.uuid ≡ some old) (owner : String) (count : ℕ)
    (lock : Lock) where
  abbrev taken : View
  taken = with_lease_at l.user_email l.uuid (locked old lock none) g

  still : (x : View) → x.leases ≡ taken.leases → KeepsLease l.user_email l.uuid old x
  still x p =
      let (slot, stamp, is) = locked-KeepsLease l.user_email l.uuid old lock g there in
      (slot, stamp, ap (λ ls. find (is_at l.user_email l.uuid) ls) p ∙ is)

  abbrev held : ProcessingLock
  held = processing_lock l.uuid l.user_email freeze owner count lock

  rolled_back :
      (e : Error) (x : View)
      → MoveKept a active frozen taken e x
      → (v : View) → GaveBack held x v
      → FreezeFailed l g e v
  rolled_back transaction_failed_and_rolled_back x (leases, quiet, back) v b =
      let (kept, accounts, sent) = GaveBack-KeepsLease held old x v (still x leases) b in
      (
        a,
        old,
        found,
        there,
        kept,
        elim back [ inl p ↦ inl (accounts ∙ p) | inr (t, p) ↦ inr (t, accounts ∙ p) ],
        ap events_of sent ∙ quiet,
      )
  rolled_back rollback_failed x (leases, quiet, (t, p)) v b =
      let (kept, accounts, sent) = GaveBack-KeepsLease held old x v (still x leases) b in
      (a, old, found, there, kept, (t, accounts ∙ p), ap events_of sent ∙ quiet)
  rolled_back _ x h v b = absurd h

  written :
      (t : ℕ) (old' : Lease) (v : View)
      → Rewritten (frozen_lease l lock) old' (settled a active frozen t taken) v
      → Frozen l g v
  written t old' v (t', _, same) = (
    a,
    lock,
    t',
    found,
    ap (λ (x : View). x.leases) same
        ∙ put-put (same_key l) _ (locked old lock none) g.leases
            (find-holds (same_key l) g.leases old there),
    (t, ap (λ (x : View). x.accounts) same),
  )

-- The tables of a freeze do not change with the calls that follow it.
Frozen-calls :
    (l : Lease) (g u v : View)
    → v.leases ≡ u.leases
    → v.accounts ≡ u.accounts
    → Frozen l g u
    → Frozen l g v
Frozen-calls l g u v p q (a, lock, t, found, leases, (t', accounts)) =
    (a, lock, t, found, p ∙ leases, (t', q ∙ accounts))

-- The events that a freeze sends, the last one first.
abbrev pub freeze_events : Lease → FrozenReason → Account → String → List Event
freeze_events l reason a owner =
    lease_frozen l.user_email l.uuid a.aws_account_id reason
    ∷ assignment_requested freeze l.uuid l.user_email owner l.user_email
    ∷ []

abbrev pub FreezeDone : Lease → FrozenReason → View → View → Type 0
FreezeDone l reason g v =
    Frozen l g v
    × ((a : Account) × (owner : String) × (account_in g (account_id l) ≡ some a)
        × (events_of v.sent ≡ freeze_events l reason a owner ++ events_of g.sent))

FreezeFailed-lock : (l : Lease) (g : View) (e : Error) → IsLockError e → FreezeFailed l g e g
FreezeFailed-lock l g remote_failure h = inl refl
FreezeFailed-lock l g transaction_failed_and_rolled_back h = absurd h
FreezeFailed-lock l g rollback_failed h = absurd h
FreezeFailed-lock l g _ h = refl

-- A failed request leaves the lock: freezing is critical.
freeze-NotRequested :
    (lease_id email owner : String) (count : ℕ) (lock : Lock) (u v : View)
    → NotRequested (processing_lock lease_id email freeze owner count lock) u remote_failure v
    → v ≡ u
unfolding is_critical
freeze-NotRequested lease_id email owner count lock u v h = h.1

module _ (l : Lease) (reason : FrozenReason) (g : View) (a : Account)
    (found : account_in g (account_id l) ≡ some a) (owner : String) (count : ℕ) (lock : Lock) where
  abbrev request : ProcessingLock
  request = processing_lock l.uuid l.user_email freeze owner count lock

  same_tables : (u v : View) → v ≡ u → Frozen l g u → Frozen l g v
  same_tables u v same h = subst (Frozen l g) (sym same) h

  -- The request and the event that follow the tag.
  announce-Triple :
      (u : View)
      → Frozen l g u
      → NoEvent g u
      → Triple u
          (λ _ v. FreezeDone l reason g v)
          (FreezeFailed l g)
          (do
            publish_assignment_processing_request request
            send (put_event (lease_frozen l.user_email l.uuid a.aws_account_id reason)))
  announce-Triple u h quiet =
      bind_publish _ _
        (λ v x. inr (same_tables u v (freeze-NotRequested _ _ owner count lock u v x) h))
        (Triple-map _ (send-Triple _ _)
          (λ _ v same. (
            same_tables _ v same h,
            (
              a,
              owner,
              found,
              ap (λ (y : View). events_of y.sent) same
                  ∙ ap (λ es. freeze_events l reason a owner ++ es) quiet,
            ),
          ))
          (λ e v (p, same).
            subst (λ x. FreezeFailed l g x v) (sym p) (inr (same_tables _ v same h))))

  -- What follows the transaction: the tag, the request and the event.
  freeze_end-Triple :
      (u : View)
      → Frozen l g u
      → NoEvent g u
      → Triple u
          (λ _ v. FreezeDone l reason g v)
          (FreezeFailed l g)
          (do
            update_status_tag a.aws_account_id frozen
            publish_assignment_processing_request request
            send (put_event (lease_frozen l.user_email l.uuid a.aws_account_id reason)))
  freeze_end-Triple u h quiet =
      bind_tag _ _ _ (announce-Triple (after_call (tag_status a.aws_account_id frozen) u) h quiet)
        (announce-Triple u h quiet)

freeze_lease-Triple :
    (l : Lease) (reason : FrozenReason) (g : View)
    → Triple g
        (λ _ v. (is_active_lease l ≡ true) × FreezeDone l reason g v)
        (FreezeFailed l g)
        (freeze_lease l reason)
unfolding freeze_lease
freeze_lease-Triple l reason g =
    bind_guard _ _ _
      (λ is_active. bind_account_of l _ (inl refl) refl (λ a found.
        bind_lock l.uuid l.user_email freeze none _ (FreezeFailed-lock l g)
          (λ owner count lock v1 (now, old, written', there, admitted, is_new, (p, q), same).
            Triple-view
              (same ∙ ap (λ ds. with_lease_at l.user_email l.uuid (locked old lock ds) g) p)
              (Triple-bind _ _
                (Triple-on_error _ _
                  (move_then_update-Triple a active frozen (frozen_lease l lock)
                    (taken l g a found old there owner count lock))
                  (λ r v h. h)
                  (λ e x h.
                    Triple-map _ (release-Triple _ x)
                      (λ _ v b.
                        rolled_back l g a found old there owner count lock e x
                          (MoveFailed-MoveKept a active frozen _ e x h) v b)
                      (λ _ v (h : ⊥). absurd h)))
                (λ e v h. h)
                (λ r v (t, old', h).
                  Triple-map _
                    (freeze_end-Triple l reason g a found owner count lock v
                      (written l g a found old there owner count lock t old' v h)
                      (ap (λ (y : View). events_of y.sent) h.2))
                    (λ _ x k. (is_active, k)) (λ e x k. k))))))
      (λ not_active. refl)

-- If `freezeLease` returns, the lease was Active; its record is the given one, Frozen and locked,
-- the account's record is in the Frozen unit, and the two events were sent. If the transaction
-- was rolled back, the lease's record has kept all but its lock and its edit stamp, the account's
-- record is the old one or is written back to Active, and no event was sent; if the rollback
-- failed too, the account's record stays in the Frozen unit. An error of a service has changed
-- nothing, or has come after the transaction; any other error has changed nothing.
pub freeze_lease_lem :
    (l : Lease) (reason : FrozenReason) (w : World)
    → Ended
        (λ _ v. (is_active_lease l ≡ true) × FreezeDone l reason (view w) v)
        (FreezeFailed l (view w))
        (freeze_lease l reason w)
freeze_lease_lem l reason w = (freeze_lease-Triple l reason (view w)).at w refl
