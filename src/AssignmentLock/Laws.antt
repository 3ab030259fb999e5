-- ===== src/AssignmentLock/Laws.antt =====
-- What taking the lock and requesting the processing do, on each of their outcomes.
use innovation_sandbox_on_aw.Common.{
  ℕ, ◌+◌, find, ◌≤◌, ◌≡◌, refl, sym, subst, ap, ◌∙◌, ◌⊎◌, inl, inr, String, Bool, true, false,
  Option, none, some, List, [], ◌∷◌, length, arith, if◌then◌else◌, Bool-cases,
}
use innovation_sandbox_on_aw.Types.{Lease, Lock, Intent, DesiredAssignment}
use innovation_sandbox_on_aw.Outcome.{
  Error, remote_failure, resource_lock_conflict, invalid_item, principal_unresolved,
  max_assignments_exceeded, Action, pure, Result, err, bind-err, swallow, on_error-ok, on_error-err,
  ◌>>=◌,
}
use innovation_sandbox_on_aw.Events.{assignment_requested}
use innovation_sandbox_on_aw.LeaseLock.{admits, new_lock}
use innovation_sandbox_on_aw.LeaseStore.{is_at, locked, release_lock}
use innovation_sandbox_on_aw.LeaseStore.Laws.{
  release_lock-ok, view-unlock, lease_in, with_lease_at, released, KeepsLease, released-KeepsLease,
  released_rest, acquire_lock-Triple, release_lock-Triple,
}
use innovation_sandbox_on_aw.AssignmentLock.{
  ProcessingLock, processing_lock, timeout_of, max_assignments, all_enriched, with_owner,
  enrich_desired_assignments, enrich_with_owner, validate_assignment_count, acquire_assignment_lock,
  acquire_assignment_processing_lock, release_assignment_processing_lock,
  publish_assignment_processing_request, trigger_assignment_processing,
}
use innovation_sandbox_on_aw.World.{World, put_event, tick, remote}
use innovation_sandbox_on_aw.World.Triple.{
  View, view, Ended, Triple, Triple-bind, Triple-view, Triple-map, Triple-pure, Triple-or_throw,
  Triple-guard, Triple-swallow,
}
use innovation_sandbox_on_aw.World.Triple.Bind.{bind_gets, bind_reads, bind_remote, bind_or_throw}
use innovation_sandbox_on_aw.World.Frame.{after_call, remote-down, send-ok, send-down}

-- The errors of an acquisition.
abbrev pub IsLockError : Error → Type 0
IsLockError remote_failure = Unit
IsLockError resource_lock_conflict = Unit
IsLockError invalid_item = Unit
IsLockError principal_unresolved = Unit
IsLockError max_assignments_exceeded = Unit
IsLockError _ = ⊥

abbrev pub NotLocked : View → Error → View → Type 0
NotLocked g e v = (v ≡ g) × IsLockError e

pub enrich-Triple :
    (desired : List DesiredAssignment) (g : View)
    → Triple g
        (λ es v. (v ≡ g) × (all_enriched g.env.principal_of desired ≡ some es))
        (NotLocked g)
        (enrich_desired_assignments desired)
unfolding enrich_desired_assignments all_enriched
enrich-Triple [] g = Triple-pure _ (refl, refl)
enrich-Triple (a ∷ as') g =
    bind_remote _ (refl, tt)
      (bind_reads (λ v. all_enriched v.env.principal_of (a ∷ as')) _
        (Triple-or_throw _ _ (λ es found. (refl, found)) (λ missing. (refl, tt))))

enrich_with_owner-Triple :
    (desired : List DesiredAssignment) (email : String) (g : View)
    → Triple g
        (λ es v.
          (v ≡ g)
          × ((owner : String) × (g.env.principal_id_of email ≡ some owner)
              × (all_enriched g.env.principal_of (with_owner owner desired) ≡ some es)))
        (NotLocked g)
        (enrich_with_owner desired email)
unfolding enrich_with_owner
enrich_with_owner-Triple desired email g =
    bind_remote _ (refl, tt)
      (bind_reads (λ v. v.env.principal_id_of email) _
        (bind_or_throw _ _ _
          (λ owner found.
            Triple-map _ (enrich-Triple _ g) (λ es v h. (h.0, (owner, found, h.1))) (λ e v h. h))
          (λ missing. (refl, tt))))

-- The assignments that are written with the lock, and their number, for those that the caller
-- asked for: none, or the enriched list with the owner in it, of at most 20 entries.
abbrev pub Prepared :
    View → String → Option (List DesiredAssignment) → Option (List DesiredAssignment) → ℕ → Type 0
Prepared g email none written count = (written ≡ none) × (count ≡ 0)
Prepared g email (some desired) written count =
    (owner : String) × (es : List DesiredAssignment) × (g.env.principal_id_of email ≡ some owner)
    × (all_enriched g.env.principal_of (with_owner owner desired) ≡ some es)
    × (written ≡ some es)
    × (count ≡ length es)
    × (length es ≤ max_assignments)

-- The record of the lease was there and admitted the lock, which it has now.
abbrev pub Locked :
    (lease_id email : String)
    → Intent
    → Option (List DesiredAssignment)
    → View
    → String
    → ℕ
    → Lock
    → View
    → Type 0
Locked lease_id email intent desired g owner count lock v =
    (now : ℕ) × (old : Lease) × (written : Option (List DesiredAssignment)) × (lease_in g email
        lease_id
      ≡ some old)
    × (admits owner now (some intent) old.resource_lock ≡ true)
    × (lock ≡ new_lock owner now (timeout_of intent) (some intent))
    × Prepared g email desired written count
    × (v ≡ with_lease_at email lease_id (locked old lock written) g)

acquire_assignment_lock-Triple :
    (lease_id email : String) (intent : Intent) (desired : Option (List DesiredAssignment))
    (owner : String) (g : View)
    → Triple g
        (λ r v. Locked lease_id email intent desired g owner r.0 r.1 v)
        (NotLocked g)
        (acquire_assignment_lock lease_id email intent desired owner (timeout_of intent))
unfolding acquire_assignment_lock
acquire_assignment_lock-Triple lease_id email intent none owner g =
    Triple-bind _ _ (acquire_lock-Triple email lease_id owner _ (some intent) none g)
      (λ e v h. (h.0, ground arith))
      (λ lock v (now, old, found, admitted, is_new, same).
        Triple-pure _ (now, old, none, found, admitted, is_new, (refl, refl), same))
acquire_assignment_lock-Triple lease_id email intent (some desired) owner g =
    Triple-bind _ _ (enrich_with_owner-Triple desired email g) (λ e v h. h)
      (λ es v (same, (id, resolved, enriched)). Triple-view same (
        Triple-bind {Q = λ _ u. (u ≡ g) × (length es ≤ max_assignments)} {E = NotLocked g} _ _
          (unfold validate_assignment_count in
            Triple-guard _ _ (λ few. (refl, ground arith)) (λ many. (refl, tt)))
          (λ e u h. h)
          (λ _ u (same', few). Triple-view same' (
            Triple-bind _ _ (acquire_lock-Triple email lease_id owner _ (some intent) (some es) g)
              (λ e x h. (h.0, ground arith))
              (λ lock x (now, old, found, admitted, is_new, same''). Triple-pure _ (
                now,
                old,
                some es,
                found,
                admitted,
                is_new,
                (id, es, resolved, enriched, refl, refl, few),
                same'',
              ))))))

-- An acquisition returns the lock that the lease's record has from then on, or has changed
-- nothing.
pub acquire_assignment_processing_lock-Triple :
    (lease_id email : String) (intent : Intent) (desired : Option (List DesiredAssignment))
    (g : View)
    → Triple g
        (λ l v.
          (owner : String) × (count : ℕ) × (lock : Lock) × (l
            ≡ processing_lock lease_id email intent owner count lock)
          × Locked lease_id email intent desired g owner count lock v)
        (NotLocked g)
        (acquire_assignment_processing_lock lease_id email intent desired)
unfolding acquire_assignment_processing_lock
acquire_assignment_processing_lock-Triple lease_id email intent desired g = bind_gets _ _ (λ w p.
    Triple-bind _ _ (acquire_assignment_lock-Triple lease_id email intent desired _ g) (λ e v h. h)
      (λ r v h. Triple-pure _ (_, r.0, r.1, refl, h)))

-- What the lease's record looks like when the lock has been given back, or could not be.
abbrev pub GaveBack : ProcessingLock → View → View → Type 0
GaveBack l g v = (v ≡ released l.user_email l.lease_id l.lock_owner_id g) ⊎ (v ≡ g)

pub release-Triple :
    {E : Error → View → Type 0} (l : ProcessingLock) (g : View)
    → Triple g (λ _ v. GaveBack l g v) E (release_assignment_processing_lock l)
unfolding release_assignment_processing_lock
release-Triple l g =
    Triple-swallow _ (release_lock-Triple l.user_email l.lease_id l.lock_owner_id g)
      (λ _ v h. inl h) (λ e v h. inr h.1)

abbrev pub requested : ProcessingLock → View → View
requested l g =
    after_call
      (put_event
        (assignment_requested l.intent l.lease_id l.requested_by l.lock_owner_id l.user_email))
      g

-- Two calls in a row fail.
abbrev pub FailedTwice : View → Type 0
FailedTwice g = (n : ℕ) × (g.env.fails n ≡ true) × (g.env.fails (n + 1) ≡ true)

-- The lock has been given back, or the call for it failed right after the one of the event.
abbrev pub Returned : ProcessingLock → View → View → Type 0
Returned l g v =
    (v ≡ released l.user_email l.lease_id l.lock_owner_id g) ⊎ ((v ≡ g) × FailedTwice g)

pub Returned-GaveBack : (l : ProcessingLock) (g v : View) → Returned l g v → GaveBack l g v
Returned-GaveBack l g v (inl p) = inl p
Returned-GaveBack l g v (inr (p, _)) = inr p

-- If the event cannot be sent, the lock is given back, unless the intent is critical.
abbrev pub NotRequested : ProcessingLock → View → Error → View → Type 0
NotRequested l g e v =
    (e ≡ remote_failure) × (if l.release_lock_on_event_failure then Returned l g v else v ≡ g)

release_lock-down :
    (email uuid owner : String) (w : World)
    → w.fails w.ticks ≡ true
    → release_lock email uuid owner w ≡ (err remote_failure, tick w)
unfolding release_lock
release_lock-down email uuid owner w down =
    bind-err remote _ w (tick w) remote_failure (remote-down w down)

released-Returned :
    (l : ProcessingLock) (w : World)
    → w.fails w.ticks ≡ true
    → Returned l (view w) (view (release_assignment_processing_lock l (tick w)).1)
unfolding release_assignment_processing_lock swallow
released-Returned l w down = elim (Bool-cases (w.fails (w.ticks + 1))) [
  | inl e ↦ inr (
    ap (λ r. view r.1) (release_lock-down l.user_email l.lease_id l.lock_owner_id (tick w) e),
    (w.ticks, down, e),
  )
  | inr e ↦ inl (
      ap (λ r. view r.1) (release_lock-ok l.user_email l.lease_id l.lock_owner_id (tick w) e)
      ∙ view-unlock l.user_email l.lease_id l.lock_owner_id
          (find (is_at l.user_email l.lease_id) w.leases) (tick (tick w)))
]

published :
    (l : ProcessingLock) (w : World)
    → Ended
        (λ _ v. v ≡ requested l (view w))
        (NotRequested l (view w))
        (publish_assignment_processing_request l w)
unfolding publish_assignment_processing_request
published l w = elim (Bool-cases (w.fails w.ticks)) [
  | inr e ↦ subst Done (sym (on_error-ok _ _ w _ tt (send-ok _ w e))) refl
  | inl e ↦
      subst Done (sym (on_error-err _ _ w _ remote_failure (send-down _ w e)))
        (refl, cleaned e l.release_lock_on_event_failure)
]
  where
    Done : Result (Unit {0}) × World → Type 0
    Done r = Ended (λ _ v. v ≡ requested l (view w)) (NotRequested l (view w)) r

    cleaned :
        w.fails w.ticks ≡ true
        → (b : Bool)
        → let x = ((if b then release_assignment_processing_lock l else pure tt) (tick w)).1 in
          if b then Returned l (view w) (view x) else view x ≡ view w
    cleaned e true = released-Returned l w e
    cleaned e false = refl

pub publish-Triple :
    (l : ProcessingLock) (g : View)
    → Triple g
        (λ _ v. v ≡ requested l g)
        (NotRequested l g)
        (publish_assignment_processing_request l)
publish-Triple l g = record {
  at = λ w p.
      subst
        (λ x.
          Ended (λ _ v. v ≡ requested l x) (NotRequested l x)
            (publish_assignment_processing_request l w))
        p (published l w);
}

-- The first steps of a block that take, give back or hand on the lock.
module _ {B : Type 0} {g : View} {Q : B → View → Type 0} {E : Error → View → Type 0} where
  pub bind_lock :
      (lease_id email : String) (intent : Intent) (desired : Option (List DesiredAssignment))
      (k : ProcessingLock → Action World B)
      → ((e : Error) → IsLockError e → E e g)
      → ((owner : String) (count : ℕ) (lock : Lock) (v : View)
          → Locked lease_id email intent desired g owner count lock v
          → Triple v Q E (k (processing_lock lease_id email intent owner count lock)))
      → Triple g Q E (acquire_assignment_processing_lock lease_id email intent desired >>= k)
  bind_lock lease_id email intent desired k failed next =
      Triple-bind _ _ (acquire_assignment_processing_lock-Triple lease_id email intent desired g)
        (λ e v (same, x). subst (E e) (sym same) (failed e x))
        (λ l v (owner, count, lock, is, h).
          subst (λ x. Triple v Q E (k x)) (sym is) (next owner count lock v h))

  pub bind_publish :
      (l : ProcessingLock) (k : Unit {0} → Action World B)
      → ((v : View) → NotRequested l g remote_failure v → E remote_failure v)
      → Triple (requested l g) Q E (k tt)
      → Triple g Q E (publish_assignment_processing_request l >>= k)
  bind_publish l k failed next =
      Triple-bind _ _ (publish-Triple l g)
        (λ e v (p, h). subst (λ x. E x v) (sym p) (failed v (refl, h)))
        (λ _ v same. Triple-view same next)

-- The lock is on record, and its request was sent.
abbrev pub Triggered :
    (lease_id email : String)
    → Intent
    → Option (List DesiredAssignment)
    → View
    → String × ℕ
    → View
    → Type 0
Triggered lease_id email intent desired g r v =
    (owner : String) × (count : ℕ) × (lock : Lock) × (u : View) × (r ≡ (owner, count))
    × Locked lease_id email intent desired g owner count lock u
    × (v ≡ requested (processing_lock lease_id email intent owner count lock) u)

abbrev pub NotTriggered :
    (lease_id email : String)
    → Intent
    → Option (List DesiredAssignment)
    → View
    → Error
    → View
    → Type 0
NotTriggered lease_id email intent desired g e v =
    IsLockError e
    × ((v ≡ g)
        ⊎ ((owner : String) × (count : ℕ) × (lock : Lock) × (u : View) × Locked lease_id email
              intent desired g owner count lock u
            × NotRequested (processing_lock lease_id email intent owner count lock) u e v))

pub trigger-Triple :
    (lease_id email : String) (intent : Intent) (desired : Option (List DesiredAssignment))
    (g : View)
    → Triple g
        (Triggered lease_id email intent desired g)
        (NotTriggered lease_id email intent desired g)
        (trigger_assignment_processing lease_id email intent desired)
unfolding trigger_assignment_processing
trigger-Triple lease_id email intent desired g =
    bind_lock lease_id email intent desired _ (λ e x. (x, inl refl))
      (λ owner count lock v h.
        bind_publish _ _ (λ u x. (tt, inr (owner, count, lock, v, h, x)))
          (Triple-pure _ (owner, count, lock, v, refl, h, refl)))

-- Giving the lock back leaves the rest of the record, the accounts and the calls alone.
pub GaveBack-KeepsLease :
    (l : ProcessingLock) (old : Lease) (x v : View)
    → KeepsLease l.user_email l.lease_id old x
    → GaveBack l x v
    → KeepsLease l.user_email l.lease_id old v × (v.accounts ≡ x.accounts) × (v.sent ≡ x.sent)
GaveBack-KeepsLease l old x v h (inl p) =
    let rest = released_rest l.user_email l.lease_id l.lock_owner_id x in
    (
      subst (KeepsLease l.user_email l.lease_id old) (sym p)
          (released-KeepsLease l.user_email l.lease_id l.lock_owner_id old x h),
      ap (λ (y : View). y.accounts) p ∙ rest.0,
      ap (λ (y : View). y.sent) p ∙ rest.1,
    )
GaveBack-KeepsLease l old x v h (inr p) = (
  subst (KeepsLease l.user_email l.lease_id old) (sym p) h,
  ap (λ (y : View). y.accounts) p,
  ap (λ (y : View). y.sent) p,
)
