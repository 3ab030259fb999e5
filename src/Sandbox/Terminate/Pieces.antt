-- ===== src/Sandbox/Terminate/Pieces.antt =====
-- The pieces of `terminateLease`: the cleanup of the account, the lock, the events.
use innovation_sandbox_on_aw.Common.{
  ℕ, ◌≡◌, refl, sym, ap, ◌∙◌, subst, ◌⊎◌, inl, inr, String, Bool, true, false, Option, none, some,
  List, [], ◌∷◌, ◌++◌, find, if◌then◌else◌, arith, or_default,
}
use innovation_sandbox_on_aw.Types.{
  Lease, ExpiredStatus, expired, budget_exceeded, manually_terminated, user_terminated,
  account_quarantined, ejected, provisioning_failed, Account, Lock, Ou, terminate,
}
use innovation_sandbox_on_aw.Outcome.{
  Error, err, could_not_find_account, resource_lock_conflict, unknown_item, lease_duration_missing,
  transaction_failed_and_rolled_back, pure, swallow,
}
use innovation_sandbox_on_aw.Events.{
  Event, lease_terminated_reason, clean_account_request, lease_termination, assignment_requested,
}
use innovation_sandbox_on_aw.Transaction.Rules.{complete-Triple, all_begun}
use innovation_sandbox_on_aw.Table.{put, put-put}
use innovation_sandbox_on_aw.LeaseLock.{is_critical, new_lock}
use innovation_sandbox_on_aw.LeaseStore.{is_at, same_key, locked}
use innovation_sandbox_on_aw.LeaseStore.Laws.{
  lease_in, with_lease_at, HasRecord, is_at_self, find-put_lease,
}
use innovation_sandbox_on_aw.AccountStore.{has_id, touched, transactional_move_account}
use innovation_sandbox_on_aw.AccountStore.Laws.{in_ou, moved, move_account_to-Triple}
use innovation_sandbox_on_aw.AssignmentLock.{truthy, processing_lock, timeout_of}
use innovation_sandbox_on_aw.AssignmentLock.Laws.{NotRequested}
use innovation_sandbox_on_aw.Sandbox.{
  remove_stack_instances, delete_stack_instances_metadata, move_to_clean_up,
}
use innovation_sandbox_on_aw.Sandbox.Parts.{account_id, bind_tag, after_events, SentSome}
use innovation_sandbox_on_aw.Sandbox.Steps.{settled}
use innovation_sandbox_on_aw.Sandbox.Steps.Kept.{AccountIn}
use innovation_sandbox_on_aw.Sandbox.Terminate.{terminated, clean_up_account}
use innovation_sandbox_on_aw.World.{Call, put_event, send, delete_stack_instances}
use innovation_sandbox_on_aw.World.Triple.{
  View, Triple, Triple-bind, Triple-map, Triple-pure, Triple-swallow,
}
use innovation_sandbox_on_aw.World.Triple.Bind.{bind_reads, bind_remote}
use innovation_sandbox_on_aw.World.Frame.{after_call, send-Triple}

-- The environment and the lease table have not changed, and neither has the account table, or the
-- account is on record in CleanUp.
abbrev pub Before : Account → Bool → View → View → Type 0
Before a cleaned g v =
    (v.env ≡ g.env)
    × (v.leases ≡ g.leases)
    × (if cleaned then AccountIn a Ou.clean_up g v else v.accounts ≡ g.accounts)

-- The record is the given one with the status that ends the lease, the date and the time to live.
abbrev pub TerminatedIn : Lease → ExpiredStatus → View → View → Type 0
TerminatedIn l status g v = (now : ℕ) × HasRecord (terminated l status now g.env.ttl_days) g v

-- Nothing has changed if there is no account; the record is untouched after a failed transaction
-- or if it is not there; it is ended already if the lock or the request is refused.
abbrev pub TerminateFailed : Lease → ExpiredStatus → View → Error → View → Type 0
TerminateFailed l status g could_not_find_account v = v ≡ g
TerminateFailed l status g transaction_failed_and_rolled_back v = v.leases ≡ g.leases
TerminateFailed l status g unknown_item v = v.leases ≡ g.leases
TerminateFailed l status g resource_lock_conflict v = TerminatedIn l status g v
TerminateFailed l status g _ v = (v.leases ≡ g.leases) ⊎ TerminatedIn l status g v

-- The stack instances are forgotten, or are not; no table changes.
pub stack_instances-Triple :
    (l : Lease) (a : Account) (g : View)
    → Triple g (λ _ v. Before a false g v) (λ _ _. ⊥) (delete_stack_instances_metadata l)
unfolding delete_stack_instances_metadata
stack_instances-Triple l a g = go (truthy l.blueprint_id)
  where
    same : Before a false g g
    same = (refl, refl, refl)

    after : (x : View) → (v : View) → v ≡ x → Before a false g x → Before a false g v
    after x v p h = subst (Before a false g) (sym p) h

    forget :
        (known : Bool) (id account_id : String)
        → Triple g
            (λ _ v. Before a false g v)
            (λ _ v. Before a false g v)
            (if known then send (delete_stack_instances id account_id) else pure tt)
    forget true id account_id =
        Triple-map _ (send-Triple _ g) (λ _ v p. after _ v p same) (λ e v h. after g v h.1 same)
    forget false id account_id = Triple-pure tt same

    go :
        (b : Option String)
        → Triple g
            (λ _ v. Before a false g v)
            (λ _ _. ⊥)
            (elim b [
              | none ↦ pure tt
              | some x ↦ swallow (remove_stack_instances x (or_default l.aws_account_id ""))
            ])
    go none = Triple-pure tt same
    go (some x) =
        Triple-swallow _
          (bind_remote _ same (bind_reads (λ v. v.env.blueprint_exists x) _ (forget _ x _)))
          (λ _ v h. h) (λ e v h. h)

-- The account is moved, its status tag is set or not, and the cleanup is to be asked for.
pub clean_up_account-Triple :
    (l : Lease) (status : ExpiredStatus) (a : Account) (g u : View)
    → Before a false g u
    → Triple u
        (λ es v.
          Before a true g v
          × (es ≡ clean_account_request a.aws_account_id lease_termination none ∷ []))
        (TerminateFailed l status g)
        (clean_up_account a)
unfolding clean_up_account move_to_clean_up transactional_move_account
clean_up_account-Triple l status a g u (env, leases, accounts) =
    Triple-bind _ _
      (complete-Triple (λ _ v. (t : ℕ) × (v ≡ settled a a.status Ou.clean_up t u))
        (TerminateFailed l status g) _ [] (move_account_to-Triple a a.status Ou.clean_up u)
        (λ e v h. unmoved v h) (λ r v (t, is, same). all_begun (t, same)))
      (λ e v h. h)
      (λ r v (t, same).
        bind_tag _ _ _ (Triple-pure _ (clean v t same, refl))
          (Triple-pure _ (clean v t same, refl)))
  where
    unmoved : (v : View) → (v ≡ u) ⊎ (v ≡ moved a a.status Ou.clean_up u) → v.leases ≡ g.leases
    unmoved v (inl p) = ap (λ (x : View). x.leases) p ∙ leases
    unmoved v (inr p) = ap (λ (x : View). x.leases) p ∙ leases

    clean : (v : View) (t : ℕ) → v ≡ settled a a.status Ou.clean_up t u → Before a true g v
    clean v t p = (
      ap (λ (x : View). x.env) p ∙ env,
      ap (λ (x : View). x.leases) p ∙ leases,
      (
        t,
        ap (λ (x : View). x.accounts) p
            ∙ ap (put (has_id a.aws_account_id) (touched (in_ou a Ou.clean_up) t)) accounts,
      ),
    )

-- A lock that is taken on such a record leaves it such a record, with the lock.
pub locked-HasLock :
    (l old : Lease) (lock : Lock) (g x : View)
    → HasRecord l g x
    → lease_in x l.user_email l.uuid ≡ some old
    → (stamp : Option ℕ) × ((with_lease_at l.user_email l.uuid (locked old lock none) x).leases
        ≡ put
            (same_key l)
            (record l { resource_lock = some lock; last_edit_time = stamp })
            g.leases)
locked-HasLock l old lock g x (slot, stamp, p) found =
    let r : Lease = record l { resource_lock = slot; last_edit_time = stamp } in
    let there : lease_in x l.user_email l.uuid ≡ some r =
      ap (λ ls. find (is_at l.user_email l.uuid) ls) p ∙ find-put_lease r g.leases in
    let same : old ≡ r = ground (arith, found, there) in
    (
      stamp,
      ap (λ (o : Lease). put (same_key l) (record o { resource_lock = some lock }) x.leases) same
          ∙ ap (λ ls. put (same_key l) (record r { resource_lock = some lock }) ls) p
          ∙ put-put (same_key l) _ r g.leases (is_at_self l),
    )

-- The record is the one of a lease that has ended, and the lock on it is of this owner, to
-- terminate.
abbrev pub LockedIn : Lease → ExpiredStatus → View → (owner : String) → View → Type 0
LockedIn l status g owner v =
    (at : ℕ) × (now : ℕ) × (stamp : Option ℕ) × (v.leases
      ≡ put (same_key l)
          (record (terminated l status at g.env.ttl_days) {
            resource_lock = some (new_lock owner now (timeout_of terminate) (some terminate));
            last_edit_time = stamp;
          })
          g.leases)

abbrev pub revocation_request : Lease → (owner : String) → Call
revocation_request l owner =
    put_event (assignment_requested terminate l.uuid l.user_email owner l.user_email)

abbrev pub cleanup_events : Account → Bool → List Event
cleanup_events a cleaned =
    if cleaned then clean_account_request a.aws_account_id lease_termination none ∷ [] else []

abbrev pub cleanup_calls : Account → Bool → List Call
cleanup_calls a cleaned =
    if cleaned
    then put_event (clean_account_request a.aws_account_id lease_termination none) ∷ []
    else []

pub cleanup_events-sent :
    (a : Account) (cleaned : Bool) (u : View)
    → (after_events (cleanup_events a cleaned) u).sent ≡ cleanup_calls a cleaned ++ u.sent
cleanup_events-sent a true u = refl
cleanup_events-sent a false u = refl

-- Terminating is critical: a request that could not be sent leaves the lock.
pub terminate-NotRequested :
    (lease_id email owner : String) (count : ℕ) (lock : Lock) (u v : View) (e : Error)
    → NotRequested (processing_lock lease_id email terminate owner count lock) u e v
    → v ≡ u
unfolding is_critical
terminate-NotRequested lease_id email owner count lock u v e h = h.1

-- Sending events changes no table; the last event is the newest call.
pub after_events-tables :
    (es : List Event) (g : View)
    → ((after_events es g).leases ≡ g.leases) × ((after_events es g).accounts ≡ g.accounts)
after_events-tables [] g = (refl, refl)
after_events-tables (e ∷ es) g = after_events-tables es (after_call (put_event e) g)

pub SentSome-leases : (es : List Event) (g v : View) → SentSome es g v → v.leases ≡ g.leases
SentSome-leases [] g v h = absurd h
SentSome-leases (e ∷ es) g v (inl p) = ap (λ (x : View). x.leases) p
SentSome-leases (e ∷ es) g v (inr h) = SentSome-leases es (after_call (put_event e) g) v h

pub after_events-last :
    (es : List Event) (e : Event) (g : View)
    → (after_events (es ++ e ∷ []) g).sent ≡ put_event e ∷ (after_events es g).sent
after_events-last [] e g = refl
after_events-last (x ∷ es) e g = after_events-last es e (after_call (put_event x) g)

pub reason_error :
    (s : ExpiredStatus) (l : Lease) (e : Error)
    → lease_terminated_reason s l ≡ err e
    → e ≡ lease_duration_missing
unfolding lease_terminated_reason
reason_error expired l e h = ground arith
reason_error budget_exceeded l e h = cc
reason_error manually_terminated l e h = cc
reason_error user_terminated l e h = cc
reason_error account_quarantined l e h = cc
reason_error ejected l e h = cc
reason_error provisioning_failed l e h = cc
