-- ===== src/Sandbox/Terminate/Laws.antt =====
-- How `terminateLease` ends.
use innovation_sandbox_on_aw.Common.{
  ℕ, ◌≡◌, refl, sym, ap, ◌∙◌, subst, ◌⊎◌, inl, inr, String, Bool, true, false, none, some, List, [],
  ◌∷◌, ◌++◌, if◌then◌else◌,
}
use innovation_sandbox_on_aw.Types.{Lease, ExpiredStatus, Account, Lock, Ou, terminate}
use innovation_sandbox_on_aw.Outcome.{
  Error, ok, remote_failure, invalid_item, could_not_find_account, resource_lock_conflict,
  unknown_item, transaction_failed_and_rolled_back, Action, ◌>>=◌, ◌>>◌, pure, lift, gets,
}
use innovation_sandbox_on_aw.Events.{
  Event, TerminatedReason, lease_terminated, lease_terminated_reason,
}
use innovation_sandbox_on_aw.Table.{put}
use innovation_sandbox_on_aw.LeaseStore.{update_lease, same_key, edited, locked}
use innovation_sandbox_on_aw.LeaseStore.Laws.{
  lease_in, with_lease, with_lease_at, HasRecord, update_lease-Triple,
}
use innovation_sandbox_on_aw.AccountStore.Laws.{account_in}
use innovation_sandbox_on_aw.AssignmentLock.{
  processing_lock, timeout_of, trigger_assignment_processing,
}
use innovation_sandbox_on_aw.LeaseLock.{new_lock}
use innovation_sandbox_on_aw.AssignmentLock.Laws.{
  IsLockError, Locked, NotTriggered, requested, trigger-Triple,
}
use innovation_sandbox_on_aw.Sandbox.{send_events}
use innovation_sandbox_on_aw.Sandbox.Parts.{account_id, bind_account_of, send_events-Triple}
use innovation_sandbox_on_aw.Sandbox.Steps.Kept.{AccountIn}
use innovation_sandbox_on_aw.Sandbox.Terminate.{terminated, clean_up_account, terminate_lease}
use innovation_sandbox_on_aw.World.{World, Env, time, Call, put_event}
use innovation_sandbox_on_aw.World.Triple.{
  View, view, Ended, Triple, Triple-bind, Triple-map, Triple-pure,
}
use innovation_sandbox_on_aw.World.Triple.Bind.{bind_gets, bind_reads, bind_lift}
use innovation_sandbox_on_aw.Sandbox.Terminate.Pieces.{
  Before, TerminatedIn, TerminateFailed, stack_instances-Triple, clean_up_account-Triple,
  locked-HasLock, LockedIn, revocation_request, cleanup_events, cleanup_calls, cleanup_events-sent,
  terminate-NotRequested, after_events-tables, SentSome-leases, after_events-last, reason_error,
}

module _ (l : Lease) (status : ExpiredStatus) (g : View) where
  locked_still :
      (owner : String) (x v : View)
      → v.leases ≡ x.leases
      → LockedIn l status g owner x
      → LockedIn l status g owner v
  locked_still owner x v p (at, now, stamp, q) = (at, now, stamp, p ∙ q)

  same_leases :
      (x v : View) → v.leases ≡ x.leases → TerminatedIn l status g x → TerminatedIn l status g v
  same_leases x v p (now, (slot, stamp, q)) = (now, (slot, stamp, p ∙ q))

  lock_failed :
      (e : Error) (v : View)
      → IsLockError e
      → TerminatedIn l status g v
      → TerminateFailed l status g e v
  lock_failed could_not_find_account v h k = absurd h
  lock_failed transaction_failed_and_rolled_back v h k = absurd h
  lock_failed unknown_item v h k = absurd h
  lock_failed resource_lock_conflict v h k = k
  lock_failed _ v h k = inr k

  -- The lock is on record.
  lock-LockedIn :
      (owner : String) (count : ℕ) (lock : Lock) (u v : View)
      → TerminatedIn l status g u
      → Locked l.uuid l.user_email terminate none u owner count lock v
      → LockedIn l status g owner v × (v.accounts ≡ u.accounts) × (v.sent ≡ u.sent)
  lock-LockedIn owner count lock u v (at, record') (now, old, ds, there, _, is, (p, _), same) =
      let same' = same ∙ ap (λ x. with_lease_at l.user_email l.uuid (locked old lock x) u) p in
      let (stamp, leases) =
        locked-HasLock (terminated l status at g.env.ttl_days) old lock g u record' there in
      (
        (
          at,
          now,
          stamp,
          ap (λ (x : View). x.leases) same'
              ∙ leases
              ∙ ap
                  (λ k.
                    put (same_key l)
                      (record (terminated l status at g.env.ttl_days) {
                        resource_lock = some k;
                        last_edit_time = stamp;
                      })
                      g.leases)
                  is,
        ),
        ap (λ (x : View). x.accounts) same',
        ap (λ (x : View). x.sent) same',
      )

  pub LockedIn-TerminatedIn :
      (owner : String) (v : View) → LockedIn l status g owner v → TerminatedIn l status g v
  LockedIn-TerminatedIn owner v (at, now, stamp, p) =
      (at, (some (new_lock owner now (timeout_of terminate) (some terminate)), stamp, p))

  request_failed :
      (u : View) (e : Error) (v : View)
      → TerminatedIn l status g u
      → NotTriggered l.uuid l.user_email terminate none u e v
      → TerminateFailed l status g e v
  request_failed u e v h (is, inl p) =
      lock_failed e v is (same_leases u v (ap (λ (x : View). x.leases) p) h)
  request_failed u e v h (is, inr (owner, count, lock, x, k, unsent)) = lock_failed e v is (
      same_leases x v
        (ap (λ (y : View). y.leases)
          (terminate-NotRequested l.uuid l.user_email owner count lock x v e unsent))
        (LockedIn-TerminatedIn owner x (lock-LockedIn owner count lock u x h k).0))

  request-Triple :
      (u : View)
      → TerminatedIn l status g u
      → Triple u
          (λ r v.
            LockedIn l status g r.0 v
            × (v.accounts ≡ u.accounts)
            × (v.sent ≡ revocation_request l r.0 ∷ u.sent))
          (TerminateFailed l status g)
          (trigger_assignment_processing l.uuid l.user_email terminate none)
  request-Triple u h =
      Triple-map _ (trigger-Triple l.uuid l.user_email terminate none u)
        (λ r v (owner, count, lock, x, is, k, same).
          subst
            (λ o.
              LockedIn l status g o v
              × (v.accounts ≡ u.accounts)
              × (v.sent ≡ revocation_request l o ∷ u.sent))
            (sym (ap (λ y. y.0) is)) (asked owner count lock x v k same))
        (λ e v k. request_failed u e v h k)
    where
      asked :
          (owner : String) (count : ℕ) (lock : Lock) (x v : View)
          → Locked l.uuid l.user_email terminate none u owner count lock x
          → v ≡ requested (processing_lock l.uuid l.user_email terminate owner count lock) x
          → LockedIn l status g owner v
            × (v.accounts ≡ u.accounts)
            × (v.sent ≡ revocation_request l owner ∷ u.sent)
      asked owner count lock x v k same =
          let ((at, now, stamp, leases), accounts, sent) = lock-LockedIn owner count lock u x h k in
          (
            (at, now, stamp, ap (λ (y : View). y.leases) same ∙ leases),
            ap (λ (y : View). y.accounts) same ∙ accounts,
            ap (λ (y : View). y.sent) same ∙ ap (λ cs. revocation_request l owner ∷ cs) sent,
          )

  -- How a termination that returns leaves things: the last calls are the request to revoke the
  -- access, by the owner of the lock on record, and the events, the termination's after the
  -- cleanup's.
  abbrev pub TerminateDone : Account → Bool → View → Type 0
  TerminateDone a cleaned v =
      (owner : String) × (LockedIn l status g owner v
        × (if cleaned then AccountIn a Ou.clean_up g v else v.accounts ≡ g.accounts)
        × ((reason : TerminatedReason) × (cs : List Call) × (lease_terminated_reason status l
              ≡ ok reason)
            × (v.sent
                ≡ put_event (lease_terminated l.user_email l.uuid a.aws_account_id reason)
                  ∷ (cleanup_calls a cleaned ++ revocation_request l owner ∷ cs))))

  account_stays :
      (a : Account) (cleaned : Bool) (u v : View)
      → v.accounts ≡ u.accounts
      → (if cleaned then AccountIn a Ou.clean_up g u else u.accounts ≡ g.accounts)
      → (if cleaned then AccountIn a Ou.clean_up g v else v.accounts ≡ g.accounts)
  account_stays a true u v p (t, h) = (t, p ∙ h)
  account_stays a false u v p h = p ∙ h

  announce-Triple :
      (a : Account) (cleaned : Bool) (owner : String) (cs : List Call) (u : View)
      → LockedIn l status g owner u
      → (if cleaned then AccountIn a Ou.clean_up g u else u.accounts ≡ g.accounts)
      → u.sent ≡ revocation_request l owner ∷ cs
      → Triple u
          (λ _ v. TerminateDone a cleaned v)
          (TerminateFailed l status g)
          (do
            reason ← lift (lease_terminated_reason status l)
            send_events (
                cleanup_events a cleaned
                ++ lease_terminated l.user_email l.uuid a.aws_account_id reason ∷ []))
  announce-Triple a cleaned owner cs u h accounts asked =
      let es = cleanup_events a cleaned in
      let ended = LockedIn-TerminatedIn owner u h in
      bind_lift _ _
        (λ reason is.
          let last = lease_terminated l.user_email l.uuid a.aws_account_id reason in
          let tables = after_events-tables (es ++ last ∷ []) u in
          Triple-map _ (send_events-Triple (es ++ last ∷ []) u)
            (λ _ v same. (
              owner,
              (
                locked_still owner u v (ap (λ (x : View). x.leases) same ∙ tables.0) h,
                account_stays a cleaned u v (ap (λ (x : View). x.accounts) same ∙ tables.1)
                    accounts,
                (
                  reason,
                  cs,
                  is,
                  ap (λ (x : View). x.sent) same
                      ∙ after_events-last es last u
                      ∙ ap (λ xs. put_event last ∷ xs)
                          (cleanup_events-sent a cleaned u
                            ∙ ap (λ xs. cleanup_calls a cleaned ++ xs) asked),
                ),
              ),
            ))
            (λ e v (p, some_sent).
              subst (λ x. TerminateFailed l status g x v) (sym p)
                (inr (same_leases u v (SentSome-leases (es ++ last ∷ []) u v some_sent) ended))))
        (λ e is.
          subst (λ x. TerminateFailed l status g x u) (sym (reason_error status l e is))
            (inr ended))

  -- What follows the cleanup: the record is written, the processing requested, the events sent.
  end-Triple :
      (a : Account) (cleaned : Bool) (es : List Event) (u : View)
      → es ≡ cleanup_events a cleaned
      → Before a cleaned g u
      → Triple u
          (λ _ v. TerminateDone a cleaned v)
          (TerminateFailed l status g)
          (do
            now ← gets time
            days ← gets (λ w. w.ttl_days)
            update_lease (terminated l status now days)
            trigger_assignment_processing l.uuid l.user_email terminate none
            reason ← lift (lease_terminated_reason status l)
            send_events (es ++ lease_terminated l.user_email l.uuid a.aws_account_id reason ∷ []))
  end-Triple a cleaned es u quiet (env, leases, accounts) = bind_gets _ _ (λ w _.
      bind_reads (λ (v : View). v.env.ttl_days) _
        (Triple-bind _ _ (update_lease-Triple (terminated l status (time w) u.env.ttl_days) u)
          (λ e v (same, why). not_written e v (ap (λ (x : View). x.leases) same ∙ leases) why)
          (λ r v (t, old, found, _, same).
            Triple-bind _ _ (request-Triple v (written (time w) t v same)) (λ e x h. h)
              (λ o x (h, unchanged, asked).
                subst
                  (λ xs.
                    Triple x (λ _ y. TerminateDone a cleaned y) (TerminateFailed l status g)
                      (announced xs))
                  (sym quiet)
                  (announce-Triple a cleaned o.0 v.sent x h
                    (account_stays a cleaned u x (unchanged ∙ ap (λ (y : View). y.accounts) same)
                      accounts)
                    asked)))))
    where
      announced : List Event → Action World (Unit {0})
      announced xs = lift (lease_terminated_reason status l) >>= λ reason.
          send_events (xs ++ lease_terminated l.user_email l.uuid a.aws_account_id reason ∷ [])

      not_written :
          (e : Error) (v : View)
          → v.leases ≡ g.leases
          → (e ≡ invalid_item)
            ⊎ (e ≡ remote_failure)
            ⊎ ((e ≡ unknown_item) × (lease_in u l.user_email l.uuid ≡ none))
          → TerminateFailed l status g e v
      not_written e v h (inl p) = subst (λ x. TerminateFailed l status g x v) (sym p) (inl h)
      not_written e v h (inr (inl p)) = subst (λ x. TerminateFailed l status g x v) (sym p) (inl h)
      not_written e v h (inr (inr (p, _))) = subst (λ x. TerminateFailed l status g x v) (sym p) h

      written :
          (now t : ℕ) (v : View)
          → v ≡ with_lease (edited (terminated l status now u.env.ttl_days) t) u
          → TerminatedIn l status g v
      written now t v same = (
        now,
        subst (λ n. HasRecord (terminated l status now n) g v) (ap (λ (x : Env). x.ttl_days) env)
            (
              l.resource_lock,
              some t,
              ap (λ (x : View). x.leases) same
                  ∙ ap (put (same_key l) (edited (terminated l status now u.env.ttl_days) t))
                      leases,
            ),
      )

  clean_up-Triple :
      (a : Account) (auto_cleanup : Bool) (u : View)
      → Before a false g u
      → Triple u
          (λ es v. Before a auto_cleanup g v × (es ≡ cleanup_events a auto_cleanup))
          (TerminateFailed l status g)
          (if auto_cleanup then clean_up_account a else pure [])
  clean_up-Triple a true u h =
      Triple-map _ (clean_up_account-Triple l status a g u h) (λ es v k. k) (λ e v k. k)
  clean_up-Triple a false u h = Triple-pure [] (h, refl)

  pub terminate_lease-Triple :
      (auto_cleanup : Bool)
      → Triple g
          (λ _ v.
            (a : Account) × (account_in g (account_id l) ≡ some a) × TerminateDone a auto_cleanup v)
          (TerminateFailed l status g)
          (terminate_lease l status auto_cleanup)
  unfolding terminate_lease
  terminate_lease-Triple auto_cleanup = bind_account_of l _ (inl refl) refl (λ a found.
      Triple-bind _ _ (stack_instances-Triple l a g) (λ e v (h : ⊥). absurd h)
        (λ _ u h.
          Triple-bind _ _ (clean_up-Triple a auto_cleanup u h) (λ e v k. k)
            (λ es v k.
              Triple-map _ (end-Triple a auto_cleanup es v k.1 k.0) (λ _ x d. (a, found, d))
                (λ e x d. d))))

-- If `terminateLease` returns, the lease's account is on record; the lease's record is the given
-- one with the status that ends it, the date and the time to live, and a lock for the intent
-- TERMINATE; the account's record is in CleanUp if that was asked for, and the account table has not
-- changed otherwise; and the last calls are the request to process the lease's assignments under
-- that lock, the request to clean the account if that was asked for, and the event of the
-- termination, with its reason. If the account is not on record,
-- nothing has changed. If the transaction was rolled back or the lease is not on record, the lease
-- table has not changed; if the lock was refused, the record is ended already; after any other
-- error it is as it was or ended.
pub terminate_lease_lem :
    (l : Lease) (status : ExpiredStatus) (auto_cleanup : Bool) (w : World)
    → Ended
        (λ _ v.
          (a : Account) × (account_in (view w) (account_id l) ≡ some a)
          × TerminateDone l status (view w) a auto_cleanup v)
        (TerminateFailed l status (view w))
        (terminate_lease l status auto_cleanup w)
terminate_lease_lem l status auto_cleanup w =
    (terminate_lease-Triple l status (view w) auto_cleanup).at w refl
