-- ===== src/Sandbox/Effects.antt =====
-- The interface between the facade and its state: the changes that the stores and the services
-- make. A relation that allows each of them allows every call of a store, and so every operation
-- of the facade.
pub mod Shared
pub mod Leases
pub mod Accounts
pub mod Requests
pub mod Invariants
use innovation_sandbox_on_aw.Common.{
  ◌≡◌, refl, sym, subst, String, Bool, true, false, Option, none, some, List, [], ◌∷◌, ap, find,
  eq_refl, arith, if◌then◌else◌,
}
use innovation_sandbox_on_aw.Types.{Lease, Account, Lock, Intent, DesiredAssignment, Ou}
use innovation_sandbox_on_aw.Outcome.{Error, Action, ◌>>=◌, ◌>>◌}
use innovation_sandbox_on_aw.Transaction.{Step, complete}
use innovation_sandbox_on_aw.Transaction.Within.{WithinStep, WithinStep-nested, Within-complete}
use innovation_sandbox_on_aw.Table.{put, erase, find-holds}
use innovation_sandbox_on_aw.LeaseStore.{
  StepResult, lease_put, nothing, account_put, is_at, edited, locked, update_lease,
  update_lease_from, create_lease, delete_lease, acquire_lock, release_lock, find_by_user_email,
  find_by_status_and_account_id, roll_lease_back, update_step, transactional_update,
}
use innovation_sandbox_on_aw.LeaseLock.{may_release}
use innovation_sandbox_on_aw.LeaseStore.Laws.{
  lease_in, with_lease_at, released, unlocked, update_lease-Triple, update_lease_from-Triple,
  create_lease-Triple, delete_lease-Triple, acquire_lock-Triple, release_lock-Triple,
}
use innovation_sandbox_on_aw.Reconciliation.{Message, is_record, grant_record}
use innovation_sandbox_on_aw.AccountStore.{
  has_id, is_account_status, touched, put_account, get_account, delete_account, find_by_status,
  move_account_to, move_step, transactional_move_account, access_step,
  transactional_assign_group_access,
}
use innovation_sandbox_on_aw.AccountStore.Laws.{
  with_account, put_account-Triple, get_account-Triple, delete_account-Triple,
  find_by_status-Triple,
}
use innovation_sandbox_on_aw.World.{
  World, Call, remote, send, GroupRole, assign_group_access, revoke_group_access, move_account,
}
use innovation_sandbox_on_aw.World.Triple.{View, Triple}
use innovation_sandbox_on_aw.World.Frame.{after_call, remote-Triple, send-Triple}
use innovation_sandbox_on_aw.World.Within.{
  Within, IsPreorder, Within-pure, Within-gets, Within-or_throw, Within-bind, Within-Triple,
}

pub record Allows (R : View → View → Type 0) : Type 0 where
  pub order : IsPreorder R
  pub lease_write :
      (email uuid : String) (l : Lease) (g : View)
      → is_at email uuid l ≡ true
      → R g (with_lease_at email uuid l g)
  pub lease_deletion :
      (email uuid : String) (g : View)
      → R g (record g { leases = erase (is_at email uuid) g.leases })
  pub account_write :
      (a : Account) (g : View) → is_account_status a.status ≡ true → R g (with_account a g)
  pub account_deletion :
      (id : String) (g : View) → R g (record g { accounts = erase (has_id id) g.accounts })
  pub assignment_write :
      (m : Message) (g : View)
      → g.env.assignment_is_valid (grant_record m) ≡ true
      → R g (record g { assignments = put (is_record m) (grant_record m) g.assignments })
  pub assignment_deletion :
      (m : Message) (g : View) → R g (record g { assignments = erase (is_record m) g.assignments })
  pub call : (c : Call) (g : View) → R g (after_call c g)

module _ {R : View → View → Type 0} (allows : Allows R) where
  open allows use {order}
  open order use {same, next}

  unmoved : (g v : View) → v ≡ g → R g v
  unmoved g v p = subst (R g) (sym p) (same g)

  becomes : (g v u : View) → v ≡ u → R g u → R g v
  becomes g v u p h = subst (R g) (sym p) h

  pub remote-Within : Within R remote
  remote-Within =
      Within-Triple order remote remote-Triple (λ g _ v p. unmoved g v p)
        (λ g e v h. unmoved g v h.1)

  pub send-Within : (c : Call) → Within R (send c)
  send-Within c =
      Within-Triple order (send c) (send-Triple c) (λ g _ v p. becomes g v _ p (allows.call c g))
        (λ g e v h. unmoved g v h.1)

  -- A lease is written at its own key.
  own_key : (l : Lease) → is_at l.user_email l.uuid l ≡ true
  own_key l = ground (arith, eq_refl l.user_email, eq_refl l.uuid)

  pub update_lease-Within : (l : Lease) → Within R (update_lease l)
  update_lease-Within l =
      Within-Triple order (update_lease l) (update_lease-Triple l)
        (λ g _ v (t, _, _, _, p).
          becomes g v _ p (allows.lease_write _ _ (edited l t) g (own_key l)))
        (λ g e v h. unmoved g v h.0)

  pub update_lease_from-Within : (l seen : Lease) → Within R (update_lease_from l seen)
  update_lease_from-Within l seen =
      Within-Triple order (update_lease_from l seen) (update_lease_from-Triple l seen)
        (λ g _ v (t, _, _, _, _, p).
          becomes g v _ p (allows.lease_write _ _ (edited l t) g (own_key l)))
        (λ g e v h. unmoved g v h.0)

  pub create_lease-Within : (l : Lease) → Within R (create_lease l)
  create_lease-Within l =
      Within-Triple order (create_lease l) (create_lease-Triple l)
        (λ g _ v (t, _, _, p). becomes g v _ p (allows.lease_write _ _ (edited l t) g (own_key l)))
        (λ g e v h. unmoved g v h.0)

  pub delete_lease-Within : (email uuid : String) → Within R (delete_lease email uuid)
  delete_lease-Within email uuid =
      Within-Triple order (delete_lease email uuid) (delete_lease-Triple email uuid)
        (λ g _ v p. becomes g v _ p (allows.lease_deletion email uuid g))
        (λ g e v h. unmoved g v h.1)

  still_at :
      (email uuid : String) (old : Lease) (lock : Lock) (ds : Option (List DesiredAssignment))
      → is_at email uuid old ≡ true
      → is_at email uuid (locked old lock ds) ≡ true
  still_at email uuid old lock none h = h
  still_at email uuid old lock (some ds) h = h

  pub acquire_lock-Within :
      (email uuid owner : String) (timeout : _) (intent : Option Intent)
      (ds : Option (List DesiredAssignment))
      → Within R (acquire_lock email uuid owner timeout intent ds)
  acquire_lock-Within email uuid owner timeout intent ds =
      Within-Triple order (acquire_lock email uuid owner timeout intent ds)
        (acquire_lock-Triple email uuid owner timeout intent ds)
        (λ g lock v (_, old, found, _, _, p). becomes g v _ p (
          allows.lease_write _ _ _ g
            (still_at email uuid old lock ds (find-holds (is_at email uuid) g.leases old found))))
        (λ g e v h. unmoved g v h.0)

  unlocked_allowed :
      (email uuid owner : String) (found : Option Lease) (g : View)
      → lease_in g email uuid ≡ found
      → R g (unlocked email uuid owner found g)
  unlocked_allowed email uuid owner none g p = same g
  unlocked_allowed email uuid owner (some l) g p = choice (may_release owner l.resource_lock)
    where
      choice :
          (b : Bool)
          → R g (if b then with_lease_at email uuid (record l { resource_lock = none }) g else g)
      choice true = allows.lease_write email uuid _ g (find-holds (is_at email uuid) g.leases l p)
      choice false = same g

  pub release_lock-Within : (email uuid owner : String) → Within R (release_lock email uuid owner)
  release_lock-Within email uuid owner =
      Within-Triple order (release_lock email uuid owner) (release_lock-Triple email uuid owner)
        (λ g _ v p. becomes g v _ p (unlocked_allowed email uuid owner _ g refl))
        (λ g e v h. unmoved g v h.1)

  -- The reads.
  pub find_by_user_email-Within : (email : String) → Within R (find_by_user_email email)
  unfolding find_by_user_email
  find_by_user_email-Within email = Within-bind order remote-Within (λ _. Within-gets order _)

  pub find_by_status_and_account_id-Within :
      (s : _) (id : String) → Within R (find_by_status_and_account_id s id)
  unfolding find_by_status_and_account_id
  find_by_status_and_account_id-Within s id =
      Within-bind order remote-Within (λ _. Within-gets order _)

  pub get_account-Within : (id : String) → Within R (get_account id)
  unfolding get_account
  get_account-Within id = Within-bind order remote-Within (λ _. Within-gets order _)

  pub find_by_status-Within : (status : Ou) → Within R (find_by_status status)
  unfolding find_by_status
  find_by_status-Within status = Within-bind order remote-Within (λ _. Within-gets order _)

  pub put_account-Within : (a : Account) → Within R (put_account a)
  put_account-Within a =
      Within-Triple order (put_account a) (put_account-Triple a)
        (λ g _ v (valid, (t, _, p)). becomes g v _ p (allows.account_write (touched a t) g valid))
        (λ g e v h. unmoved g v h.0)

  pub delete_account-Within : (id : String) → Within R (delete_account id)
  delete_account-Within id =
      Within-Triple order (delete_account id) (delete_account-Triple id)
        (λ g _ v p. becomes g v _ p (allows.account_deletion id g)) (λ g e v h. unmoved g v h.1)

  move_account_to-Within : (a : Account) (s d : Ou) → Within R (move_account_to a s d)
  unfolding move_account_to
  move_account_to-Within a s d = Within-bind order (send-Within _) (λ _. put_account-Within _)

  -- The steps of the transactions.
  roll_lease_back-Within : (r : StepResult) → Within R (roll_lease_back r)
  roll_lease_back-Within (lease_put old new) =
      Within-bind order (update_lease_from-Within old new) (λ _. Within-pure order tt)
  roll_lease_back-Within _ = Within-pure order tt

  pub update-WithinStep : (l : Lease) → WithinStep order (transactional_update l)
  unfolding transactional_update
  update-WithinStep l =
      WithinStep-nested order (update_step l)
        record { begins = update_lease-Within l; undoes = roll_lease_back-Within }

  pub move-WithinStep :
      (a : Account) (s d : Ou) → WithinStep order (transactional_move_account a s d)
  unfolding transactional_move_account
  move-WithinStep a s d = WithinStep-nested order (move_step a s d) record {
    begins = move_account_to-Within a s d;
    undoes = λ _. Within-bind order (move_account_to-Within a d s) (λ _. Within-pure order tt);
  }

  pub access-WithinStep :
      (id : String) (role : GroupRole)
      → WithinStep order (transactional_assign_group_access id role)
  unfolding transactional_assign_group_access
  access-WithinStep id role = WithinStep-nested order (access_step id role) record {
    begins = Within-bind order (send-Within _) (λ _. Within-pure order nothing);
    undoes = λ _. send-Within _;
  }
