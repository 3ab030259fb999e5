-- ===== src/LeaseStore/Laws.antt =====
-- What each call of the lease store does to the lease table, on each of its outcomes.
use innovation_sandbox_on_aw.Common.{
  ℕ, ◌≡◌, refl, ap, ◌∙◌, ◌⊎◌, inl, inr, String, true, false, Option, none, some, List, find, keep,
  str_eq, if◌then◌else◌, eq_refl, eq_iff, arith, Bool-cases,
}
use innovation_sandbox_on_aw.Types.{Lease, Lock, Intent, DesiredAssignment}
use innovation_sandbox_on_aw.Outcome.{
  Error, remote_failure, invalid_item, unknown_item, concurrent_data_modification,
  item_already_exists, resource_lock_conflict, ok, gets, bind-ok,
}
use innovation_sandbox_on_aw.LeaseLock.{admits, new_lock, may_release}
use innovation_sandbox_on_aw.LeaseStore.{
  is_at, same_key, write, write_at, edited, locked, unlock, StepResult, lease_put, get_lease,
  find_by_user_email, update_lease, update_lease_from, create_lease, delete_lease, acquire_lock,
  release_lock, same_edit_time,
}
use innovation_sandbox_on_aw.Table.{put, erase, find-put, find-holds, put-put}
use innovation_sandbox_on_aw.World.{World, remote, tick}
use innovation_sandbox_on_aw.World.Triple.{
  view, View, Triple, Triple-modify, Triple-gets, Triple-pure,
}
use innovation_sandbox_on_aw.World.Triple.Bind.{
  bind_gets, bind_reads, bind_writes, bind_or_throw, bind_guard, bind_remote,
}
use innovation_sandbox_on_aw.World.Frame.{Failed, remote-ok}

pub is_at_self : (l : Lease) → is_at l.user_email l.uuid l ≡ true
is_at_self l = rw (eq_refl l.user_email, eq_refl l.uuid)

-- A lease that was written is found at its key.
pub find-put_lease :
    (l : Lease) (ls : List Lease)
    → find (is_at l.user_email l.uuid) (put (same_key l) l ls) ≡ some l
find-put_lease l ls = find-put (same_key l) l ls (is_at_self l)

abbrev pub lease_in : View → String → String → Option Lease
lease_in g email uuid = find (is_at email uuid) g.leases

abbrev pub with_lease_at : (email uuid : String) → Lease → View → View
with_lease_at email uuid l g = record g { leases = put (is_at email uuid) l g.leases }

abbrev pub with_lease : Lease → View → View
with_lease l g = record g { leases = put (same_key l) l g.leases }

pub get_lease-Triple :
    (email uuid : String) (g : View)
    → Triple g (λ r v. (v ≡ g) × (r ≡ lease_in g email uuid)) (Failed g) (get_lease email uuid)
unfolding get_lease
get_lease-Triple email uuid g =
    bind_remote _ (refl, refl) (Triple-gets _ (λ w p. (refl, ap (λ v. lease_in v email uuid) p)))

pub find_by_user_email-Triple :
    (email : String) (g : View)
    → Triple g
        (λ r v. (v ≡ g) × (r ≡ keep (λ l. str_eq l.user_email email) g.leases))
        (Failed g)
        (find_by_user_email email)
unfolding find_by_user_email
find_by_user_email-Triple email g =
    bind_remote _ (refl, refl)
      (Triple-gets _
        (λ w p. (refl, ap (λ (v : View). keep (λ l. str_eq l.user_email email) v.leases) p)))

-- How `update` ends: the item was there and is the stamped one now, or nothing has changed.
abbrev pub Updated : Lease → View → StepResult → View → Type 0
Updated l g r v =
    (now : ℕ) × (old : Lease) × (lease_in g l.user_email l.uuid ≡ some old)
    × (r ≡ lease_put old (edited l now))
    × (v ≡ with_lease (edited l now) g)

abbrev pub NotUpdated : Lease → View → Error → View → Type 0
NotUpdated l g e v =
    (v ≡ g)
    × ((e ≡ invalid_item)
        ⊎ ((e ≡ remote_failure) ⊎ ((e ≡ unknown_item) × (lease_in g l.user_email l.uuid ≡ none))))

pub update_lease-Triple :
    (l : Lease) (g : View) → Triple g (Updated l g) (NotUpdated l g) (update_lease l)
unfolding update_lease
update_lease-Triple l g =
    bind_reads (λ v. v.env.lease_is_valid l) _
      (bind_guard _ _ _
        (λ accepted. bind_gets _ _ (λ w p.
          let l' = edited l (w.clock w.ticks) in
          bind_remote _ (refl, inr (inl refl))
            (bind_reads (λ v. find (same_key l) v.leases) _
              (bind_or_throw _ _ _
                (λ old found.
                  bind_writes (write l') (with_lease l') _ (λ u. refl)
                    (Triple-pure _ (w.clock w.ticks, old, found, refl, refl)))
                (λ missing. (refl, inr (inr (refl, missing))))))))
        (λ invalid. (refl, inl refl)))

-- The same for the conditional `update`, which asks for the stamp that the caller has seen.
pub update_lease_from-Triple :
    (l expected : Lease) (g : View)
    → Triple g
        (λ r v.
          (now : ℕ) × (old : Lease) × (lease_in g l.user_email l.uuid ≡ some old)
          × (same_edit_time old.last_edit_time expected.last_edit_time ≡ true)
          × (r ≡ lease_put old (edited l now))
          × (v ≡ with_lease (edited l now) g))
        (λ e v.
          (v ≡ g)
          × ((e ≡ invalid_item) ⊎ ((e ≡ remote_failure) ⊎ (e ≡ concurrent_data_modification))))
        (update_lease_from l expected)
unfolding update_lease_from
update_lease_from-Triple l expected g =
    bind_reads (λ v. v.env.lease_is_valid l) _
      (bind_guard _ _ _
        (λ accepted. bind_gets _ _ (λ w p.
          let l' = edited l (w.clock w.ticks) in
          bind_remote _ (refl, inr (inl refl))
            (bind_reads (λ v. find (same_key l) v.leases) _
              (bind_or_throw _ _ _
                (λ old found.
                  bind_guard _ _ _
                    (λ same.
                      bind_writes (write l') (with_lease l') _ (λ u. refl)
                        (Triple-pure _ (w.clock w.ticks, old, found, same, refl, refl)))
                    (λ changed. (refl, inr (inr refl))))
                (λ missing. (refl, inr (inr refl)))))))
        (λ invalid. (refl, inl refl)))

pub create_lease-Triple :
    (l : Lease) (g : View)
    → Triple g
        (λ r v.
          (now : ℕ) × (lease_in g l.user_email l.uuid ≡ none)
          × (r ≡ edited l now)
          × (v ≡ with_lease (edited l now) g))
        (λ e v. (v ≡ g) × ((e ≡ invalid_item) ⊎ ((e ≡ remote_failure) ⊎ (e ≡ item_already_exists))))
        (create_lease l)
unfolding create_lease
create_lease-Triple l g =
    bind_reads (λ v. v.env.lease_is_valid l) _
      (bind_guard _ _ _
        (λ accepted. bind_gets _ _ (λ w p.
          let l' = edited l (w.clock w.ticks) in
          bind_remote _ (refl, inr (inl refl))
            (bind_reads (λ v. find (same_key l) v.leases) _
              (bind_guard _ _ _
                (λ free.
                  bind_writes (write l') (with_lease l') _ (λ u. refl)
                    (Triple-pure _ (w.clock w.ticks, ground arith, refl, refl)))
                (λ taken. (refl, inr (inr refl)))))))
        (λ invalid. (refl, inl refl)))

pub delete_lease-Triple :
    (email uuid : String) (g : View)
    → Triple g
        (λ _ v. v ≡ record g { leases = erase (is_at email uuid) g.leases })
        (Failed g)
        (delete_lease email uuid)
unfolding delete_lease
delete_lease-Triple email uuid g =
    bind_remote _ (refl, refl)
      (Triple-modify _
        (λ w p. ap (λ (v : View). record v { leases = erase (is_at email uuid) v.leases }) p))

-- An acquisition returns the lock that the record has from then on, or has changed nothing.
pub acquire_lock-Triple :
    (email uuid owner : String) (timeout : ℕ) (intent : Option Intent)
    (desired : Option (List DesiredAssignment)) (g : View)
    → Triple g
        (λ lock v.
          (now : ℕ) × (old : Lease) × (lease_in g email uuid ≡ some old)
          × (admits owner now intent old.resource_lock ≡ true)
          × (lock ≡ new_lock owner now timeout intent)
          × (v ≡ with_lease_at email uuid (locked old lock desired) g))
        (λ e v.
          (v ≡ g) × ((e ≡ invalid_item) ⊎ ((e ≡ remote_failure) ⊎ (e ≡ resource_lock_conflict))))
        (acquire_lock email uuid owner timeout intent desired)
unfolding acquire_lock
acquire_lock-Triple email uuid owner timeout intent desired g = bind_gets _ _ (λ w p.
    let lock = new_lock owner (w.clock w.ticks) timeout intent in
    bind_gets _ _ (λ w' p'.
      bind_guard _ _ _
        (λ accepted.
          bind_remote _ (refl, inr (inl refl))
            (bind_reads (λ v. find (is_at email uuid) v.leases) _
              (bind_or_throw _ _ _
                (λ old found.
                  bind_guard _ _ _
                    (λ admitted.
                      bind_writes (write_at email uuid (locked old lock desired))
                        (with_lease_at email uuid (locked old lock desired)) _ (λ u. refl)
                        (Triple-pure _ (w.clock w.ticks, old, found, admitted, refl, refl)))
                    (λ refused. (refl, inr (inr refl))))
                (λ missing. (refl, inr (inr refl))))))
        (λ invalid. (refl, inl refl))))

-- What `releaseLock` leaves, if the record that it finds is `found`.
abbrev pub unlocked : (email uuid owner : String) → Option Lease → View → View
unlocked email uuid owner none g = g
unlocked email uuid owner (some l) g =
    if may_release owner l.resource_lock
    then with_lease_at email uuid (record l { resource_lock = none }) g
    else g

abbrev pub released : (email uuid owner : String) → View → View
released email uuid owner g = unlocked email uuid owner (lease_in g email uuid) g

pub view-unlock :
    (email uuid owner : String) (found : Option Lease) (w : World)
    → view (unlock email uuid owner found w) ≡ unlocked email uuid owner found (view w)
view-unlock email uuid owner found w = ground arith

pub release_lock-Triple :
    (email uuid owner : String) (g : View)
    → Triple g (λ _ v. v ≡ released email uuid owner g) (Failed g) (release_lock email uuid owner)
unfolding release_lock
release_lock-Triple email uuid owner g =
    bind_remote _ (refl, refl)
      (bind_reads (λ v. find (is_at email uuid) v.leases) _
        (Triple-modify _ (λ w p.
          view-unlock email uuid owner (lease_in g email uuid) w
          ∙ ap (unlocked email uuid owner (lease_in g email uuid)) p)))

-- A release whose call does not fail.
pub release_lock-ok :
    (email uuid owner : String) (w : World)
    → w.fails w.ticks ≡ false
    → release_lock email uuid owner w
      ≡ (ok tt, unlock email uuid owner (find (is_at email uuid) w.leases) (tick w))
unfolding release_lock
release_lock-ok email uuid owner w up =
    bind-ok remote _ w (tick w) tt (remote-ok w up)
    ∙ bind-ok (gets (λ w. find (is_at email uuid) w.leases)) _ (tick w) (tick w) _ refl

-- The record as it was, but for its lock and the stamp of the last write.
abbrev pub KeepsLease : (email uuid : String) → Lease → View → Type 0
KeepsLease email uuid old v =
    (slot : Option Lock) × (stamp : Option ℕ) × (lease_in v email uuid
      ≡ some (record old { resource_lock = slot; last_edit_time = stamp }))

-- Giving the lock back changes nothing of the record but the lock.
pub released-KeepsLease :
    (email uuid owner : String) (old : Lease) (v : View)
    → KeepsLease email uuid old v
    → KeepsLease email uuid old (released email uuid owner v)
released-KeepsLease email uuid owner old v (slot, stamp, found) =
    rw found (elim (Bool-cases (may_release owner slot)) [
      | inl yes_it_may ↦ rw yes_it_may (
        none,
        stamp,
        find-put (is_at email uuid) (record old { resource_lock = none; last_edit_time = stamp })
            v.leases (find-holds (is_at email uuid) v.leases _ found),
      )
      | inr may_not ↦ rw may_not (slot, stamp, found)
    ])

-- Only the lease table can change.
pub released_rest :
    (email uuid owner : String) (v : View)
    → ((released email uuid owner v).accounts ≡ v.accounts)
      × ((released email uuid owner v).sent ≡ v.sent)
released_rest email uuid owner v = ground arith

pub locked-KeepsLease :
    (email uuid : String) (old : Lease) (lock : Lock) (g : View)
    → lease_in g email uuid ≡ some old
    → KeepsLease email uuid old (with_lease_at email uuid (locked old lock none) g)
locked-KeepsLease email uuid old lock g found = (
  some lock,
  old.last_edit_time,
  find-put (is_at email uuid) (locked old lock none) g.leases
      (find-holds (is_at email uuid) g.leases old found),
)

-- A record that is found has the key that it was asked for.
pub lease_in-key :
    (g : View) (email uuid : String) (l : Lease)
    → lease_in g email uuid ≡ some l
    → (l.user_email ≡ email) × (l.uuid ≡ uuid)
lease_in-key g email uuid l found = ground (
  arith,
  find-holds (is_at email uuid) g.leases l found,
  eq_iff l.user_email email,
  eq_iff l.uuid uuid,
)

-- The table has got this record of the lease, with some lock and some stamp.
abbrev pub HasRecord : Lease → View → View → Type 0
HasRecord l g v =
    (slot : Option Lock) × (stamp : Option ℕ) × (v.leases
      ≡ put (same_key l) (record l { resource_lock = slot; last_edit_time = stamp }) g.leases)

-- Giving the lock back changes nothing of such a record but the lock.
pub released-HasRecord :
    (l : Lease) (owner : String) (g v : View)
    → HasRecord l g v
    → HasRecord l g (released l.user_email l.uuid owner v)
released-HasRecord l owner g v (slot, stamp, p) =
    let r : Lease = record l { resource_lock = slot; last_edit_time = stamp } in
    let there : lease_in v l.user_email l.uuid ≡ some r =
      ap (λ ls. find (is_at l.user_email l.uuid) ls) p ∙ find-put_lease r g.leases in
    rw there (elim (Bool-cases (may_release owner slot)) [
      | inl yes_it_may ↦ rw yes_it_may (
        none,
        stamp,
        ap (λ ls. put (same_key l) (record r { resource_lock = none }) ls) p
            ∙ put-put (same_key l) _ r g.leases (is_at_self l),
      )
      | inr may_not ↦ rw may_not (slot, stamp, p)
    ])
