-- ===== src/LeaseStore.antt =====
-- source/common/data/lease/dynamo-lease-store.ts and lease-store.ts: the lease table, keyed by
-- owner email and uuid. A `ConditionExpression` is a test on the stored item.
pub mod Laws
use innovation_sandbox_on_aw.Common.{
  ℕ, String, Bool, true, false, ◌&&◌, Option, none, some, List, find, keep, is_some, if◌then◌else◌,
  str_eq, ◌==◌,
}
use innovation_sandbox_on_aw.Types.{
  Lease, LeaseStatus, Lock, Intent, DesiredAssignment, Account, same_status,
}
use innovation_sandbox_on_aw.Outcome.{
  ok, err, Action, pure, or_throw, gets, modify, guard, ◌>>=◌, ◌>>◌, concurrent_data_modification,
  unknown_item, item_already_exists, resource_lock_conflict, invalid_item,
}
use innovation_sandbox_on_aw.Transaction.{Step, nested}
use innovation_sandbox_on_aw.LeaseLock.{admits, new_lock, may_release}
use innovation_sandbox_on_aw.World.{World, remote, time}
use innovation_sandbox_on_aw.Table.{put, erase}

-- The test for one key of the table.
abbrev pub is_at : String → String → Lease → Bool
is_at email uuid l = str_eq l.user_email email && str_eq l.uuid uuid

abbrev pub same_key : Lease → Lease → Bool
same_key l = is_at l.user_email l.uuid

-- What a step of a transaction returns: `PutResult` of a lease or of an account, or nothing.
pub data StepResult : Type 0 where
  lease_put : (old_item new_item : Lease) → StepResult
  account_put : (old_item : Option Account) (new_item : Account) → StepResult
  nothing : StepResult

abbrev pub write : Lease → World → World
write l w = record w { leases = put (same_key l) l w.leases }

-- A write at a key that is given.
abbrev pub write_at : (email uuid : String) → Lease → World → World
write_at email uuid l w = record w { leases = put (is_at email uuid) l w.leases }

-- `withMetadata`: every write stamps the record.
abbrev pub edited : Lease → ℕ → Lease
edited l now = record l { last_edit_time = some now }

abbrev stamped : Lease → World → Lease
stamped l w = edited l (time w)

unfoldable pub get_lease : String → String → Action World (Option Lease)
get_lease email uuid = do remote; gets (λ w. find (is_at email uuid) w.leases)

-- `update(lease)`: the item must exist. `validateItem` throws before the call if the schema refuses
-- the record, here and in the other two writes of a record.
unfoldable pub update_lease : Lease → Action World StepResult
update_lease l = do
  valid ← gets (λ w. w.lease_is_valid l)
  guard valid invalid_item
  l' ← gets (stamped l)
  remote
  found ← gets (λ w. find (same_key l) w.leases)
  old ← or_throw found unknown_item
  modify (write l')
  pure (lease_put old l')

abbrev pub same_edit_time : Option ℕ → Option ℕ → Bool
same_edit_time (some a) (some b) = a == b
same_edit_time _ _ = false

-- `update(lease, expected)`: the item must exist, unmodified since `expected` was read.
unfoldable pub update_lease_from : Lease → Lease → Action World StepResult
update_lease_from l expected = do
  valid ← gets (λ w. w.lease_is_valid l)
  guard valid invalid_item
  l' ← gets (stamped l)
  remote
  found ← gets (λ w. find (same_key l) w.leases)
  old ← or_throw found concurrent_data_modification
  guard (same_edit_time old.last_edit_time expected.last_edit_time) concurrent_data_modification
  modify (write l')
  pure (lease_put old l')

unfoldable pub create_lease : Lease → Action World Lease
create_lease l = do
  valid ← gets (λ w. w.lease_is_valid l)
  guard valid invalid_item
  l' ← gets (stamped l)
  remote
  found ← gets (λ w. find (same_key l) w.leases)
  guard (if is_some found then false else true) item_already_exists
  modify (write l')
  pure l'

unfoldable pub delete_lease : String → String → Action World (Unit {0})
delete_lease email uuid = do
  remote
  modify (λ w. record w { leases = erase (is_at email uuid) w.leases })

-- `transactionalUpdate`: the rollback puts the old item back, unless the new one has changed.
abbrev pub roll_lease_back : StepResult → Action World (Unit {0})
roll_lease_back (lease_put old new) = update_lease_from old new >> pure tt
roll_lease_back _ = pure tt

abbrev pub update_step : Lease → Step World StepResult
update_step l = record { begin = update_lease l; rollback = roll_lease_back }

unfoldable pub transactional_update : Lease → Step World StepResult
transactional_update l = nested (update_step l)

-- The record with the lock, and with the assignments if any are given.
abbrev pub locked : Lease → Lock → Option (List DesiredAssignment) → Lease
locked l lock none = record l { resource_lock = some lock }
locked l lock (some ds) = record l { resource_lock = some lock; desired_assignments = some ds }

-- The entries that are given are parsed.
abbrev pub accepts : World → Option (List DesiredAssignment) → Bool
accepts w none = true
accepts w (some ds) = w.desired_are_valid ds

-- `acquireLock`, and `acquireLockWithDesiredAssignments` where assignments are given: one
-- conditional write of the lock and of the assignments, which are parsed before. It leaves the edit
-- stamp alone.
unfoldable pub acquire_lock :
    (email uuid owner : String) (timeout_seconds : ℕ) (intent : Option Intent)
    → Option (List DesiredAssignment)
    → Action World Lock
acquire_lock email uuid owner timeout_seconds intent desired = do
  now ← gets time
  let lock = new_lock owner now timeout_seconds intent
  valid ← gets (λ w. w.lock_is_valid lock && accepts w desired)
  guard valid invalid_item
  remote
  found ← gets (λ w. find (is_at email uuid) w.leases)
  l ← or_throw found resource_lock_conflict
  guard (admits owner now intent l.resource_lock) resource_lock_conflict
  modify (write_at email uuid (locked l lock desired))
  pure lock

abbrev pub unlock : (email uuid owner : String) → Option Lease → World → World
unlock email uuid owner none w = w
unlock email uuid owner (some l) w =
    if may_release owner l.resource_lock
    then write_at email uuid (record l { resource_lock = none }) w
    else w

-- `releaseLock`: a failed condition is no error.
unfoldable pub release_lock : (email uuid owner : String) → Action World (Unit {0})
release_lock email uuid owner = do
  remote
  found ← gets (λ w. find (is_at email uuid) w.leases)
  modify (unlock email uuid owner found)

-- `findByUserEmail`, all pages.
unfoldable pub find_by_user_email : String → Action World (List Lease)
find_by_user_email email = do remote; gets (λ w. keep (λ l. str_eq l.user_email email) w.leases)

-- `findByStatus` and `findByStatusAndAccountID`, all pages.
unfoldable pub find_leases_by_status : LeaseStatus → Action World (List Lease)
find_leases_by_status status = do
  remote
  gets (λ w. keep (λ l. same_status l.status status) w.leases)

abbrev pub has_account : String → Lease → Bool
has_account id l = elim l.aws_account_id [ none ↦ false | some a ↦ str_eq a id ]

unfoldable pub find_by_status_and_account_id : LeaseStatus → String → Action World (List Lease)
find_by_status_and_account_id status id = do
  remote
  gets (λ w. keep (λ l. same_status l.status status && has_account id l) w.leases)
