-- ===== src/LeaseLock.antt =====
-- The lock on a lease record: the condition expressions of
-- source/common/data/lease/dynamo-lease-store.ts, with BlockingLockIntents of
-- source/shared/types/lease.ts, read as tests on the stored `resourceLock`.
pub mod Precedence
pub mod Tenure
mod Tests
use innovation_sandbox_on_aw.Common.{
  ℕ, ◌+◌, ◌*◌, String, Bool, true, false, not, ◌||◌, Option, none, some, List, [], ◌∷◌, any, ltb,
  str_eq,
}
use innovation_sandbox_on_aw.Types.{Intent, terminate, freeze, update, publish, unfreeze, Lock}

abbrev pub same_intent : Intent → Intent → Bool
same_intent terminate terminate = true
same_intent freeze freeze = true
same_intent update update = true
same_intent publish publish = true
same_intent unfreeze unfreeze = true
same_intent _ _ = false

-- CriticalLockIntents
abbrev pub critical_lock_intents : List Intent
critical_lock_intents = terminate ∷ freeze ∷ []

-- `CRITICAL_INTENTS.includes(intent)`
unfoldable pub is_critical : Intent → Bool
is_critical i = any (same_intent i) critical_lock_intents

-- `BlockingLockIntents[intent]`; `none` for an intent that is not a key of it.
abbrev pub blocking_lock_intents : Intent → Option (List Intent)
blocking_lock_intents terminate = some (terminate ∷ [])
blocking_lock_intents freeze = some (terminate ∷ freeze ∷ [])
blocking_lock_intents _ = none

-- `attribute_not_exists(resourceLock.meta.intent) OR NOT resourceLock.meta.intent IN (…)`, a
-- clause that stands in the condition only if the intent has blocking intents.
abbrev preempts : Option (List Intent) → Option Intent → Bool
preempts none held = false
preempts (some blocking) none = true
preempts (some blocking) (some held) = not (any (same_intent held) blocking)

abbrev blocking_of : Option Intent → Option (List Intent)
blocking_of none = none
blocking_of (some i) = blocking_lock_intents i

-- `buildLockAcquisitionCondition`, for a record that exists.
unfoldable pub admits : String → ℕ → Option Intent → Option Lock → Bool
admits owner now intent none = true
admits owner now intent (some l) =
    str_eq l.owner_id owner || ltb l.expires_at now || preempts (blocking_of intent) l.intent

-- The lock that `acquireLock` and `acquireLockWithDesiredAssignments` write.
unfoldable pub new_lock : String → ℕ → ℕ → Option Intent → Lock
new_lock owner now timeout_seconds intent = record {
  owner_id = owner;
  acquired_at = now;
  expires_at = now + 1000 * timeout_seconds;
  intent = intent;
}

-- The condition of `releaseLock`, for a record that exists.
unfoldable pub may_release : String → Option Lock → Bool
may_release owner none = true
may_release owner (some l) = str_eq l.owner_id owner

-- The lock slot of a record after an attempt to acquire it, and whether that succeeded.
unfoldable pub acquire : String → ℕ → ℕ → Option Intent → Option Lock → Option Lock × Bool
unfolding admits new_lock
acquire owner now timeout_seconds intent slot = elim (admits owner now intent slot) [
  | true ↦ (some (new_lock owner now timeout_seconds intent), true)
  | false ↦ (slot, false)
]

-- After `releaseLock`: a failed condition is a no-op.
unfoldable pub release : String → Option Lock → Option Lock
unfolding may_release
release owner slot = elim (may_release owner slot) [ true ↦ none | false ↦ slot ]
