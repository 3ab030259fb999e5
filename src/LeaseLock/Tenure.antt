-- ===== src/LeaseLock/Tenure.antt =====
-- How long a holder keeps the lock, whatever the other callers try.
use innovation_sandbox_on_aw.Common.{
  ℕ, ◌≤◌, ◌<◌, ◌≡◌, ◌≢◌, refl, ◌⊎◌, inl, inr, String, true, Bool-cases, Option, none, some, List,
  [], ◌∷◌, All, arith, eq_iff, eq_refl,
}
use innovation_sandbox_on_aw.Types.{Intent, Lock}
use innovation_sandbox_on_aw.LeaseLock.{admits, new_lock, acquire, release}
use innovation_sandbox_on_aw.LeaseLock.Precedence.{rank, held_rank, admits_iff_rank}

pub data Attempt : Type 0 where
  acquires : (owner : String) (now timeout_seconds : ℕ) → Intent → Attempt
  releases : (owner : String) → Attempt

-- The lock slot after one call of the store.
pub attempt : Option Lock → Attempt → Option Lock
unfolding acquire release
attempt slot (acquires owner now timeout intent) = (acquire owner now timeout (some intent) slot).0
attempt slot (releases owner) = release owner slot

pub attempts : Option Lock → List Attempt → Option Lock
unfolding attempt
attempts slot [] = slot
attempts slot (a ∷ as') = attempts (attempt slot a) as'

-- A call by another owner which, if it asks for the lock, does so before `l` expires and with an
-- intent that does not outrank it.
abbrev pub IsPowerless : Lock → Attempt → Type 0
IsPowerless l (acquires owner now timeout intent) =
    (l.owner_id ≢ owner) × (now ≤ l.expires_at) × (rank intent ≤ held_rank l.intent)
IsPowerless l (releases owner) = l.owner_id ≢ owner

attempt_powerless : (l : Lock) (a : Attempt) → IsPowerless l a → attempt (some l) a ≡ some l
unfolding attempt
attempt_powerless l (acquires owner now timeout intent) (other, live, low) =
    elim (Bool-cases (admits owner now (some intent) (some l))) [
      | inl e ↦ absurd (impossible ((admits_iff_rank owner now intent l).0 e))
      | inr e ↦ rw (e, attempt)
    ]
  where
    impossible :
        (l.owner_id ≡ owner) ⊎ ((l.expires_at < now) ⊎ (held_rank l.intent < rank intent)) → ⊥
    impossible (inl same) = other same
    impossible (inr (inl late)) = omega arith
    impossible (inr (inr above)) = omega arith
attempt_powerless l (releases owner) other = ground (arith, eq_iff l.owner_id owner)

-- A lock is not moved by any sequence of calls of other owners, each of which gives the lock back
-- or asks for it before it expires and with an intent that does not outrank it.
pub attempts_powerless :
    (l : Lock) (calls : List Attempt) → All (IsPowerless l) calls → attempts (some l) calls ≡ some l
unfolding attempts
attempts_powerless l [] h = refl
attempts_powerless l (a ∷ calls) (h, hs) =
    rw (attempt_powerless l a h) (attempts_powerless l calls hs)

-- An acquisition that succeeds stores the caller's new lock; its owner can release it, and the
-- release of any other owner does nothing.
pub acquire-release :
    (owner former : String) (now timeout : ℕ) (intent : Option Intent) (slot : Option Lock)
    → former ≢ owner
    → (acquire owner now timeout intent slot).1 ≡ true
    → let slot' = (acquire owner now timeout intent slot).0 in
      (slot' ≡ some (new_lock owner now timeout intent))
      × (release owner slot' ≡ none)
      × (release former slot' ≡ slot')
unfolding acquire release
acquire-release owner former now timeout intent slot other e =
    ground (arith, eq_refl owner, eq_iff owner former)
