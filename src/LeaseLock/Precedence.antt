-- ===== src/LeaseLock/Precedence.antt =====
-- Which intent may take the lock from which.
use innovation_sandbox_on_aw.Common.{
  ℕ, ◌+◌, ◌≤◌, ◌<◌, ◌≡◌, ◌≢◌, ◌↔◌, ◌⊎◌, inl, inr, String, true, Option, none, some, List, [], ◌∷◌,
  length, arith, eq_iff,
}
use innovation_sandbox_on_aw.Types.{Intent, terminate, freeze, update, publish, unfreeze, Lock}
use innovation_sandbox_on_aw.LeaseLock.{admits}

-- TERMINATE above FREEZE above the rest.
abbrev pub rank : Intent → ℕ
rank terminate = 2
rank freeze = 1
rank _ = 0

-- The standing of a held lock: one that was written without an intent yields to any critical one.
abbrev pub held_rank : Option Intent → ℕ
held_rank none = 0
held_rank (some i) = rank i

-- Against a lock that is held, an acquisition with an intent is admitted exactly when the holder
-- asks again, the lock has expired, or the new intent ranks strictly above the held one.
pub admits_iff_rank :
    (owner : String) (now : ℕ) (intent : Intent) (l : Lock)
    → (admits owner now (some intent) (some l) ≡ true)
      ↔ ((l.owner_id ≡ owner) ⊎ ((l.expires_at < now) ⊎ (held_rank l.intent < rank intent)))
unfolding admits
admits_iff_rank owner now terminate l = ground (arith, eq_iff l.owner_id owner)
admits_iff_rank owner now freeze l = ground (arith, eq_iff l.owner_id owner)
admits_iff_rank owner now update l = ground (arith, eq_iff l.owner_id owner)
admits_iff_rank owner now publish l = ground (arith, eq_iff l.owner_id owner)
admits_iff_rank owner now unfreeze l = ground (arith, eq_iff l.owner_id owner)

-- `m` was taken by another owner while `l` was still live.
pub record Preempts (l m : Lock) : Type 0 where
  pub intent : Intent
  pub stated : m.intent ≡ some intent
  pub other_owner : l.owner_id ≢ m.owner_id
  pub live : m.acquired_at ≤ l.expires_at
  pub admitted : admits m.owner_id m.acquired_at m.intent (some l) ≡ true

pub data Chain : Lock → List Lock → Type 0 where
  done : {l : Lock} → Chain l []
  taken : {l m : Lock} {ms : List Lock} → Preempts l m → Chain m ms → Chain l (m ∷ ms)

Preempts-rank : (l m : Lock) → Preempts l m → held_rank l.intent < held_rank m.intent
Preempts-rank l m p =
    rw p.stated
      (decide ((admits_iff_rank m.owner_id m.acquired_at p.intent l).0 (rw p.stated at p.admitted)))
  where
    decide :
        (l.owner_id ≡ m.owner_id)
          ⊎ ((l.expires_at < m.acquired_at) ⊎ (held_rank l.intent < rank p.intent))
        → held_rank l.intent < rank p.intent
    decide (inl same) = absurd (p.other_owner same)
    decide (inr (inl late)) = absurd (omega (arith, p.live))
    decide (inr (inr above)) = above

held_rank-le : (i : Option Intent) → held_rank i ≤ 2
held_rank-le none = omega arith
held_rank-le (some terminate) = omega arith
held_rank-le (some freeze) = omega arith
held_rank-le (some update) = omega arith
held_rank-le (some publish) = omega arith
held_rank-le (some unfreeze) = omega arith

-- While locks are live, a lock that others take over one after the other changes hands at most
-- twice: the number of changes and the rank of the first lock add up to 2 at most.
pub Chain-bounded : {l : Lock} {ms : List Lock} → Chain l ms → length ms + held_rank l.intent ≤ 2
Chain-bounded {l} done = omega (arith, held_rank-le l.intent)
Chain-bounded (taken {l} {m} p c) = omega (arith, Preempts-rank l m p, Chain-bounded c)
