-- ===== src/LeaseLock/Tests.antt =====
-- Two owners at the lock of one lease.
use innovation_sandbox_on_aw.Common.{
  ◌+◌, ◌≤◌, ◌<◌, ◌≡◌, ◌↔◌, ◌⊎◌, refl, true, none, some, [], ◌∷◌, length, arith, eq_iff, str_eq,
  String, false, ◌≢◌,
}
use innovation_sandbox_on_aw.Types.{Lock, terminate, freeze, update, publish}
use innovation_sandbox_on_aw.LeaseLock.{admits, new_lock, acquire, release}
use innovation_sandbox_on_aw.LeaseLock.Precedence.{
  rank, held_rank, admits_iff_rank, Preempts, done, taken, Chain-bounded,
}
use innovation_sandbox_on_aw.LeaseLock.Tenure.{
  acquires, releases, attempts, attempts_powerless, acquire-release,
}

abbrev held : Lock
held = record { owner_id = "f1"; acquired_at = 0; expires_at = 900000; intent = some freeze }

abbrev updating : Lock
updating = record { owner_id = "u1"; acquired_at = 0; expires_at = 300000; intent = some update }

abbrev freezing : Lock
freezing = record { owner_id = "f1"; acquired_at = 5; expires_at = 900005; intent = some freeze }

differ : (a b : String) → str_eq a b ≡ false → a ≢ b
differ a b p e = ground (arith, eq_iff a b)

attempts_powerless_example :
    attempts (some held) (acquires "p2" 10 300 publish ∷ releases "p2" ∷ []) ≡ some held
attempts_powerless_example =
    attempts_powerless held (acquires "p2" 10 300 publish ∷ releases "p2" ∷ [])
      ((differ "f1" "p2" refl, omega arith, omega arith), (differ "f1" "p2" refl, tt))

admits_iff_rank_example :
    (admits "t2" 10 (some terminate) (some held) ≡ true)
    ↔ (held.owner_id ≡ "t2") ⊎ ((900000 < 10) ⊎ (held_rank (some freeze) < rank terminate))
admits_iff_rank_example = admits_iff_rank "t2" 10 terminate held

taken_over : Preempts updating freezing
unfolding admits
taken_over = record {
  intent = freeze;
  stated = refl;
  other_owner = differ "u1" "f1" refl;
  live = omega arith;
  admitted = refl;
}

Chain-bounded_example : length (freezing ∷ []) + held_rank updating.intent ≤ 2
Chain-bounded_example = Chain-bounded {l = updating} {ms = freezing ∷ []} (taken taken_over done)

acquire-release_example :
    let slot = (acquire "t2" 10 900 (some terminate) (some held)).0 in
    (slot ≡ some (new_lock "t2" 10 900 (some terminate)))
    × (release "t2" slot ≡ none)
    × (release "f1" slot ≡ slot)
unfolding acquire admits
acquire-release_example =
    acquire-release "t2" "f1" 10 900 (some terminate) (some held) (differ "f1" "t2" refl) refl
