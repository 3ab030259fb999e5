-- ===== src/Transaction/Irreversible.antt =====
-- A transaction with a step that cannot be undone.
use innovation_sandbox_on_aw.Common.{ℕ, zero, suc, ◌≤◌, ◌≡◌, ◌⊎◌, inl, inr, List, [], ◌∷◌, arith}
use innovation_sandbox_on_aw.Outcome.{Result-cases, ok, err, Error, rollback_failed}
use innovation_sandbox_on_aw.Transaction.{
  Step, begin_transaction, rollback_transaction, rolled_back, finish, complete,
}

module _ {S R : Type 0} where
  -- The rollback throws, whatever the state.
  abbrev pub IsIrreversible : Step S R → Type 0
  IsIrreversible t = (a : R) (s : S) → (e : Error) × ((t.rollback a s).0 ≡ err e)

  abbrev Stuck : List (Step S R × R) → Type 0
  Stuck [] = ⊥
  Stuck ((t, a) ∷ ts) = IsIrreversible t ⊎ Stuck ts

  rollback-Stuck :
      (done : List (Step S R × R)) (s : S) → Stuck done → 1 ≤ (rollback_transaction done s).0
  unfolding rollback_transaction
  rollback-Stuck [] s h = absurd h
  rollback-Stuck ((t, a) ∷ ts) s (inl h) = let (e, p) = h a s in rw p (omega arith)
  rollback-Stuck ((t, a) ∷ ts) s (inr h) =
      let later = rollback-Stuck ts (t.rollback a s).1 h in ground arith

  rolled_back-Stuck :
      (r : ℕ × S) (e : Error) → 1 ≤ r.0 → (rolled_back {R = R} r).0 ≡ err e → e ≡ rollback_failed
  rolled_back-Stuck (zero, s) e h p = ground arith
  rolled_back-Stuck (suc n, s) e h p = cc

  finish-Stuck :
      (a : R) (ts : List (Step S R)) (done : List (Step S R × R)) (s : S) (e : Error)
      → Stuck done
      → (finish a (begin_transaction ts done s)).0 ≡ err e
      → e ≡ rollback_failed
  unfolding begin_transaction
  finish-Stuck a [] done s e h p = cc
  finish-Stuck a (t ∷ ts) done s e h p = elim (Result-cases (t.begin s).0) [
    | inl (b, q) ↦ finish-Stuck a ts ((t, b) ∷ done) (t.begin s).1 e (inr h) (rw q at p)
    | inr (x, q) ↦
        rolled_back-Stuck (rollback_transaction done (t.begin s).1) e
          (rollback-Stuck done (t.begin s).1 h) (rw q at p)
  ]

  -- Once the first step is done and cannot be undone, every error is that of a failed rollback.
  pub complete-IsIrreversible :
      (primary : Step S R) (additional : List (Step S R)) (s : S) (b : R) (e : Error)
      → IsIrreversible primary
      → (primary.begin s).0 ≡ ok b
      → (complete primary additional s).0 ≡ err e
      → e ≡ rollback_failed
  unfolding complete
  complete-IsIrreversible primary additional s b e h began p =
      finish-Stuck b additional ((primary, b) ∷ []) (primary.begin s).1 e (inl h)
        (rw (began, complete) at p)
