-- ===== src/Transaction.antt =====
-- source/common/utils/transactions.ts: steps that begin in order, and are rolled back newest
-- first when one fails. A step's result is kept for its own rollback only, so all steps share
-- one result type `R`; `S` is the state of the world that they act on.
pub mod Atomic
pub mod Rules
pub mod Irreversible
pub mod Within
mod Tests
use innovation_sandbox_on_aw.Common.{ℕ, ◌+◌, zero, suc, List, [], ◌∷◌}
use innovation_sandbox_on_aw.Outcome.{
  Result, ok, err, Action, rollback_failed, transaction_failed_and_rolled_back,
}

pub record Step (S R : Type 0) : Type 0 where
  pub begin : Action S R
  pub rollback : R → Action S (Unit {0})

abbrev errors_of : {A : Type 0} → Result A → ℕ
errors_of (ok _) = 0
errors_of (err _) = 1

module _ {S R : Type 0} where
  -- `_beginTransaction`: the steps that completed, newest first, and how the run ended. The
  -- list holds the steps whose flag `isComplete` is set, with their results.
  unfoldable pub begin_transaction :
      List (Step S R) → List (Step S R × R) → S → Result (Unit {0}) × List (Step S R × R) × S
  begin_transaction [] done s = (ok tt, done, s)
  begin_transaction (t ∷ ts) done s =
      let (r, s') = t.begin s in
      elim r [ ok a ↦ begin_transaction ts ((t, a) ∷ done) s' | err e ↦ (err e, done, s') ]

  -- `_rollbackTransaction`: every completed step is rolled back, whatever the others did; the
  -- number of rollbacks that threw comes back with the state.
  unfoldable pub rollback_transaction : List (Step S R × R) → S → ℕ × S
  rollback_transaction [] s = (0, s)
  rollback_transaction ((t, a) ∷ ts) s =
      let (r, s') = t.rollback a s in
      let (n, s'') = rollback_transaction ts s' in (errors_of r + n, s'')

  -- The `catch` of `complete`: a rollback that threw replaces the error.
  abbrev pub rolled_back : ℕ × S → Result R × S
  rolled_back (zero, s) = (err transaction_failed_and_rolled_back, s)
  rolled_back (suc n, s) = (err rollback_failed, s)

  abbrev finish : R → Result (Unit {0}) × List (Step S R × R) × S → Result R × S
  finish a (ok _, done, s) = (ok a, s)
  finish a (err _, done, s) = rolled_back (rollback_transaction done s)

  -- `new Transaction(primary, ...additional).complete()`.
  unfoldable pub complete : Step S R → List (Step S R) → Action S R
  unfolding begin_transaction rollback_transaction
  complete primary additional s =
      let (r, s') = primary.begin s in
      elim r [
        | ok a ↦ finish a (begin_transaction additional ((primary, a) ∷ []) s')
        | err e ↦ rolled_back (rollback_transaction [] s')
      ]

  -- A `Transaction` of one step, used as a step of another.
  abbrev pub nested : Step S R → Step S R
  nested t = record {
    begin = t.begin;
    rollback = λ a s.
        let (r, s') = t.rollback a s in (elim r [ ok _ ↦ ok tt | err _ ↦ err rollback_failed ], s');
  }
