-- ===== src/Sandbox/Pool/Laws.antt =====
-- How `registerAccount` and `retryCleanup` fail.
use innovation_sandbox_on_aw.Common.{◌≡◌, inl, inr, List, arith}
use innovation_sandbox_on_aw.Types.{Account, Ou, entry, clean_up}
use innovation_sandbox_on_aw.Outcome.{Result-cases, Error, ok, err, rollback_failed}
use innovation_sandbox_on_aw.Transaction.{Step, complete}
use innovation_sandbox_on_aw.Transaction.Irreversible.{IsIrreversible, complete-IsIrreversible}
use innovation_sandbox_on_aw.AccountStore.{
  move_step, move_account_to, is_account_status, transactional_move_account,
}
use innovation_sandbox_on_aw.LeaseStore.{StepResult}
use innovation_sandbox_on_aw.World.{World}
use innovation_sandbox_on_aw.World.Triple.{
  View, view, Triple, Triple-bind, Triple-map, Triple-returned,
}
use innovation_sandbox_on_aw.World.Triple.Bind.{bind_send}
use innovation_sandbox_on_aw.AccountStore.Laws.{put_account-Triple}
use innovation_sandbox_on_aw.Transaction.Rules.{nested-Triple}

-- The record of an account that is moved back to Entry is refused by its schema, so that the move
-- back throws.
move_back_throws :
    (a : Account) (d : Ou) (r : StepResult) (g : View)
    → Triple g (λ _ _. ⊥) (λ _ _. Unit {0}) ((transactional_move_account a entry d).rollback r)
unfolding transactional_move_account move_account_to is_account_status
move_back_throws a d r g =
    nested-Triple (move_step a entry d) r
      (Triple-bind {Q = λ _ _. ⊥} {E = λ _ _. Unit {0}} _ _
        (bind_send _ _ tt (
          Triple-map _ (put_account-Triple (record a { status = entry }) _)
            (λ _ v h. ground (arith, h.0)) (λ e v h. tt)))
        (λ e v h. tt) (λ _ v (h : ⊥). absurd h))
      (λ e v h. tt)

move_from_entry-IsIrreversible :
    (a : Account) (d : Ou) → IsIrreversible (transactional_move_account a entry d)
move_from_entry-IsIrreversible a d r w =
    let m = (transactional_move_account a entry d).rollback r in
    elim (Result-cases (m w).0) [
      | inl (x, p) ↦ absurd (Triple-returned m w x (move_back_throws a d r (view w)) p)
      | inr h ↦ h
    ]

-- The transaction of `registerAccount` cannot be rolled back once the account has left Entry:
-- whatever steps follow the move, and whatever fails, an error is that of a failed rollback.
pub register_account_move :
    (a : Account) (additional : List (Step World StepResult)) (w : World) (r : StepResult)
    (e : Error)
    → ((transactional_move_account a entry clean_up).begin w).0 ≡ ok r
    → (complete (transactional_move_account a entry clean_up) additional w).0 ≡ err e
    → e ≡ rollback_failed
register_account_move a additional w r e =
    complete-IsIrreversible (transactional_move_account a entry clean_up) additional w r e
      (move_from_entry-IsIrreversible a clean_up)
