-- ===== src/Sandbox/Steps.antt =====
-- The transactions that write a lease and move its account, in both orders.
pub mod Kept
pub mod Undo
use innovation_sandbox_on_aw.Common.{
  ℕ, ◌≡◌, refl, sym, ap, ◌∙◌, subst, ◌⊎◌, inl, inr, String, true, Option, some, List, [], ◌∷◌,
  eq_refl,
}
use innovation_sandbox_on_aw.Types.{Lease, Account, Ou}
use innovation_sandbox_on_aw.Outcome.{
  Error, transaction_failed_and_rolled_back, rollback_failed, ◌>>=◌, ◌>>◌,
}
use innovation_sandbox_on_aw.Transaction.{complete}
use innovation_sandbox_on_aw.Transaction.Rules.{complete-Triple, nested-Triple, begins, all_begun}
use innovation_sandbox_on_aw.Table.{put, put-put}
use innovation_sandbox_on_aw.LeaseStore.{
  StepResult, lease_put, edited, update_step, roll_lease_back, transactional_update,
}
use innovation_sandbox_on_aw.LeaseStore.Laws.{
  lease_in, with_lease, update_lease-Triple, update_lease_from-Triple,
}
use innovation_sandbox_on_aw.AccountStore.{
  has_id, touched, move_step, move_account_to, transactional_move_account,
}
use innovation_sandbox_on_aw.AccountStore.Laws.{
  account_in, with_account, in_ou, moved, move_account_to-Triple,
}
use innovation_sandbox_on_aw.World.Triple.{
  View, Triple, Triple-bind, Triple-map, Triple-pure, Triple-view,
}

-- The account moved to `ou` from `here`, with its record written at `t`.
abbrev pub settled : Account → Ou → Ou → ℕ → View → View
settled a here ou t g = with_account (touched (in_ou a ou) t) (moved a here ou g)

-- The move is followed by the move back.
abbrev pub there_and_back : Account → Ou → Ou → ℕ → ℕ → View → View
there_and_back a s d t t' g = settled a d s t' (settled a s d t g)

-- How a move that is not the last step can fail. A transaction that is rolled back has done
-- nothing, has moved the account without writing its record, or has moved it there and back. If
-- the rollback fails, the account stays where it was moved to, but for the move back itself.
abbrev pub MoveFailed : Account → Ou → Ou → View → Error → View → Type 0
MoveFailed a s d g transaction_failed_and_rolled_back v =
    (v ≡ g) ⊎ ((v ≡ moved a s d g) ⊎ ((t : ℕ) × (t' : ℕ) × (v ≡ there_and_back a s d t t' g)))
MoveFailed a s d g rollback_failed v =
    (t : ℕ) × ((v ≡ settled a s d t g) ⊎ (v ≡ moved a d s (settled a s d t g)))
MoveFailed a s d g _ v = ⊥

-- The record that a transaction writes before it moves the account.
abbrev pub Rewritten : Lease → Lease → View → View → Type 0
Rewritten l old g v =
    (t : ℕ) × (lease_in g l.user_email l.uuid ≡ some old) × (v ≡ with_lease (edited l t) g)

-- How a write before a move can fail. The move has done nothing, or has moved the account without
-- writing its record; the lease's record is as it was, with another stamp, or could not be put
-- back.
abbrev pub WriteFailed : Lease → Account → Ou → Ou → View → Error → View → Type 0
WriteFailed l a s d g transaction_failed_and_rolled_back v =
    (v ≡ g)
    ⊎ ((old : Lease) × (t : ℕ) × (u : View) × Rewritten l old g u
        × ((v ≡ with_lease (edited old t) u) ⊎ (v ≡ with_lease (edited old t) (moved a s d u))))
WriteFailed l a s d g rollback_failed v =
    (old : Lease) × (u : View) × Rewritten l old g u × ((v ≡ u) ⊎ (v ≡ moved a s d u))
WriteFailed l a s d g _ v = ⊥

pub roll_lease_back-Triple :
    (old new : Lease) (r : StepResult) (g : View)
    → r ≡ lease_put old new
    → Triple g
        (λ _ v. (t : ℕ) × (v ≡ with_lease (edited old t) g))
        (λ _ v. v ≡ g)
        (roll_lease_back r)
roll_lease_back-Triple old new r g is =
    subst
      (λ x.
        Triple g (λ _ v. (t : ℕ) × (v ≡ with_lease (edited old t) g)) (λ _ v. v ≡ g)
          (roll_lease_back x))
      (sym is)
      (Triple-bind _ _ (update_lease_from-Triple old new g) (λ e v h. h.0)
        (λ _ v (t, found, _, _, _, same). Triple-pure tt (t, same)))

module _ (a : Account) (s d : Ou) (l : Lease) (g : View) where
  -- The account is moved and the lease written, or the move is undone.
  pub move_then_update-Triple :
      Triple g
        (λ r v. (t : ℕ) × (old : Lease) × Rewritten l old (settled a s d t g) v)
        (MoveFailed a s d g)
        (complete (transactional_move_account a s d) (transactional_update l ∷ []))
  unfolding transactional_move_account transactional_update
  move_then_update-Triple =
      complete-Triple (λ r v. (t : ℕ) × (old : Lease) × Rewritten l old (settled a s d t g) v)
        (MoveFailed a s d g) _ _ (move_account_to-Triple a s d g) (λ e u h. unmoved u h)
        (λ r u (t, is, same).
          begins (update_lease-Triple l u)
            (λ e x h. Triple-view (h.0 ∙ same) (
              nested-Triple (move_step a s d) r
                (Triple-bind _ _ (move_account_to-Triple a d s (settled a s d t g)) (λ e' y k. k)
                  (λ r' y (t', is', same').
                    Triple-pure {E = NotBack t} tt (inr (inr (t, t', same')))))
                (λ e' y k. (t, k))))
            (λ b x (t', old, found, is', same'). all_begun (
              t,
              old,
              (
                t',
                subst (λ (y : View). lease_in y l.user_email l.uuid ≡ some old) same found,
                same' ∙ ap (with_lease (edited l t')) same,
              ),
            )))
    where
      NotBack : ℕ → Error → View → Type 0
      NotBack t e v = (v ≡ settled a s d t g) ⊎ (v ≡ moved a d s (settled a s d t g))

      unmoved :
          (u : View)
          → (u ≡ g) ⊎ (u ≡ moved a s d g)
          → MoveFailed a s d g transaction_failed_and_rolled_back u
      unmoved u (inl p) = inl p
      unmoved u (inr p) = inr (inl p)

  -- The lease is written and the account moved, or the write is undone.
  pub update_then_move-Triple :
      Triple g
        (λ r v.
          (old : Lease) × (u : View) × (t : ℕ) × (t' : ℕ) × (lease_in g l.user_email l.uuid
            ≡ some old)
          × (r ≡ lease_put old (edited l t))
          × (u ≡ with_lease (edited l t) g)
          × (v ≡ settled a s d t' u))
        (WriteFailed l a s d g)
        (complete (transactional_update l) (transactional_move_account a s d ∷ []))
  unfolding transactional_move_account transactional_update
  update_then_move-Triple =
      complete-Triple _ (WriteFailed l a s d g) _ _ (update_lease-Triple l g) (λ e u h. inl h.0)
        (λ r u (t, old, found, is, same).
          begins (move_account_to-Triple a s d u)
            (λ e x h.
              nested-Triple (update_step l) r
                (Triple-map _ (roll_lease_back-Triple old _ r x is)
                  (λ _ y k. undone old t u x (found, same) h y k)
                  (λ e' y k. kept old t u x (found, same) h y k))
                (λ e' y k. k))
            (λ b x (t', is', same'). all_begun (old, u, t, t', found, is, same, same')))
    where
      undone :
          (old : Lease) (t : ℕ) (u x : View)
          → (lease_in g l.user_email l.uuid ≡ some old) × (u ≡ with_lease (edited l t) g)
          → (x ≡ u) ⊎ (x ≡ moved a s d u)
          → (y : View) → ((t' : ℕ) × (y ≡ with_lease (edited old t') x))
          → WriteFailed l a s d g transaction_failed_and_rolled_back y
      undone old t u x (found, same) (inl p) y (t', q) =
          inr (old, t', u, (t, found, same), inl (q ∙ ap (with_lease (edited old t')) p))
      undone old t u x (found, same) (inr p) y (t', q) =
          inr (old, t', u, (t, found, same), inr (q ∙ ap (with_lease (edited old t')) p))

      kept :
          (old : Lease) (t : ℕ) (u x : View)
          → (lease_in g l.user_email l.uuid ≡ some old) × (u ≡ with_lease (edited l t) g)
          → (x ≡ u) ⊎ (x ≡ moved a s d u)
          → (y : View) → y ≡ x
          → WriteFailed l a s d g rollback_failed y
      kept old t u x (found, same) (inl p) y q = (old, u, (t, found, same), inl (q ∙ p))
      kept old t u x (found, same) (inr p) y q = (old, u, (t, found, same), inr (q ∙ p))
