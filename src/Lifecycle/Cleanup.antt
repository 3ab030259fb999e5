-- ===== src/Lifecycle/Cleanup.antt =====
-- What the handler does when the cleanup of an account has succeeded.
use innovation_sandbox_on_aw.Common.{
  ℕ, ◌≡◌, refl, sym, ap, ◌∙◌, subst, ◌⊎◌, String, true, false, none, some, [],
}
use innovation_sandbox_on_aw.Types.{Account, clean_up, available}
use innovation_sandbox_on_aw.Outcome.{
  Error, remote_failure, account_missing, account_not_cleaning, transaction_failed_and_rolled_back,
}
use innovation_sandbox_on_aw.Transaction.Rules.{complete-Triple, all_begun}
use innovation_sandbox_on_aw.AccountStore.{same_ou, transactional_move_account}
use innovation_sandbox_on_aw.AccountStore.Laws.{
  account_in, get_account-Triple, move_account_to-Triple, moved,
}
use innovation_sandbox_on_aw.Sandbox.{update_status_tag}
use innovation_sandbox_on_aw.Sandbox.Steps.{settled}
use innovation_sandbox_on_aw.Sandbox.Steps.Kept.{AccountIn}
use innovation_sandbox_on_aw.World.{World, tag_status}
use innovation_sandbox_on_aw.World.Triple.{
  View, view, Ended, Triple, Triple-bind, Triple-map, Triple-swallow, Triple-view,
}
use innovation_sandbox_on_aw.World.Triple.Bind.{bind_or_throw, bind_guard}
use innovation_sandbox_on_aw.World.Frame.{send-Triple}
use innovation_sandbox_on_aw.Lifecycle.{handle_account_cleanup_successful}

-- The account was being cleaned up, and its record is in Available now; the leases are as they were.
abbrev pub Cleaned : String → View → View → Type 0
Cleaned id g v =
    (a : Account) × (account_in g id ≡ some a)
    × (same_ou a.status clean_up ≡ true)
    × AccountIn a available g v
    × (v.leases ≡ g.leases)

-- Nothing has changed, except that after a failed move the account may have left its unit while its
-- record has not; an account that is not on record, or not in CleanUp, is refused.
abbrev pub NotCleaned : String → View → Error → View → Type 0
NotCleaned id g account_missing v = (v ≡ g) × (account_in g id ≡ none)
NotCleaned id g account_not_cleaning v =
    (v ≡ g) × ((a : Account) × (account_in g id ≡ some a) × (same_ou a.status clean_up ≡ false))
NotCleaned id g transaction_failed_and_rolled_back v =
    (a : Account) × (account_in g id ≡ some a) × ((v ≡ g) ⊎ (v ≡ moved a clean_up available g))
NotCleaned id g e v = (e ≡ remote_failure) × (v ≡ g)

module _ (id : String) (g : View) where
  tag-Triple :
      (a : Account) (u : View)
      → Triple u
          (λ _ v. (v.accounts ≡ u.accounts) × (v.leases ≡ u.leases))
          (λ _ _. ⊥)
          (update_status_tag a.aws_account_id available)
  unfolding update_status_tag
  tag-Triple a u =
      Triple-swallow _ (send-Triple (tag_status a.aws_account_id available) u)
        (λ _ v p. (ap (λ (x : View). x.accounts) p, ap (λ (x : View). x.leases) p))
        (λ e v h. (ap (λ (x : View). x.accounts) h.1, ap (λ (x : View). x.leases) h.1))

  Cleaned-Triple :
      Triple g (λ _ v. Cleaned id g v) (NotCleaned id g) (handle_account_cleanup_successful id)
  unfolding handle_account_cleanup_successful transactional_move_account
  Cleaned-Triple =
      Triple-bind _ _ (get_account-Triple id g)
        (λ e v h. subst (λ x. NotCleaned id g x v) (sym h.0) (refl, h.1))
        (λ found u (same, is). Triple-view same (
          bind_or_throw _ _ _
            (λ a p.
              let there : account_in g id ≡ some a = sym is ∙ p in
              bind_guard _ _ _
                (λ q.
                  Triple-bind _ _
                    (complete-Triple (λ _ v. (t : ℕ) × (v ≡ settled a clean_up available t g))
                      (NotCleaned id g) _ [] (move_account_to-Triple a clean_up available g)
                      (λ e v h. (a, there, h)) (λ r v (t, _, moved'). all_begun (t, moved')))
                    (λ e v h. h)
                    (λ r v (t, settled').
                      Triple-map _ (tag-Triple a v)
                        (λ _ x (accounts, leases). (
                          a,
                          there,
                          q,
                          (t, accounts ∙ ap (λ (y : View). y.accounts) settled'),
                          leases ∙ ap (λ (y : View). y.leases) settled',
                        ))
                        (λ e x h. absurd h)))
                (λ q. (refl, (a, there, q))))
            (λ p. (refl, sym is ∙ p))))

-- If the handler returns for an account whose cleanup has succeeded, the account's record was in
-- CleanUp and is in Available now, with its stamp, and neither another record nor a lease has
-- changed. An account that is not on record, or not in CleanUp, is refused, and then nothing has
-- changed; a failed move leaves all tables as they were.
pub handle_account_cleanup_successful_lem :
    (id : String) (w : World)
    → Ended
        (λ _ v. Cleaned id (view w) v)
        (NotCleaned id (view w))
        (handle_account_cleanup_successful id w)
handle_account_cleanup_successful_lem id w = (Cleaned-Triple id (view w)).at w refl
