-- ===== src/AccountStore/Laws.antt =====
-- What each call on accounts does, on each of its outcomes.
use innovation_sandbox_on_aw.Common.{
  ℕ, ◌≡◌, refl, ap, ◌⊎◌, inl, inr, String, true, Option, find, keep,
}
use innovation_sandbox_on_aw.Types.{Account, Ou}
use innovation_sandbox_on_aw.Outcome.{Error, remote_failure, invalid_item}
use innovation_sandbox_on_aw.Table.{put, erase}
use innovation_sandbox_on_aw.LeaseStore.{StepResult, account_put}
use innovation_sandbox_on_aw.AccountStore.{
  has_id, same_ou, touched, is_account_status, put_account, get_account, delete_account,
  find_by_status, move_account_to,
}
use innovation_sandbox_on_aw.World.{move_account}
use innovation_sandbox_on_aw.World.Triple.{
  View, Triple, Triple-gets, Triple-modify, Triple-pure, Triple-map,
}
use innovation_sandbox_on_aw.World.Triple.Bind.{
  bind_gets, bind_reads, bind_writes, bind_guard, bind_remote, bind_send,
}
use innovation_sandbox_on_aw.World.Frame.{Failed, after_call}

abbrev pub account_in : View → String → Option Account
account_in g id = find (has_id id) g.accounts

abbrev pub with_account : Account → View → View
with_account a g = record g { accounts = put (has_id a.aws_account_id) a g.accounts }

pub get_account-Triple :
    (id : String) (g : View)
    → Triple g (λ r v. (v ≡ g) × (r ≡ account_in g id)) (Failed g) (get_account id)
unfolding get_account
get_account-Triple id g =
    bind_remote _ (refl, refl) (Triple-gets _ (λ w p. (refl, ap (λ v. account_in v id) p)))

pub find_by_status-Triple :
    (status : Ou) (g : View)
    → Triple g
        (λ r v. (v ≡ g) × (r ≡ keep (λ a. same_ou a.status status) g.accounts))
        (Failed g)
        (find_by_status status)
unfolding find_by_status
find_by_status-Triple status g =
    bind_remote _ (refl, refl)
      (Triple-gets _
        (λ w p. (refl, ap (λ (v : View). keep (λ a. same_ou a.status status) v.accounts) p)))

pub delete_account-Triple :
    (id : String) (g : View)
    → Triple g
        (λ _ v. v ≡ record g { accounts = erase (has_id id) g.accounts })
        (Failed g)
        (delete_account id)
unfolding delete_account
delete_account-Triple id g =
    bind_remote _ (refl, refl)
      (Triple-modify _
        (λ w p. ap (λ (v : View). record v { accounts = erase (has_id id) v.accounts }) p))

-- How a put ends: the record is the stamped one.
abbrev pub Put : Account → View → StepResult → View → Type 0
Put a g r v =
    (now : ℕ) × (r ≡ account_put (account_in g a.aws_account_id) (touched a now))
    × (v ≡ with_account (touched a now) g)

pub put_account-Triple :
    (a : Account) (g : View)
    → Triple g
        (λ r v. (is_account_status a.status ≡ true) × Put a g r v)
        (λ e v. (v ≡ g) × ((e ≡ remote_failure) ⊎ (e ≡ invalid_item)))
        (put_account a)
unfolding put_account
put_account-Triple a g =
    bind_guard _ _ _
      (λ valid.
        bind_reads (λ v. v.env.account_is_valid a) _
          (bind_guard _ _ _
            (λ accepted. bind_gets _ _ (λ w p.
              let a' = touched a (w.clock w.ticks) in
              bind_remote _ (refl, inl refl)
                (bind_reads (λ v. account_in v a.aws_account_id) _
                  (bind_writes _ (with_account a') _ (λ u. refl)
                    (Triple-pure _ (valid, (w.clock w.ticks, refl, refl)))))))
            (λ refused. (refl, inr refl))))
      (λ invalid. (refl, inr refl))

-- The account with the status of the organizational unit that it is in now.
abbrev pub in_ou : Account → Ou → Account
in_ou a ou = record a { status = ou }

abbrev pub moved : Account → Ou → Ou → View → View
moved a source destination g = after_call (move_account a.aws_account_id source destination) g

-- A move that throws has changed nothing, or has moved the account and left its record alone.
abbrev pub NotMoved : Account → Ou → Ou → View → Error → View → Type 0
NotMoved a source destination g e v = (v ≡ g) ⊎ (v ≡ moved a source destination g)

pub move_account_to-Triple :
    (a : Account) (source destination : Ou) (g : View)
    → Triple g
        (Put (in_ou a destination) (moved a source destination g))
        (NotMoved a source destination g)
        (move_account_to a source destination)
unfolding move_account_to
move_account_to-Triple a source destination g =
    bind_send _ _ (inl refl)
      (Triple-map _ (put_account-Triple _ _) (λ r v h. h.1) (λ e v h. inr h.0))
