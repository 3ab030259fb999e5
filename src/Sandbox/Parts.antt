-- ===== src/Sandbox/Parts.antt =====
-- The steps that the operations of the facade share, taken off the front of a block.
use innovation_sandbox_on_aw.Common.{
  ◌≡◌, refl, sym, ◌∙◌, subst, ◌⊎◌, inl, inr, String, some, List, [], ◌∷◌, or_default,
}
use innovation_sandbox_on_aw.Types.{Lease, Account, Ou}
use innovation_sandbox_on_aw.Outcome.{Error, Action, remote_failure, could_not_find_account, ◌>>=◌}
use innovation_sandbox_on_aw.Events.{Event}
use innovation_sandbox_on_aw.AccountStore.Laws.{account_in, get_account-Triple}
use innovation_sandbox_on_aw.Sandbox.{account_of, update_status_tag, send_events}
use innovation_sandbox_on_aw.World.{World, Call, tag_status, put_event}
use innovation_sandbox_on_aw.World.Triple.{
  View, Triple, Triple-bind, Triple-view, Triple-or_throw, Triple-pure, Triple-map, Triple-swallow,
}
use innovation_sandbox_on_aw.World.Triple.Bind.{bind_send}
use innovation_sandbox_on_aw.World.Frame.{after_call, send-Triple}

-- The events among the calls.
abbrev pub events_of : List Call → List Event
events_of [] = []
events_of (put_event e ∷ cs) = e ∷ events_of cs
events_of (_ ∷ cs) = events_of cs

-- The account id that a lease has.
abbrev pub account_id : Lease → String
account_id l = or_default l.aws_account_id ""

account_of-Triple :
    (l : Lease) (g : View)
    → Triple g
        (λ a v. (v ≡ g) × (account_in g (account_id l) ≡ some a))
        (λ e v. (v ≡ g) × ((e ≡ remote_failure) ⊎ (e ≡ could_not_find_account)))
        (account_of l)
unfolding account_of
account_of-Triple l g =
    Triple-bind _ _ (get_account-Triple (account_id l) g) (λ e v h. (h.1, inl h.0))
      (λ r v (same, is).
        Triple-view same (Triple-or_throw r _ (λ a e. (refl, sym is ∙ e)) (λ e. (refl, inr refl))))

module _ {B : Type 0} {g : View} {Q : B → View → Type 0} {E : Error → View → Type 0} where
  pub bind_account_of :
      (l : Lease) (k : Account → Action World B)
      → E remote_failure g
      → E could_not_find_account g
      → ((a : Account) → account_in g (account_id l) ≡ some a → Triple g Q E (k a))
      → Triple g Q E (account_of l >>= k)
  bind_account_of l k failed missing next =
      Triple-bind _ _ (account_of-Triple l g)
        (λ e v (same, why). subst (E e) (sym same) (reason e why))
        (λ a v (same, found). Triple-view same (next a found))
    where
      reason : (e : Error) → (e ≡ remote_failure) ⊎ (e ≡ could_not_find_account) → E e g
      reason e (inl p) = subst (λ x. E x g) (sym p) failed
      reason e (inr p) = subst (λ x. E x g) (sym p) missing

  -- The tag is set or it is not; the rest of the block goes on.
  pub bind_tag :
      (id : String) (status : Ou) (k : Unit {0} → Action World B)
      → Triple (after_call (tag_status id status) g) Q E (k tt)
      → Triple g Q E (k tt)
      → Triple g Q E (update_status_tag id status >>= k)
  unfolding update_status_tag
  bind_tag id status k tagged untagged =
      Triple-bind {Q = λ _ v. (v ≡ after_call (tag_status id status) g) ⊎ (v ≡ g)} {E = λ _ _. ⊥} _
        _ (Triple-swallow _ (send-Triple _ g) (λ _ v h. inl h) (λ e v h. inr h.1))
        (λ e v h. absurd h) (λ _ v h. go v h)
    where
      go : (v : View) → (v ≡ after_call (tag_status id status) g) ⊎ (v ≡ g) → Triple v Q E (k tt)
      go v (inl same) = Triple-view same tagged
      go v (inr same) = Triple-view same untagged

-- All the events are sent, or the first of them.
abbrev pub after_events : List Event → View → View
after_events [] g = g
after_events (e ∷ es) g = after_events es (after_call (put_event e) g)

abbrev pub SentSome : List Event → View → View → Type 0
SentSome [] g v = ⊥
SentSome (e ∷ es) g v = (v ≡ g) ⊎ SentSome es (after_call (put_event e) g) v

pub send_events-Triple :
    (es : List Event) (g : View)
    → Triple g
        (λ _ v. v ≡ after_events es g)
        (λ e v. (e ≡ remote_failure) × SentSome es g v)
        (send_events es)
unfolding send_events
send_events-Triple [] g = Triple-pure _ refl
send_events-Triple (e ∷ es) g =
    bind_send _ _ (refl, inl refl)
      (Triple-map _ (send_events-Triple es _) (λ _ v h. h) (λ x v h. (h.0, inr h.1)))
