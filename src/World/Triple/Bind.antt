-- ===== src/World/Triple/Bind.antt =====
-- The first step of a block, taken off: what is left to show of the rest.
use innovation_sandbox_on_aw.Common.{
  ◌≡◌, refl, sym, ap, ◌∙◌, subst, Bool, true, false, Option, none, some,
}
use innovation_sandbox_on_aw.Outcome.{
  Error, Result, ok, err, Action, pure, or_throw, gets, modify, guard, lift, remote_failure, ◌>>=◌,
}
use innovation_sandbox_on_aw.World.{World, Call, remote, send}
use innovation_sandbox_on_aw.World.Triple.{View, view, Triple, Triple-bind, Triple-view}
use innovation_sandbox_on_aw.World.Frame.{remote-Triple, send-Triple, after_call}

module _ {A B : Type 0} {g : View} {Q : B → View → Type 0} {E : Error → View → Type 0} where
  pub bind_gets :
      (f : World → A) (k : A → Action World B)
      → ((w : World) → view w ≡ g → Triple g Q E (k (f w)))
      → Triple g Q E (gets f >>= k)
  unfolding ◌>>=◌
  bind_gets f k h = record { at = λ w p. (h w p).at w p }

  -- A read of what the view shows.
  pub bind_reads :
      (f : View → A) (k : A → Action World B)
      → Triple g Q E (k (f g))
      → Triple g Q E (gets (λ w. f (view w)) >>= k)
  unfolding ◌>>=◌
  bind_reads f k h = record { at = λ w p. (subst (λ v. Triple g Q E (k (f v))) (sym p) h).at w p }

  pub bind_pure :
      (a : A) (k : A → Action World B) → Triple g Q E (k a) → Triple g Q E (pure a >>= k)
  unfolding ◌>>=◌
  bind_pure a k h = record { at = h.at }

  pub bind_or_throw :
      (o : Option A) (e : Error) (k : A → Action World B)
      → ((a : A) → o ≡ some a → Triple g Q E (k a))
      → (o ≡ none → E e g)
      → Triple g Q E (or_throw o e >>= k)
  unfolding ◌>>=◌
  bind_or_throw none e k found missing = record { at = λ w p. subst (E e) (sym p) (missing refl) }
  bind_or_throw (some a) e k found missing = record { at = (found a refl).at }

  pub bind_lift :
      (r : Result A) (k : A → Action World B)
      → ((a : A) → r ≡ ok a → Triple g Q E (k a))
      → ((e : Error) → r ≡ err e → E e g)
      → Triple g Q E (lift r >>= k)
  unfolding ◌>>=◌
  bind_lift (ok a) k fine thrown = record { at = (fine a refl).at }
  bind_lift (err e) k fine thrown = record { at = λ w p. subst (E e) (sym p) (thrown e refl) }

module _ {B : Type 0} {g : View} {Q : B → View → Type 0} {E : Error → View → Type 0} where
  -- A write, by what it does to the view.
  pub bind_writes :
      (f : World → World) (f' : View → View) (k : Unit {0} → Action World B)
      → ((w : World) → view (f w) ≡ f' (view w))
      → Triple (f' g) Q E (k tt)
      → Triple g Q E (modify f >>= k)
  unfolding ◌>>=◌
  bind_writes f f' k moves h = record { at = λ w p. h.at (f w) (moves w ∙ ap f' p) }

  pub bind_guard :
      (b : Bool) (e : Error) (k : Unit {0} → Action World B)
      → (b ≡ true → Triple g Q E (k tt))
      → (b ≡ false → E e g)
      → Triple g Q E (guard b e >>= k)
  unfolding ◌>>=◌
  bind_guard true e k passed failed = record { at = (passed refl).at }
  bind_guard false e k passed failed = record { at = λ w p. subst (E e) (sym p) (failed refl) }

  pub bind_remote :
      (k : Unit {0} → Action World B)
      → E remote_failure g
      → Triple g Q E (k tt)
      → Triple g Q E (remote >>= k)
  bind_remote k failed h =
      Triple-bind _ _ (remote-Triple g)
        (λ e v (p, q). subst (λ x. E x v) (sym p) (subst (E remote_failure) (sym q) failed))
        (λ _ v q. Triple-view q h)

  pub bind_send :
      (c : Call) (k : Unit {0} → Action World B)
      → E remote_failure g
      → Triple (after_call c g) Q E (k tt)
      → Triple g Q E (send c >>= k)
  bind_send c k failed h =
      Triple-bind _ _ (send-Triple c g)
        (λ e v (p, q). subst (λ x. E x v) (sym p) (subst (E remote_failure) (sym q) failed))
        (λ _ v q. Triple-view q h)
