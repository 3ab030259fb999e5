-- ===== src/World/Within.antt =====
-- Calls that keep within a relation between the views before and after them, whether they return
-- or throw: the rules for each way to build a call, for a relation that is reflexive and
-- transitive.
use innovation_sandbox_on_aw.Common.{
  subst, refl, Bool, true, false, Option, none, some, if◌then◌else◌,
}
use innovation_sandbox_on_aw.Outcome.{
  Error, Result, ok, err, Action, pure, or_throw, gets, guard, swallow, map_error, finally,
  on_error, rethrow_after, lift, ◌>>=◌,
}
use innovation_sandbox_on_aw.World.{World}
use innovation_sandbox_on_aw.World.Triple.{View, view, Triple, Ended}

module _ (R : View → View → Type 0) where
  pub record Within {A : Type 0} (m : Action World A) : Type 0 where
    pub at : (w : World) → R (view w) (view (m w).1)

  abbrev pub Kept : {A : Type 0} → View → Result A × World → Type 0
  Kept g r = R g (view r.1)

  pub record IsPreorder : Type 0 where
    pub same : (g : View) → R g g
    pub next : (g h k : View) → R g h → R h k → R g k

-- What a call keeps within, added to how it ends.
pub Triple-Within :
    {R : View → View → Type 0} {A : Type 0} {g : View} {Q : A → View → Type 0}
    {E : Error → View → Type 0} (m : Action World A)
    → Within R m
    → Triple g Q E m
    → Triple g (λ a v. Q a v × R g v) (λ e v. E e v × R g v) m
Triple-Within {R} {A} {g} {Q} {E} m k h = record {
  at = λ w p. go (m w) (h.at w p) (subst (λ x. R x (view (m w).1)) p (k.at w));
}
  where
    go :
        (r : Result A × World)
        → Ended Q E r
        → R g (view r.1)
        → Ended (λ a v. Q a v × R g v) (λ e v. E e v × R g v) r
    go (ok a, w) x y = (x, y)
    go (err e, w) x y = (x, y)

module _ {R : View → View → Type 0} (order : IsPreorder R) where
  open order use {same, next}

  module _ {A : Type 0} where
    pub Within-pure : (a : A) → Within R (pure a)
    Within-pure a = record { at = λ w. same (view w) }

    pub Within-gets : (f : World → A) → Within R (gets f)
    Within-gets f = record { at = λ w. same (view w) }

    pub Within-or_throw : (o : Option A) (e : Error) → Within R (or_throw o e)
    Within-or_throw none e = record { at = λ w. same (view w) }
    Within-or_throw (some a) e = record { at = λ w. same (view w) }

    pub Within-lift : (r : Result A) → Within R (lift r)
    Within-lift r = record { at = λ w. same (view w) }

    pub Within-if :
        (b : Bool) {m k : Action World A} → Within R m → Within R k → Within R (if b then m else k)
    Within-if true h k = h
    Within-if false h k = k

    kept :
        (g : View) (P : A → View → Type 0) (E : Error → View → Type 0) (r : Result A × World)
        → Ended P E r
        → ((a : A) (v : View) → P a v → R g v)
        → ((e : Error) (v : View) → E e v → R g v)
        → R g (view r.1)
    kept g P E (ok a, w) h p e = p a (view w) h
    kept g P E (err x, w) h p e = e x (view w) h

    pub Within-Triple :
        {P : View → A → View → Type 0} {E : View → Error → View → Type 0} (m : Action World A)
        → ((g : View) → Triple g (P g) (E g) m)
        → ((g : View) (a : A) (v : View) → P g a v → R g v)
        → ((g : View) (e : Error) (v : View) → E g e v → R g v)
        → Within R m
    Within-Triple {P} {E} m h p e = record {
      at = λ w.
          kept (view w) (P (view w)) (E (view w)) (m w) ((h (view w)).at w refl) (p (view w))
            (e (view w));
    }

    pub Within-swallow : (m : Action World A) → Within R m → Within R (swallow m)
    unfolding swallow
    Within-swallow m h = record { at = h.at }

    pub Within-map_error :
        (f : Error → Error) (m : Action World A) → Within R m → Within R (map_error f m)
    unfolding map_error
    Within-map_error f m h = record { at = h.at }

    pub Within-finally :
        (m : Action World A) (c : Action World (Unit {0}))
        → Within R m
        → Within R c
        → Within R (finally m c)
    unfolding finally
    Within-finally m c h k = record { at = λ w. next _ _ _ (h.at w) (k.at (m w).1) }

    pub Within-on_error :
        (m : Action World A) (c : Action World (Unit {0}))
        → Within R m
        → Within R c
        → Within R (on_error m c)
    unfolding on_error
    Within-on_error m c h k = record { at = λ w. split w (m w) (h.at w) }
      where
        split :
            (w : World) (r : Result A × World)
            → R (view w) (view r.1)
            → Kept R {A = A} (view w) (elim r.0 [ ok a ↦ (ok a, r.1) | err e ↦ (err e, (c r.1).1) ])
        split w (ok a, x) p = p
        split w (err e, x) p = next _ _ _ p (k.at x)

    pub Within-rethrow_after :
        (m : Action World A) (c : Action World (Unit {0}))
        → Within R m
        → Within R c
        → Within R (rethrow_after m c)
    unfolding rethrow_after
    Within-rethrow_after m c h k = record { at = λ w. split w (m w) (h.at w) }
      where
        split :
            (w : World) (r : Result A × World)
            → R (view w) (view r.1)
            → Kept R {A = A} (view w) (elim r.0 [
              | ok a ↦ (ok a, r.1)
              | err e ↦ (elim (c r.1).0 [ ok _ ↦ err e | err x ↦ err x ], (c r.1).1)
            ])
        split w (ok a, x) p = p
        split w (err e, x) p = next _ _ _ p (k.at x)

  pub Within-guard : (b : Bool) (e : Error) → Within R (guard b e)
  Within-guard true e = record { at = λ w. same (view w) }
  Within-guard false e = record { at = λ w. same (view w) }

  pub Within-bind :
      {A B : Type 0} {m : Action World A} {f : A → Action World B}
      → Within R m
      → ((a : A) → Within R (f a))
      → Within R (m >>= f)
  unfolding ◌>>=◌
  Within-bind {A} {B} {m} {f} h k = record { at = λ w. split w (m w) (h.at w) }
    where
      split :
          (w : World) (r : Result A × World)
          → R (view w) (view r.1)
          → Kept R {A = B} (view w) (elim r.0 [ ok a ↦ f a r.1 | err e ↦ (err e, r.1) ])
      split w (ok a, x) p = next _ _ _ p ((k a).at x)
      split w (err e, x) p = p

  pub Within-option :
      {A B : Type 0} (o : Option A) {m : Action World B} {f : A → Action World B}
      → Within R m
      → ((a : A) → Within R (f a))
      → Within R (elim o [ none ↦ m | some a ↦ f a ])
  Within-option none h k = h
  Within-option (some a) h k = k a
