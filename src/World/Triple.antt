-- ===== src/World/Triple.antt =====
-- What a call does to the tables and the services, whatever the clock: `Triple g Q E m` says of
-- every world that looks like `g` that `m` ends in one that looks as `Q` says if it returns, and
-- as `E` says if it throws. There is a rule for each way to build a call.
pub mod Bind
use innovation_sandbox_on_aw.Common.{
  ◌≡◌, refl, sym, subst, ◌⊎◌, inl, inr, Bool, true, false, Bool-cases, Option, none, some, List, ap,
}
use innovation_sandbox_on_aw.Types.{Lease, Account}
use innovation_sandbox_on_aw.Outcome.{
  Error, Result, ok, err, Action, pure, throw, or_throw, gets, modify, guard, swallow, on_error,
  finally, rethrow_after, lift, ◌>>=◌, ◌>>◌,
}
use innovation_sandbox_on_aw.World.{World, Env, Assignment, Call}

pub record View : Type 0 where
  pub env : Env
  pub leases : List Lease
  pub accounts : List Account
  pub assignments : List Assignment
  pub sent : List Call

abbrev pub view : World → View
view w = record {
  env = w.env;
  leases = w.leases;
  accounts = w.accounts;
  assignments = w.assignments;
  sent = w.sent;
}

abbrev pub Ended :
    {A : Type 0} → (A → View → Type 0) → (Error → View → Type 0) → Result A × World → Type 0
Ended Q E (ok a, w) = Q a (view w)
Ended Q E (err e, w) = E e (view w)

pub record Triple {A : Type 0} (g : View) (Q : A → View → Type 0) (E : Error → View → Type 0)
    (m : Action World A) : Type 0 where
  pub at : (w : World) → view w ≡ g → Ended Q E (m w)

module _ {A : Type 0} where
  pub Ended-map :
      (Q Q' : A → View → Type 0) (E E' : Error → View → Type 0) (r : Result A × World)
      → Ended Q E r
      → ((a : A) (v : View) → Q a v → Q' a v)
      → ((e : Error) (v : View) → E e v → E' e v)
      → Ended Q' E' r
  Ended-map Q Q' E E' (ok a, w) h q e = q a (view w) h
  Ended-map Q Q' E E' (err x, w) h q e = e x (view w) h

  pub Triple-map :
      {g : View} {Q Q' : A → View → Type 0} {E E' : Error → View → Type 0} (m : Action World A)
      → Triple g Q E m
      → ((a : A) (v : View) → Q a v → Q' a v)
      → ((e : Error) (v : View) → E e v → E' e v)
      → Triple g Q' E' m
  Triple-map {g} {Q} {Q'} {E} {E'} m h q e = record {
    at = λ w p. Ended-map Q Q' E E' (m w) (h.at w p) q e;
  }

  -- The view may be exchanged for an equal one.
  pub Triple-view :
      {g g' : View} {Q : A → View → Type 0} {E : Error → View → Type 0} {m : Action World A}
      → g ≡ g'
      → Triple g' Q E m
      → Triple g Q E m
  Triple-view {Q} {E} {m} p h = subst (λ v. Triple v Q E m) (sym p) h

  pub Triple-pure :
      {g : View} {Q : A → View → Type 0} {E : Error → View → Type 0} (a : A)
      → Q a g
      → Triple g Q E (pure a)
  Triple-pure {g} {Q} a h = record { at = λ w p. subst (Q a) (sym p) h }

  pub Triple-throw :
      {g : View} {Q : A → View → Type 0} {E : Error → View → Type 0} (e : Error)
      → E e g
      → Triple g Q E (throw e)
  Triple-throw {g} {E} e h = record { at = λ w p. subst (E e) (sym p) h }

  -- A value that is read from what the view shows.
  pub Triple-gets :
      {g : View} {Q : A → View → Type 0} {E : Error → View → Type 0} (f : World → A)
      → ((w : World) → view w ≡ g → Q (f w) g)
      → Triple g Q E (gets f)
  Triple-gets {g} {Q} f h = record { at = λ w p. subst (Q (f w)) (sym p) (h w p) }

  pub Triple-or_throw :
      {g : View} {Q : A → View → Type 0} {E : Error → View → Type 0} (o : Option A) (e : Error)
      → ((a : A) → o ≡ some a → Q a g)
      → (o ≡ none → E e g)
      → Triple g Q E (or_throw o e)
  Triple-or_throw none e found missing = Triple-throw e (missing refl)
  Triple-or_throw (some a) e found missing = Triple-pure a (found a refl)

  pub Triple-lift :
      {g : View} {Q : A → View → Type 0} {E : Error → View → Type 0} (r : Result A)
      → ((a : A) → r ≡ ok a → Q a g)
      → ((e : Error) → r ≡ err e → E e g)
      → Triple g Q E (lift r)
  Triple-lift (ok a) fine thrown = Triple-pure a (fine a refl)
  Triple-lift (err e) fine thrown = Triple-throw e (thrown e refl)

-- Nothing is said of how the call ends.
pub Triple-any :
    {A : Type 0} {g : View} (m : Action World A) → Triple g (λ _ _. Unit {0}) (λ _ _. Unit {0}) m
Triple-any {A} m = record { at = λ w p. ends (m w) }
  where
    ends : (r : Result A × World) → Ended (λ _ _. Unit {0}) (λ _ _. Unit {0}) r
    ends (ok a, w) = tt
    ends (err e, w) = tt

pub Triple-modify :
    {g : View} {Q : Unit {0} → View → Type 0} {E : Error → View → Type 0} (f : World → World)
    → ((w : World) → view w ≡ g → Q tt (view (f w)))
    → Triple g Q E (modify f)
Triple-modify f h = record { at = h }

pub Triple-guard :
    {g : View} {Q : Unit {0} → View → Type 0} {E : Error → View → Type 0} (b : Bool) (e : Error)
    → (b ≡ true → Q tt g)
    → (b ≡ false → E e g)
    → Triple g Q E (guard b e)
Triple-guard true e passed failed = Triple-pure tt (passed refl)
Triple-guard false e passed failed = Triple-throw e (failed refl)

module _ {A B : Type 0} where
  Ended-bind :
      (f : A → Action World B) (Q : A → View → Type 0) (E : Error → View → Type 0)
      (Q' : B → View → Type 0) (E' : Error → View → Type 0) (r : Result A × World)
      → Ended Q E r
      → ((e : Error) (v : View) → E e v → E' e v)
      → ((a : A) (v : View) → Q a v → Triple v Q' E' (f a))
      → Ended Q' E' (elim r.0 [ ok a ↦ f a r.1 | err e ↦ (err e, r.1) ])
  Ended-bind f Q E Q' E' (ok a, w) h thrown next = (next a (view w) h).at w refl
  Ended-bind f Q E Q' E' (err e, w) h thrown next = thrown e (view w) h

  pub Triple-bind :
      {g : View} {Q : A → View → Type 0} {E : Error → View → Type 0} {Q' : B → View → Type 0}
      {E' : Error → View → Type 0} (m : Action World A) (f : A → Action World B)
      → Triple g Q E m
      → ((e : Error) (v : View) → E e v → E' e v)
      → ((a : A) (v : View) → Q a v → Triple v Q' E' (f a))
      → Triple g Q' E' (m >>= f)
  unfolding ◌>>=◌
  Triple-bind {g} {Q} {E} {Q'} {E'} m f h thrown next = record {
    at = λ w p. Ended-bind f Q E Q' E' (m w) (h.at w p) thrown next;
  }

module _ {A : Type 0} where
  Ended-swallow :
      (Q : A → View → Type 0) (E : Error → View → Type 0) (P : View → Type 0) (r : Result A × World)
      → Ended Q E r
      → ((a : A) (v : View) → Q a v → P v)
      → ((e : Error) (v : View) → E e v → P v)
      → P (view r.1)
  Ended-swallow Q E P (ok a, w) h q e = q a (view w) h
  Ended-swallow Q E P (err x, w) h q e = e x (view w) h

  pub Triple-swallow :
      {g : View} {Q : A → View → Type 0} {E : Error → View → Type 0} {Q' : Unit {0} → View → Type 0}
      {E' : Error → View → Type 0} (m : Action World A)
      → Triple g Q E m
      → ((a : A) (v : View) → Q a v → Q' tt v)
      → ((e : Error) (v : View) → E e v → Q' tt v)
      → Triple g Q' E' (swallow m)
  unfolding swallow
  Triple-swallow {g} {Q} {E} {Q'} m h q e = record {
    at = λ w p. Ended-swallow Q E (Q' tt) (m w) (h.at w p) q e;
  }

  Ended-forget :
      (P : View → Type 0) (r : Result A × World) → Ended (λ _ v. P v) (λ _ v. P v) r → P (view r.1)
  Ended-forget P (ok a, w) h = h
  Ended-forget P (err e, w) h = h

module _ {A : Type 0} where
  Ended-on_error :
      (cleanup : Action World (Unit {0})) (Q Q' : A → View → Type 0) (E E' : Error → View → Type 0)
      (r : Result A × World)
      → Ended Q E r
      → ((a : A) (v : View) → Q a v → Q' a v)
      → ((e : Error) (v : View) → E e v → Triple v (λ _ u. E' e u) (λ _ u. E' e u) cleanup)
      → Ended Q' E' (elim r.0 [ ok a ↦ (ok a, r.1) | err e ↦ (err e, (cleanup r.1).1) ])
  Ended-on_error cleanup Q Q' E E' (ok a, w) h q c = q a (view w) h
  Ended-on_error cleanup Q Q' E E' (err e, w) h q c =
      Ended-forget (E' e) (cleanup w) ((c e (view w) h).at w refl)

  pub Triple-on_error :
      {g : View} {Q Q' : A → View → Type 0} {E E' : Error → View → Type 0} (m : Action World A)
      (cleanup : Action World (Unit {0}))
      → Triple g Q E m
      → ((a : A) (v : View) → Q a v → Q' a v)
      → ((e : Error) (v : View) → E e v → Triple v (λ _ u. E' e u) (λ _ u. E' e u) cleanup)
      → Triple g Q' E' (on_error m cleanup)
  unfolding on_error
  Triple-on_error {g} {Q} {Q'} {E} {E'} m cleanup h q c = record {
    at = λ w p. Ended-on_error cleanup Q Q' E E' (m w) (h.at w p) q c;
  }

  Ended-finally :
      (cleanup : Action World (Unit {0})) (Q Q' : A → View → Type 0) (E E' : Error → View → Type 0)
      (r : Result A × World)
      → Ended Q E r
      → ((a : A) (v : View) → Q a v → Triple v (λ _ u. Q' a u) (λ _ u. Q' a u) cleanup)
      → ((e : Error) (v : View) → E e v → Triple v (λ _ u. E' e u) (λ _ u. E' e u) cleanup)
      → Ended Q' E' (r.0, (cleanup r.1).1)
  Ended-finally cleanup Q Q' E E' (ok a, w) h q c =
      Ended-forget (Q' a) (cleanup w) ((q a (view w) h).at w refl)
  Ended-finally cleanup Q Q' E E' (err e, w) h q c =
      Ended-forget (E' e) (cleanup w) ((c e (view w) h).at w refl)

  pub Triple-finally :
      {g : View} {Q Q' : A → View → Type 0} {E E' : Error → View → Type 0} (m : Action World A)
      (cleanup : Action World (Unit {0}))
      → Triple g Q E m
      → ((a : A) (v : View) → Q a v → Triple v (λ _ u. Q' a u) (λ _ u. Q' a u) cleanup)
      → ((e : Error) (v : View) → E e v → Triple v (λ _ u. E' e u) (λ _ u. E' e u) cleanup)
      → Triple g Q' E' (finally m cleanup)
  unfolding finally
  Triple-finally {g} {Q} {Q'} {E} {E'} m cleanup h q c = record {
    at = λ w p. Ended-finally cleanup Q Q' E E' (m w) (h.at w p) q c;
  }

  Ended-rethrow :
      (e : Error) (E' : Error → View → Type 0) (Q' : A → View → Type 0)
      (r : Result (Unit {0}) × World)
      → Ended (λ _ u. E' e u) E' r
      → Ended Q' E' (elim r.0 [ ok _ ↦ err e | err x ↦ err x ], r.1)
  Ended-rethrow e E' Q' (ok a, w) h = h
  Ended-rethrow e E' Q' (err x, w) h = h

  Ended-rethrow_after :
      (cleanup : Action World (Unit {0})) (Q Q' : A → View → Type 0) (E E' : Error → View → Type 0)
      (r : Result A × World)
      → Ended Q E r
      → ((a : A) (v : View) → Q a v → Q' a v)
      → ((e : Error) (v : View) → E e v → Triple v (λ _ u. E' e u) E' cleanup)
      → Ended Q' E' (elim r.0 [
        | ok a ↦ (ok a, r.1)
        | err e ↦ (elim (cleanup r.1).0 [ ok _ ↦ err e | err x ↦ err x ], (cleanup r.1).1)
      ])
  Ended-rethrow_after cleanup Q Q' E E' (ok a, w) h q c = q a (view w) h
  Ended-rethrow_after cleanup Q Q' E E' (err e, w) h q c =
      Ended-rethrow e E' Q' (cleanup w) ((c e (view w) h).at w refl)

  pub Triple-rethrow_after :
      {g : View} {Q Q' : A → View → Type 0} {E E' : Error → View → Type 0} (m : Action World A)
      (cleanup : Action World (Unit {0}))
      → Triple g Q E m
      → ((a : A) (v : View) → Q a v → Q' a v)
      → ((e : Error) (v : View) → E e v → Triple v (λ _ u. E' e u) E' cleanup)
      → Triple g Q' E' (rethrow_after m cleanup)
  unfolding rethrow_after
  Triple-rethrow_after {g} {Q} {Q'} {E} {E'} m cleanup h q c = record {
    at = λ w p. Ended-rethrow_after cleanup Q Q' E E' (m w) (h.at w p) q c;
  }

-- What a returned value, or a thrown error, shows of the world.
pub Triple-returned :
    {A : Type 0} {Q : A → View → Type 0} {E : Error → View → Type 0} (m : Action World A)
    (w : World) (a : A)
    → Triple (view w) Q E m
    → (m w).0 ≡ ok a
    → Q a (view (m w).1)
Triple-returned {A} {Q} {E} m w a h e = go (m w) (h.at w refl) e
  where
    go : (r : Result A × World) → Ended Q E r → r.0 ≡ ok a → Q a (view r.1)
    go (ok b, v) x p = subst (λ c. Q c (view v)) (cc) x
    go (err b, v) x p = cc

pub Triple-thrown :
    {A : Type 0} {Q : A → View → Type 0} {E : Error → View → Type 0} (m : Action World A)
    (w : World) (e : Error)
    → Triple (view w) Q E m
    → (m w).0 ≡ err e
    → E e (view (m w).1)
Triple-thrown {A} {Q} {E} m w e h p = go (m w) (h.at w refl) p
  where
    go : (r : Result A × World) → Ended Q E r → r.0 ≡ err e → E e (view r.1)
    go (err b, v) x q = subst (λ c. E c (view v)) (cc) x
    go (ok b, v) x q = cc
