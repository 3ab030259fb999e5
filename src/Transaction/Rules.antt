-- ===== src/Transaction/Rules.antt =====
-- How a transaction over the tables and services ends, from what each step and each rollback does.
use native.Mathlib.Nat.{add-zero}
use innovation_sandbox_on_aw.Common.{ℕ, zero, suc, ◌+◌, ◌≡◌, refl, sym, subst, List, [], ◌∷◌, arith}
use innovation_sandbox_on_aw.Outcome.{
  Result, ok, err, Error, transaction_failed_and_rolled_back, rollback_failed,
}
use innovation_sandbox_on_aw.Transaction.{
  Step, begin_transaction, rollback_transaction, rolled_back, finish, complete, nested, errors_of,
}
use innovation_sandbox_on_aw.World.{World}
use innovation_sandbox_on_aw.World.Triple.{View, view, Triple, Ended}

-- The error of a transaction of which so many rollbacks threw.
abbrev pub error_for : ℕ → Error
error_for zero = transaction_failed_and_rolled_back
error_for (suc n) = rollback_failed

module _ {R : Type 0} (Q' : R → View → Type 0) (E' : Error → View → Type 0) where
  -- Rolling the list back, after `bad` rollbacks that threw, ends as `E'` says.
  abbrev pub Back : List (Step World R × R) → ℕ → View → Type 0
  Back [] bad v = E' (error_for bad) v
  Back ((t, b) ∷ done) bad v =
      Triple v (λ _ u. Back done bad u) (λ _ u. Back done (suc bad) u) (t.rollback b)

  -- Beginning the steps, when those of the list are done, ends as `Q'` and `E'` say.
  pub data Runs (a : R) : List (Step World R) → List (Step World R × R) → View → Type 1 where
    all_begun : {done : List (Step World R × R)} {v : View} → Q' a v → Runs a [] done v
    begins :
        {t : Step World R} {ts : List (Step World R)} {done : List (Step World R × R)} {v : View}
        {Q : R → View → Type 0} {E : Error → View → Type 0}
        → Triple v Q E t.begin
        → ((e : Error) (u : View) → E e u → Back done 0 u)
        → ((b : R) (u : View) → Q b u → Runs a ts ((t, b) ∷ done) u)
        → Runs a (t ∷ ts) done v

  Back-rollback :
      (done : List (Step World R × R)) (bad : ℕ) (w : World)
      → Back done bad (view w)
      → let (n, w') = rollback_transaction done w in E' (error_for (n + bad)) (view w')
  unfolding rollback_transaction
  Back-rollback [] bad w h = subst (λ k. E' (error_for k) (view w)) (omega arith) h
  Back-rollback ((t, b) ∷ done) bad w h =
      split (t.rollback b w) (h.at w refl) (λ w' k. Back-rollback done bad w' k)
        (λ w' k. Back-rollback done (suc bad) w' k)
    where
      split :
          (r : Result (Unit {0}) × World)
          → Ended (λ _ u. Back done bad u) (λ _ u. Back done (suc bad) u) r
          → ((w' : World)
              → Back done bad (view w')
              → let (n, x) = rollback_transaction done w' in E' (error_for (n + bad)) (view x))
          → ((w' : World)
              → Back done (suc bad) (view w')
              → let (n, x) = rollback_transaction done w' in E' (error_for (n + suc bad)) (view x))
          → let (n, x) = rollback_transaction done r.1 in
            E' (error_for (errors_of r.0 + n + bad)) (view x)
      split (ok _, w') k fine threw =
          let (n, x) = rollback_transaction done w' in
          subst (λ m. E' (error_for m) (view x)) (omega arith) (fine w' k)
      split (err _, w') k fine threw =
          let (n, x) = rollback_transaction done w' in
          subst (λ m. E' (error_for m) (view x)) (omega arith) (threw w' k)

  rolled_back-Ended :
      (done : List (Step World R × R)) (w : World)
      → Back done 0 (view w)
      → Ended Q' E' (rolled_back (rollback_transaction done w))
  rolled_back-Ended done w h =
      let r = rollback_transaction done w in
      split r (subst (λ m. E' (error_for m) (view r.1)) (add-zero r.0) (Back-rollback done 0 w h))
    where
      split : (r : ℕ × World) → E' (error_for r.0) (view r.1) → Ended Q' E' (rolled_back r)
      split (zero, x) k = k
      split (suc n, x) k = k

  finish-Ended :
      (a : R) {ts : List (Step World R)} {done : List (Step World R × R)} {v : View} (w : World)
      → Runs a ts done v
      → view w ≡ v
      → Ended Q' E' (finish a (begin_transaction ts done w))
  unfolding begin_transaction
  finish-Ended a w (all_begun h) p = subst (Q' a) (sym p) h
  finish-Ended a w (begins {t} {ts} {done} {Q} {E} h failed next) p =
      split (t.begin w) (h.at w p) (λ b w' k. finish-Ended a w' (next b (view w') k) refl)
    where
      split :
          (r : Result R × World)
          → Ended Q E r
          → ((b : R) (w' : World)
              → Q b (view w')
              → Ended Q' E' (finish a (begin_transaction ts ((t, b) ∷ done) w')))
          → Ended Q' E' (
              finish a (elim r.0 [
                | ok b ↦ begin_transaction ts ((t, b) ∷ done) r.1
                | err e ↦ (err e, done, r.1)
              ]))
      split (ok b, w') k rest = rest b w' k
      split (err e, w') k rest = rolled_back-Ended done w' (failed e (view w') k)

  pub complete-Triple :
      {g : View} {Q : R → View → Type 0} {E : Error → View → Type 0} (primary : Step World R)
      (additional : List (Step World R))
      → Triple g Q E primary.begin
      → ((e : Error) (u : View) → E e u → E' transaction_failed_and_rolled_back u)
      → ((a : R) (u : View) → Q a u → Runs a additional ((primary, a) ∷ []) u)
      → Triple g Q' E' (complete primary additional)
  unfolding complete rollback_transaction
  complete-Triple {g} {Q} {E} primary additional h failed next = record {
    at = λ w p. split (primary.begin w) (h.at w p);
  }
    where
      split :
          (r : Result R × World)
          → Ended Q E r
          → Ended Q' E' (elim r.0 [
            | ok a ↦ finish a (begin_transaction additional ((primary, a) ∷ []) r.1)
            | err e ↦ rolled_back (rollback_transaction {R = R} [] r.1)
          ])
      split (ok a, w') k = finish-Ended a w' (next a (view w') k) refl
      split (err e, w') k = failed e (view w') k

-- A step of one step rolls back as that step does; an error of it is one of `RollbackFailedError`.
pub nested-Triple :
    {R : Type 0} {g : View} {Q : Unit {0} → View → Type 0} {E : Error → View → Type 0}
    {E' : Error → View → Type 0} (t : Step World R) (a : R)
    → Triple g Q E (t.rollback a)
    → ((e : Error) (u : View) → E e u → E' rollback_failed u)
    → Triple g Q E' ((nested t).rollback a)
nested-Triple {Q} {E} {E'} t a h threw = record { at = λ w p. split (t.rollback a w) (h.at w p) }
  where
    split :
        (r : Result (Unit {0}) × World)
        → Ended Q E r
        → Ended Q E' (elim r.0 [ ok _ ↦ ok tt | err _ ↦ err rollback_failed ], r.1)
    split (ok x, w') k = k
    split (err e, w') k = threw e (view w') k
