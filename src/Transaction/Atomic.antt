-- ===== src/Transaction/Atomic.antt =====
-- What `complete` guarantees: all steps, or none.
use mathlib.Core.List.{reverse, reverse-cons, append_assoc}
use innovation_sandbox_on_aw.Common.{
  ℕ, zero, suc, ◌+◌, ◌⊎◌, ◌≡◌, refl, sym, ap, ◌∙◌, ◌↔◌, inl, inr, List, [], ◌∷◌, ◌++◌, map, Option,
  none, some, arith,
}
use innovation_sandbox_on_aw.Outcome.{
  Result, Result-cases, ok, err, Error, transaction_failed_and_rolled_back, rollback_failed,
}
use innovation_sandbox_on_aw.Transaction.{
  Step, begin_transaction, rollback_transaction, rolled_back, errors_of, finish, complete,
}
use innovation_sandbox_on_aw.Transaction.Rules.{error_for}

module _ {S R V : Type 0} (view : S → V) where
  -- Seen through `view`, a step that fails has done nothing, and a rollback that goes through
  -- undoes the step from any state that looks the same. A rollback may throw.
  pub record Undoes (t : Step S R) : Type 0 where
    pub untouched : (s : S) (e : Error) (s' : S) → t.begin s ≡ (err e, s') → view s' ≡ view s
    pub undone :
        (s : S) (a : R) (s' u u' : S)
        → t.begin s ≡ (ok a, s')
        → view u ≡ view s'
        → t.rollback a u ≡ (ok tt, u')
        → view u' ≡ view s

  abbrev LeadsBack : List (Step S R × R) → V → V → Type 0
  LeadsBack done here origin =
      (u : S)
      → view u ≡ here
      → (rollback_transaction done u).0 ≡ 0
      → view (rollback_transaction done u).1 ≡ origin

  -- An error that says that the transaction was rolled back is true; the only other error says
  -- that a rollback threw.
  abbrev pub IsAtomic : V → Result R × S → Type 0
  IsAtomic origin (ok _, _) = Unit {0}
  IsAtomic origin (err e, s) =
      ((e ≡ transaction_failed_and_rolled_back) × (view s ≡ origin)) ⊎ (e ≡ rollback_failed)

module _ {S R : Type 0} where
  -- All the steps begin, one after the other; `none` if one of them fails.
  abbrev pub all_begin : List (Step S R) → S → Option S
  all_begin [] s = some s
  all_begin (t ∷ ts) s = let (r, s') = t.begin s in elim r [ ok _ ↦ all_begin ts s' | err _ ↦ none ]

  finish-all_begin :
      (a b : R) (ts : List (Step S R)) (done : List (Step S R × R)) (s s' : S)
      → (finish a (begin_transaction ts done s) ≡ (ok b, s'))
        ↔ ((a ≡ b) × (all_begin ts s ≡ some s'))
  unfolding begin_transaction
  finish-all_begin a b [] done s s' = ground arith
  finish-all_begin a b (t ∷ ts) done s s' = elim (Result-cases (t.begin s).0) [
    | inl (x, e) ↦ rw e (finish-all_begin a b ts ((t, x) ∷ done) (t.begin s).1 s')
    | inr (x, e) ↦ rw e (ground arith)
  ]

  -- A transaction returns a result exactly when every step begins without an error, one after the
  -- other, and the result is that of the primary step; the state is the one that the last step
  -- left.
  pub complete_iff :
      (primary : Step S R) (additional : List (Step S R)) (s s' : S) (b : R)
      → (complete primary additional s ≡ (ok b, s'))
        ↔ (((primary.begin s).0 ≡ ok b) × (all_begin additional (primary.begin s).1 ≡ some s'))
  unfolding complete rollback_transaction
  complete_iff primary additional s s' b = elim (Result-cases (primary.begin s).0) [
    | inl (a, e) ↦
        rw (e, complete)
          (ground
            (arith, finish-all_begin a b additional ((primary, a) ∷ []) (primary.begin s).1 s'))
    | inr (x, e) ↦ rw e (ground arith)
  ]

  -- The steps begin without an error, one after the other, and are noted newest first.
  abbrev pub Begun : List (Step S R) → List (Step S R × R) → S → List (Step S R × R) → S → Type 0
  Begun [] done s all s' = (all ≡ done) × (s' ≡ s)
  Begun (t ∷ ts) done s all s' =
      (a : R) × ((u : S) × ((t.begin s ≡ (ok a, u)) × Begun ts ((t, a) ∷ done) u all s'))

  -- Each of the steps is rolled back, in the order of the list, from the state that the one before
  -- has left, whether that one threw or not; `n` of them threw.
  abbrev pub Unwound : List (Step S R × R) → S → (n : ℕ) → S → Type 0
  Unwound [] s n v = (n ≡ 0) × (v ≡ s)
  Unwound ((t, a) ∷ cs) s n v =
      (r : Result (Unit {0})) × ((u : S) × ((t.rollback a s ≡ (r, u))
          × ((m : ℕ) × (Unwound cs u m v × (n ≡ errors_of r + m)))))

  rollback-Unwound :
      (cs : List (Step S R × R)) (s : S)
      → Unwound cs s (rollback_transaction cs s).0 (rollback_transaction cs s).1
  unfolding rollback_transaction
  rollback-Unwound [] s = (refl, refl)
  rollback-Unwound ((t, a) ∷ cs) s =
      let u = (t.rollback a s).1 in
      (
        (t.rollback a s).0,
        (u, (refl, ((rollback_transaction cs u).0, (rollback-Unwound cs u, refl)))),
      )

  rolled_back-error_for : (r : ℕ × S) → rolled_back {S = S} {R = R} r ≡ (err (error_for r.0), r.1)
  rolled_back-error_for (zero, s) = refl
  rolled_back-error_for (suc n, s) = refl

  begin-append :
      (pre post : List (Step S R)) (bad : Step S R) (done all : List (Step S R × R)) (s s' u : S)
      (e : Error)
      → Begun pre done s all s'
      → bad.begin s' ≡ (err e, u)
      → begin_transaction (pre ++ bad ∷ post) done s ≡ (err e, all, u)
  unfolding begin_transaction
  begin-append [] post bad done all s s' u e (is, same) failed =
      let f : bad.begin s ≡ (err e, u) = ap bad.begin (sym same) ∙ failed in
      let r : (bad.begin s).0 ≡ err e = ap (λ y. y.0) f in
      let v : (bad.begin s).1 ≡ u = ap (λ y. y.1) f in rw (r, v) (ap (λ d. (err e, d, u)) (sym is))
  begin-append (t ∷ ts) post bad done all s s' u e (a, (x, (b, ran))) failed =
      let r : (t.begin s).0 ≡ ok a = ap (λ y. y.0) b in
      let v : (t.begin s).1 ≡ x = ap (λ y. y.1) b in
      rw (r, v) (begin-append ts post bad ((t, a) ∷ done) all x s' u e ran failed)

  Begun-order :
      (pre : List (Step S R)) (done all : List (Step S R × R)) (s s' : S)
      → Begun pre done s all s'
      → map (λ c. c.0) all ≡ reverse pre ++ map (λ c. c.0) done
  Begun-order [] done all s s' (is, same) = ap (map (λ c. c.0)) is
  Begun-order (t ∷ ts) done all s s' (a, (x, (b, ran))) =
      Begun-order ts ((t, a) ∷ done) all x s' ran ∙ rw (reverse-cons t ts, append_assoc)

  -- When a step fails, the steps after it never begin; those that completed, and no other, are
  -- rolled back from the state that the failure left, the newest first, each of them even if another
  -- rollback has thrown. The transaction ends in the state that this leaves, and its error tells
  -- whether every rollback went through.
  pub complete-append :
      (primary bad : Step S R) (pre post : List (Step S R)) (all : List (Step S R × R)) (s s' u : S)
      (a : R) (e : Error)
      → (primary.begin s).0 ≡ ok a
      → Begun pre ((primary, a) ∷ []) (primary.begin s).1 all s'
      → bad.begin s' ≡ (err e, u)
      → (map (λ c. c.0) all ≡ reverse pre ++ primary ∷ [])
        × ((n : ℕ) × ((v : S) × (Unwound all u n v
                × (complete primary (pre ++ bad ∷ post) s ≡ (err (error_for n), v)))))
  unfolding complete
  complete-append primary bad pre post all s s' u a e first ran failed = (
    Begun-order pre ((primary, a) ∷ []) all _ s' ran,
    (
      (rollback_transaction all u).0,
      (
        (rollback_transaction all u).1,
        (
          rollback-Unwound all u,
          rw (first, complete)
              (ap (finish a) (begin-append pre post bad ((primary, a) ∷ []) all _ s' u e ran failed)
                ∙ rolled_back-error_for (rollback_transaction all u)),
        ),
      ),
    ),
  )
