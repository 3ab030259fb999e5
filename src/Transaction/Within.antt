-- ===== src/Transaction/Within.antt =====
-- A transaction keeps within a relation that all its steps and their rollbacks keep within.
use innovation_sandbox_on_aw.Common.{ℕ, zero, suc, List, [], ◌∷◌, All}
use innovation_sandbox_on_aw.Outcome.{Result, ok, err}
use innovation_sandbox_on_aw.Transaction.{
  Step, begin_transaction, rollback_transaction, rolled_back, finish, complete, nested,
}
use innovation_sandbox_on_aw.World.{World}
use innovation_sandbox_on_aw.World.Triple.{View, view}
use innovation_sandbox_on_aw.World.Within.{Within, Kept, IsPreorder}

module _ {R : View → View → Type 0} (order : IsPreorder R) where
  open order use {same, next}

  rolled_back-Within :
      (S : Type 0) (g : View) (r : ℕ × World) → R g (view r.1) → Kept R {A = S} g (rolled_back r)
  rolled_back-Within S g (zero, w) h = h
  rolled_back-Within S g (suc n, w) h = h

  module _ {S : Type 0} where
    pub record WithinStep (t : Step World S) : Type 0 where
      pub begins : Within R t.begin
      pub undoes : (a : S) → Within R (t.rollback a)

    pub WithinStep-nested : (t : Step World S) → WithinStep t → WithinStep (nested t)
    WithinStep-nested t h = record {
      begins = h.begins;
      undoes = λ a. record { at = (h.undoes a).at };
    }

    AllSteps : List (Step World S × S) → Type 0
    AllSteps [] = Unit
    AllSteps ((t, _) ∷ ts) = WithinStep t × AllSteps ts

    rollback-Within :
        (done : List (Step World S × S)) (w : World)
        → AllSteps done
        → R (view w) (view (rollback_transaction done w).1)
    unfolding rollback_transaction AllSteps
    rollback-Within [] w h = same (view w)
    rollback-Within ((t, a) ∷ done) w (h, hs) =
        next _ _ _ ((h.undoes a).at w) (rollback-Within done (t.rollback a w).1 hs)

    finish-Within :
        (a : S) (ts : List (Step World S)) (done : List (Step World S × S)) (w : World)
        → All WithinStep ts
        → AllSteps done
        → R (view w) (view (finish a (begin_transaction ts done w)).1)
    unfolding begin_transaction AllSteps
    finish-Within a [] done w h hs = same (view w)
    finish-Within a (t ∷ ts) done w (h, later) hs =
        split (t.begin w) (h.begins.at w)
          (λ b x. finish-Within a ts ((t, b) ∷ done) x later (h, hs))
      where
        split :
            (r : Result S × World)
            → R (view w) (view r.1)
            → ((b : S) (x : World)
                → R (view x) (view (finish a (begin_transaction ts ((t, b) ∷ done) x)).1))
            → R (view w) (
                view
                  (finish a (elim r.0 [
                    | ok b ↦ begin_transaction ts ((t, b) ∷ done) r.1
                    | err e ↦ (err e, done, r.1)
                  ])).1)
        split (ok b, x) p rest = next _ _ _ p (rest b x)
        split (err e, x) p rest =
            next _ _ _ p
              (rolled_back-Within S _ (rollback_transaction done x) (rollback-Within done x hs))

    pub Within-complete :
        (primary : Step World S) (additional : List (Step World S))
        → WithinStep primary
        → All WithinStep additional
        → Within R (complete primary additional)
    unfolding complete rollback_transaction AllSteps
    Within-complete primary additional h hs = record {
      at = λ w. split w (primary.begin w) (h.begins.at w);
    }
      where
        split :
            (w : World) (r : Result S × World)
            → R (view w) (view r.1)
            → Kept R {A = S} (view w) (elim r.0 [
              | ok a ↦ finish a (begin_transaction additional ((primary, a) ∷ []) r.1)
              | err e ↦ rolled_back (rollback_transaction {R = S} [] r.1)
            ])
        split w (ok a, x) p =
            next _ _ _ p (finish-Within a additional ((primary, a) ∷ []) x hs (h, tt))
        split w (err e, x) p = p
