-- ===== src/Transaction/Tests.antt =====
-- Transactions over a counter: a step adds its amount and takes it off again, or refuses.
use innovation_sandbox_on_aw.Common.{ℕ, ◌+◌, ◌-◌, ◌≡◌, refl, ◌↔◌, [], ◌∷◌, some}
use innovation_sandbox_on_aw.Outcome.{ok, err, remote_failure}
use innovation_sandbox_on_aw.Transaction.{Step, complete}
use innovation_sandbox_on_aw.Transaction.Rules.{error_for}
use innovation_sandbox_on_aw.Transaction.Atomic.{Unwound, complete_iff, complete-append, all_begin}

abbrev adds : ℕ → Step ℕ ℕ
adds k = record { begin = λ s. (ok k, s + k); rollback = λ a s. (ok tt, s - a) }

abbrev refuses : Step ℕ ℕ
refuses = record { begin = λ s. (err remote_failure, s); rollback = λ a s. (ok tt, s) }

complete_iff_example :
    (complete (adds 3) (adds 4 ∷ []) 5 ≡ (ok 3, 12))
    ↔ (((adds 3).begin 5).0 ≡ ok 3) × (all_begin (adds 4 ∷ []) 8 ≡ some 12)
complete_iff_example = complete_iff (adds 3) (adds 4 ∷ []) 5 12 3

complete-append_example :
    (adds 4 ∷ adds 3 ∷ [] ≡ adds 4 ∷ adds 3 ∷ [])
    × ((n : ℕ) × ((v : ℕ) × (Unwound ((adds 4, 4) ∷ (adds 3, 3) ∷ []) 12 n v
            × (complete (adds 3) (adds 4 ∷ refuses ∷ adds 9 ∷ []) 5 ≡ (err (error_for n), v)))))
complete-append_example =
    complete-append (adds 3) refuses (adds 4 ∷ []) (adds 9 ∷ []) ((adds 4, 4) ∷ (adds 3, 3) ∷ []) 5
      12 12 3 remote_failure refl (4, (12, (refl, (refl, refl)))) refl
