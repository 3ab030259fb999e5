-- ===== src/Outcome.antt =====
-- Calls that may throw, with the state that they act on: the error classes of
-- source/common/innovation-sandbox.ts, source/common/data/errors.ts and
-- source/common/utils/transactions.ts, and the sequencing of `await`ed calls.
use innovation_sandbox_on_aw.Common.{
  ℕ, Bool, true, false, Option, none, some, ◌≡◌, refl, ◌⊎◌, inl, inr,
}

-- `remote_failure` is an error that a service answered with. From `principal_unresolved` to
-- `account_missing` they are plain `Error`s that the code throws, and `http_error` is a response
-- of the API with its status.
pub data Error : Type 0 where
  max_number_of_leases_exceeded no_accounts_available account_not_in_quarantine : Error
  account_in_clean_up account_not_in_active account_not_in_frozen could_not_find_account : Error
  could_not_retrieve_user m2m_assignee_not_allowed not_an_idc_user : Error
  transaction_failed_and_rolled_back rollback_failed : Error
  concurrent_data_modification unknown_item item_already_exists resource_lock_conflict : Error
  max_assignments_exceeded principal_unresolved blueprint_invalid lease_duration_missing : Error
  invalid_item remote_failure : Error
  lease_missing lease_without_account lease_inactive account_missing account_not_cleaning : Error
  one_record_expected unsupported_event retry_time_undetermined : Error
  lease_request_rate_limit_exceeded : (retry_at : ℕ) → Error
  http_error : (status : ℕ) → Error

pub data Result {ℓ} (A : Type ℓ) : Type ℓ where
  ok : A → Result A
  err : Error → Result A

-- What was written before an error stays written, so the state comes back either way.
abbrev pub Action : Type 0 → Type 0 → Type 0
Action S A = S → Result A × S

module _ {S A : Type 0} where
  abbrev pub pure : A → Action S A
  pure a s = (ok a, s)

  abbrev pub throw : Error → Action S A
  throw e s = (err e, s)

  abbrev pub or_throw : Option A → Error → Action S A
  or_throw none e s = (err e, s)
  or_throw (some a) e s = (ok a, s)

  -- `.catch(log)` and `try … catch { log }`: the error is logged and swallowed.
  unfoldable pub swallow : Action S A → Action S (Unit {0})
  swallow m s = let (r, s') = m s in (ok tt, s')

abbrev pub gets : {S A : Type 0} → (S → A) → Action S A
gets f s = (ok (f s), s)

abbrev pub modify : {S : Type 0} → (S → S) → Action S (Unit {0})
modify f s = (ok tt, f s)

infixl 5 ◌>>=◌ ◌>>◌
unfoldable pub ◌>>=◌ : {S A B : Type 0} → Action S A → (A → Action S B) → Action S B
◌>>=◌ m f s = let (r, s') = m s in elim r [ ok a ↦ f a s' | err e ↦ (err e, s') ]

abbrev pub ◌>>◌ : {S A B : Type 0} → Action S A → Action S B → Action S B
m >> k = m >>= λ _. k

-- `if (!test) throw error`
abbrev pub guard : {S : Type 0} → Bool → Error → Action S (Unit {0})
guard true e s = (ok tt, s)
guard false e s = (err e, s)

-- `try { m } catch (error) { await cleanup; throw error }`, where `cleanup` does not throw.
unfoldable pub on_error : {S A : Type 0} → Action S A → Action S (Unit {0}) → Action S A
on_error m cleanup s =
    let (r, s') = m s in elim r [ ok a ↦ (ok a, s') | err e ↦ (err e, (cleanup s').1) ]

-- `try { m } finally { await cleanup }`, where `cleanup` does not throw.
unfoldable pub finally : {S A : Type 0} → Action S A → Action S (Unit {0}) → Action S A
finally m cleanup s = let (r, s') = m s in (r, (cleanup s').1)

-- `try { m } catch (error) { throw f(error) }`
unfoldable pub map_error : {S A : Type 0} → (Error → Error) → Action S A → Action S A
map_error f m s = let (r, s') = m s in (elim r [ ok a ↦ ok a | err e ↦ err (f e) ], s')

-- `try { m } catch (error) { await cleanup; throw error }`, where an error of `cleanup` takes the
-- place of the first one.
unfoldable pub rethrow_after : {S A : Type 0} → Action S A → Action S (Unit {0}) → Action S A
rethrow_after m cleanup s =
    let (r, s') = m s in
    elim r [
      | ok a ↦ (ok a, s')
      | err e ↦ (let (r', s'') = cleanup s' in (elim r' [ ok _ ↦ err e | err e' ↦ err e' ], s''))
    ]

abbrev pub lift : {S A : Type 0} → Result A → Action S A
lift r s = (r, s)

pub Result-cases :
    {A : Type 0} (r : Result A) → ((a : A) × (r ≡ ok a)) ⊎ ((e : Error) × (r ≡ err e))
Result-cases (ok a) = inl (a, refl)
Result-cases (err e) = inr (e, refl)

-- A block whose first call is known goes on with what the call returned, or throws as it did.
module _ {S A B : Type 0} (m : Action S A) (f : A → Action S B) (s t : S) where
  pub bind-ok : (a : A) → m s ≡ (ok a, t) → (m >>= f) s ≡ f a t
  unfolding ◌>>=◌
  bind-ok a p = go (m s) p
    where
      go :
          (r : Result A × S)
          → r ≡ (ok a, t)
          → ◌≡◌ {A = Result B × S} (elim r.0 [ ok a ↦ f a r.1 | err e ↦ (err e, r.1) ]) (f a t)
      go (ok b, x) q = cc
      go (err e, x) q = cc

  pub bind-err : (e : Error) → m s ≡ (err e, t) → (m >>= f) s ≡ (err e, t)
  unfolding ◌>>=◌
  bind-err e p = go (m s) p
    where
      go :
          (r : Result A × S)
          → r ≡ (err e, t)
          → ◌≡◌ {A = Result B × S} (elim r.0 [ ok a ↦ f a r.1 | err e ↦ (err e, r.1) ]) (err e, t)
      go (ok b, x) q = cc
      go (err x, y) q = cc

-- The same for a call with a cleanup.
module _ {S A : Type 0} (m : Action S A) (c : Action S (Unit {0})) (s t : S) where
  pub on_error-ok : (a : A) → m s ≡ (ok a, t) → on_error m c s ≡ (ok a, t)
  unfolding on_error
  on_error-ok a p = go (m s) p
    where
      go :
          (r : Result A × S)
          → r ≡ (ok a, t)
          → ◌≡◌ {A = Result A × S}
              (elim r.0 [ ok a ↦ (ok a, r.1) | err e ↦ (err e, (c r.1).1) ])
              (ok a, t)
      go (ok b, x) q = cc
      go (err e, x) q = cc

  pub on_error-err : (e : Error) → m s ≡ (err e, t) → on_error m c s ≡ (err e, (c t).1)
  unfolding on_error
  on_error-err e p = go (m s) p
    where
      go :
          (r : Result A × S)
          → r ≡ (err e, t)
          → ◌≡◌ {A = Result A × S}
              (elim r.0 [ ok a ↦ (ok a, r.1) | err e ↦ (err e, (c r.1).1) ])
              (err e, (c t).1)
      go (ok b, x) q = cc
      go (err x, y) q = cc
