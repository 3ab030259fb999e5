-- ===== src/LeaseApi/Hidden.antt =====
-- A caller who is neither administrator nor manager learns nothing of another user's lease from the
-- operations that only an owner may use.
use innovation_sandbox_on_aw.Common.{
  ◌≡◌, refl, sym, ap, ◌∙◌, subst, ◌⊎◌, inl, inr, String, false, ◌||◌, Option, none, some, str_eq,
  arith,
}
use innovation_sandbox_on_aw.Types.{Lease}
use innovation_sandbox_on_aw.Outcome.{Error, Action, http_error, remote_failure, ◌>>=◌}
use innovation_sandbox_on_aw.Auth.{IsbUser, get_user_email}
use innovation_sandbox_on_aw.LeaseStore.Laws.{lease_in, lease_in-key}
use innovation_sandbox_on_aw.World.{World}
use innovation_sandbox_on_aw.World.Triple.{View, view, Ended, Triple, Triple-bind, Triple-view}
use innovation_sandbox_on_aw.World.Triple.Bind.{bind_reads, bind_guard}
use innovation_sandbox_on_aw.LeaseApi.{is_admin_or_manager, is_own, authorize_termination}
use innovation_sandbox_on_aw.LeaseApi.Operations.{
  fetch_managed_lease, get_lease_assignments_operation, terminate_lease_operation,
  update_lease_assignments_operation,
}
use innovation_sandbox_on_aw.LeaseApi.Ended.{
  Operation, get_assignments, terminate, update_assignments, lease_id, run, fetch_lease-Triple,
}

-- The caller who makes a request that is for owners, and for those with an elevated role.
abbrev pub owner_only : Operation → Option IsbUser
owner_only (get_assignments u id) = some u
owner_only (terminate u id) = some u
owner_only (update_assignments u id ds) = some u
owner_only _ = none

-- The response says that it is forbidden, or a service failed; nothing has changed.
abbrev pub IsForbidden : View → Error → View → Type 0
IsForbidden g e v = (v ≡ g) × ((e ≡ http_error 403) ⊎ (e ≡ remote_failure))

module _ (u : IsbUser) (g : View) (email uuid : String) (plain : is_admin_or_manager u ≡ false)
    (other : str_eq email (get_user_email u) ≡ false) where
  not_own : (found : Option Lease) → found ≡ lease_in g email uuid → is_own u found ≡ false
  not_own none p = refl
  not_own (some l) p =
      ap (λ x. str_eq x (get_user_email u)) (lease_in-key g email uuid l (sym p)).0 ∙ other

  module _ (id : String) (key : g.env.lease_key_of id ≡ some (email, uuid)) where
    managed-IsForbidden :
        {B : Type 0} (k : Lease → Action World B)
        → Triple g (λ _ _. ⊥) (IsForbidden g) (fetch_managed_lease u id >>= k)
    unfolding fetch_managed_lease
    managed-IsForbidden k =
        Triple-bind {Q = λ _ _. ⊥} {E = IsForbidden g} _ _
          (Triple-bind _ _ (fetch_lease-Triple g id email uuid key) (λ e v h. (h.0, inr h.1))
            (λ found v (same, is). Triple-view same (
              bind_guard _ _ _
                (λ passed.
                  let refused : (is_admin_or_manager u || is_own u found) ≡ false =
                    ground (arith, not_own found is) in
                  absurd cc)
                (λ refused. (refl, inl refl)))))
          (λ e v h. h) (λ a v (h : ⊥). absurd h)

    authorize-IsForbidden :
        (found : Option Lease)
        → found ≡ lease_in g email uuid
        → Triple g (λ _ _. ⊥) (IsForbidden g) (authorize_termination u found)
    unfolding authorize_termination
    authorize-IsForbidden found is = rw plain (
        bind_reads (λ v. v.env.rules.allow_user_lease_termination) _
          (bind_guard _ _ _
            (λ allowed.
              bind_guard _ _ _ (λ own. let foreign = not_own found is in absurd cc)
                (λ foreign. (refl, inl refl)))
            (λ forbidden. (refl, inl refl))))

    terminate-IsForbidden : Triple g (λ _ _. ⊥) (IsForbidden g) (terminate_lease_operation u id)
    unfolding terminate_lease_operation
    terminate-IsForbidden =
        Triple-bind _ _ (fetch_lease-Triple g id email uuid key) (λ e v h. (h.0, inr h.1))
          (λ found v (same, is). Triple-view same (
            Triple-bind _ _ (authorize-IsForbidden found is) (λ e v h. h)
              (λ only v (h : ⊥). absurd h)))

never_ends :
    {A B : Type 0} {g : View} {E : Error → View → Type 0} (m : Action World A)
    (k : A → Action World B)
    → Triple g (λ _ _. ⊥) E m
    → Triple g (λ _ _. ⊥) E (m >>= k)
never_ends m k h = Triple-bind m k h (λ e v p. p) (λ a v (p : ⊥). absurd p)

owner_only-IsForbidden :
    (op : Operation) (u : IsbUser) (g : View) (email uuid : String)
    → owner_only op ≡ some u
    → is_admin_or_manager u ≡ false
    → str_eq email (get_user_email u) ≡ false
    → g.env.lease_key_of (lease_id op) ≡ some (email, uuid)
    → Triple g (λ _ _. ⊥) (IsForbidden g) (run op)
unfolding get_lease_assignments_operation update_lease_assignments_operation
owner_only-IsForbidden (get_assignments x id) u g email uuid is plain other key =
    let p : u ≡ x = cc in
    subst (λ y. Triple g (λ _ _. ⊥) (IsForbidden g) (run (get_assignments y id))) p
      (never_ends _ _ (managed-IsForbidden u g email uuid plain other id key _))
owner_only-IsForbidden (terminate x id) u g email uuid is plain other key =
    let p : u ≡ x = cc in
    subst (λ y. Triple g (λ _ _. ⊥) (IsForbidden g) (run (terminate y id))) p
      (terminate-IsForbidden u g email uuid plain other id key)
owner_only-IsForbidden (update_assignments x id ds) u g email uuid is plain other key =
    let p : u ≡ x = cc in
    subst (λ y. Triple g (λ _ _. ⊥) (IsForbidden g) (run (update_assignments y id ds))) p
      (never_ends _ _ (managed-IsForbidden u g email uuid plain other id key _))
owner_only-IsForbidden _ u g email uuid is plain other key = cc

-- Whether another user's lease is there or not, and whatever its record says: a caller who is
-- neither administrator nor manager and asks for its assignments, for its termination, or for other
-- assignments, gets 403, unless a service fails, and nothing changes.
pub owner_only_lem :
    (op : Operation) (u : IsbUser) (email uuid : String) (w : World)
    → owner_only op ≡ some u
    → is_admin_or_manager u ≡ false
    → str_eq email (get_user_email u) ≡ false
    → w.lease_key_of (lease_id op) ≡ some (email, uuid)
    → Ended (λ _ _. ⊥) (IsForbidden (view w)) (run op w)
owner_only_lem op u email uuid w is plain other key =
    (owner_only-IsForbidden op u (view w) email uuid is plain other key).at w refl
