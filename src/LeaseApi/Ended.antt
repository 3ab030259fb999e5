-- ===== src/LeaseApi/Ended.antt =====
-- A lease that has ended is not changed over the API.
use innovation_sandbox_on_aw.Common.{
  ◌≡◌, refl, sym, ap, ◌∙◌, subst, String, Bool, true, false, Option, some, List,
}
use innovation_sandbox_on_aw.Types.{
  Lease, LeaseStatus, ExpiredStatus, ended, DesiredAssignment, is_active_lease, is_frozen_lease,
  is_monitored_status,
}
use innovation_sandbox_on_aw.Outcome.{
  Error, Action, Result, ok, err, pure, guard, http_error, remote_failure, ◌>>=◌, ◌>>◌,
}
use innovation_sandbox_on_aw.Auth.{IsbUser}
use innovation_sandbox_on_aw.LeaseStore.Laws.{lease_in, get_lease-Triple}
use innovation_sandbox_on_aw.World.{World, remote}
use innovation_sandbox_on_aw.World.Triple.{
  View, view, Ended, Triple, Triple-bind, Triple-map, Triple-any, Triple-pure, Triple-view,
  Triple-or_throw,
}
use innovation_sandbox_on_aw.World.Triple.Bind.{bind_reads, bind_or_throw, bind_guard}
use innovation_sandbox_on_aw.World.Frame.{remote-Triple}
use innovation_sandbox_on_aw.World.Within.{Within, IsPreorder, Triple-Within, Within-Triple}
use innovation_sandbox_on_aw.LeaseApi.{
  parse_lease_composite_key, fetch_lease, fetch_lease_or_throw404,
}
use innovation_sandbox_on_aw.LeaseApi.Reads.{
  get-Within, assignments-Within, authorize-Within, manage-Within, groups-Within,
}
use innovation_sandbox_on_aw.LeaseApi.Operations.{
  LeasePatch, get_lease_operation, fetch_managed_lease, get_lease_assignments_operation,
  update_lease_operation, is_pending, review_lease_operation, freeze_lease_operation,
  terminate_lease_operation, unfreeze_lease_operation, update_lease_assignments_operation,
}

-- The requests to the API that name a lease.
pub data Operation : Type 0 where
  get : IsbUser → String → Operation
  get_assignments : IsbUser → String → Operation
  update : String → LeasePatch → Operation
  review : IsbUser → String → (approve : Bool) → Operation
  freeze : IsbUser → String → Operation
  terminate : IsbUser → String → Operation
  unfreeze : String → Operation
  update_assignments : IsbUser → String → List DesiredAssignment → Operation

abbrev pub lease_id : Operation → String
lease_id (get u id) = id
lease_id (get_assignments u id) = id
lease_id (update id p) = id
lease_id (review u id approve) = id
lease_id (freeze u id) = id
lease_id (terminate u id) = id
lease_id (unfreeze id) = id
lease_id (update_assignments u id ds) = id

abbrev pub run : Operation → Action World (Unit {0})
run (get u id) = get_lease_operation u id >> pure tt
run (get_assignments u id) = get_lease_assignments_operation u id >> pure tt
run (update id p) = update_lease_operation id p >> pure tt
run (review u id approve) = review_lease_operation u id approve
run (freeze u id) = freeze_lease_operation u id
run (terminate u id) = terminate_lease_operation u id
run (unfreeze id) = unfreeze_lease_operation id >> pure tt
run (update_assignments u id ds) = update_lease_assignments_operation u id ds >> pure tt

-- Reads change nothing, whether they return or throw.
abbrev Same : View → View → Type 0
Same g v = v ≡ g

order : IsPreorder Same
order = record { same = λ g. refl; next = λ g h k p q. q ∙ p }

remote-Same : Within Same remote
remote-Same = Within-Triple order remote remote-Triple (λ g _ v p. p) (λ g e v h. h.1)

abbrev Quiet : {A : Type 0} → View → Action World A → Type 0
Quiet g m = Triple g (λ _ v. v ≡ g) (λ _ v. v ≡ g) m

Same-Quiet : {A : Type 0} (g : View) (m : Action World A) → Within Same m → Quiet g m
Same-Quiet g m h = Triple-map m (Triple-Within m h (Triple-any m)) (λ _ v k. k.1) (λ _ v k. k.1)

Quiet-bind :
    {A B : Type 0} (g : View) (m : Action World A) (k : A → Action World B)
    → Quiet g m
    → ((a : A) → Quiet g (k a))
    → Quiet g (m >>= k)
Quiet-bind g m k h next = Triple-bind m k h (λ e v p. p) (λ a v p. Triple-view p (next a))

Quiet-end : {A : Type 0} (g : View) (m : Action World A) → Quiet g m → Quiet g (m >> pure tt)
Quiet-end g m h = Quiet-bind g m _ h (λ a. Triple-pure tt refl)

-- What follows a test that fails is not reached.
Quiet-refused :
    {B : Type 0} (g : View) (b : Bool) (e : Error) (k : Unit {0} → Action World B)
    → b ≡ false
    → Quiet g (guard b e >>= k)
Quiet-refused g b e k refused = bind_guard b e k (λ passed. absurd cc) (λ _. refl)

module _ (g : View) (id email uuid : String)
    (key : g.env.lease_key_of id ≡ some (email, uuid)) where
  pub fetch_lease-Triple :
      Triple g
        (λ r v. (v ≡ g) × (r ≡ lease_in g email uuid))
        (λ e v. (v ≡ g) × (e ≡ remote_failure))
        (fetch_lease id)
  unfolding fetch_lease parse_lease_composite_key
  fetch_lease-Triple =
      Triple-bind {Q = λ k v. (v ≡ g) × (k ≡ (email, uuid))} {E = λ e v. ⊥} _ _
        (bind_reads (λ v. v.env.lease_key_of id) _
          (Triple-or_throw _ _ (λ k p. (refl, cc)) (λ p. cc)))
        (λ e v h. absurd h)
        (λ k v (same, is). Triple-view same (
          Triple-map _ (get_lease-Triple k.0 k.1 g)
            (λ r v h. (h.0, h.1 ∙ ap (λ x. lease_in g x.0 x.1) is)) (λ e v h. (h.1, h.0))))

  module _ (l : Lease) (found : lease_in g email uuid ≡ some l) where
    after_fetch :
        {B : Type 0} (k : Option Lease → Action World B)
        → Quiet g (k (some l))
        → Quiet g (fetch_lease id >>= k)
    after_fetch k h =
        Triple-bind _ _ fetch_lease-Triple (λ e v p. p.0)
          (λ r v (same, is). Triple-view same (subst (λ x. Quiet g (k x)) (sym (is ∙ found)) h))

    after_fetch404 :
        {B : Type 0} (k : Lease → Action World B)
        → Quiet g (k l)
        → Quiet g (fetch_lease_or_throw404 id >>= k)
    unfolding fetch_lease_or_throw404
    after_fetch404 k h =
        Triple-bind {Q = λ r v. (v ≡ g) × (r ≡ l)} {E = λ e v. v ≡ g} _ _
          (Triple-bind _ _ fetch_lease-Triple (λ e v p. p.0)
            (λ r v (same, is).
              Triple-view same (Triple-or_throw r _ (λ x p. (refl, cc)) (λ p. refl))))
          (λ e v p. p) (λ x v (same, is). Triple-view same (subst (λ y. Quiet g (k y)) (sym is) h))

    after_managed :
        {B : Type 0} (u : IsbUser) (k : Lease → Action World B)
        → Quiet g (k l)
        → Quiet g (fetch_managed_lease u id >>= k)
    unfolding fetch_managed_lease
    after_managed u k h =
        Triple-bind {Q = λ r v. (v ≡ g) × (r ≡ l)} {E = λ e v. v ≡ g} _ _
          (Triple-bind _ _ fetch_lease-Triple (λ e v p. p.0)
            (λ r v (same, is). Triple-view same (
              bind_guard _ _ _ (λ passed. Triple-or_throw r _ (λ x p. (refl, cc)) (λ p. refl))
                (λ refused. refl))))
          (λ e v p. p) (λ x v (same, is). Triple-view same (subst (λ y. Quiet g (k y)) (sym is) h))

module _ (g : View) (email uuid : String) (l : Lease) (s : ExpiredStatus)
    (found : lease_in g email uuid ≡ some l) (over : l.status ≡ ended s) where
  not_monitored : is_monitored_status l.status ≡ false
  not_monitored = ap is_monitored_status over

  not_pending : is_pending l.status ≡ false
  not_pending = ap is_pending over

  not_frozen : is_frozen_lease l ≡ false
  not_frozen = ap (λ (x : LeaseStatus). elim x [ LeaseStatus.frozen ↦ true | _ ↦ false ]) over

  not_active : is_active_lease l ≡ false
  not_active = ap (λ (x : LeaseStatus). elim x [ LeaseStatus.active ↦ true | _ ↦ false ]) over

  ended-Quiet :
      (op : Operation) → g.env.lease_key_of (lease_id op) ≡ some (email, uuid) → Quiet g (run op)
  unfolding update_lease_operation review_lease_operation freeze_lease_operation
      terminate_lease_operation unfreeze_lease_operation update_lease_assignments_operation
  ended-Quiet (get u id) key = Quiet-end g _ (Same-Quiet g _ (get-Within order remote-Same u id))
  ended-Quiet (get_assignments u id) key =
      Quiet-end g _ (Same-Quiet g _ (assignments-Within order remote-Same u id))
  ended-Quiet (update id p) key =
      Quiet-end g _
        (after_fetch404 g id email uuid key l found _ (Quiet-refused g _ _ _ not_monitored))
  ended-Quiet (review u id approve) key =
      after_fetch404 g id email uuid key l found _ (Quiet-refused g _ _ _ not_pending)
  ended-Quiet (freeze u id) key =
      after_fetch404 g id email uuid key l found _ (Quiet-refused g _ _ _ not_monitored)
  ended-Quiet (terminate u id) key = after_fetch g id email uuid key l found _ (
      Quiet-bind g _ _ (Same-Quiet g _ (authorize-Within order remote-Same u (some l))) (λ only.
        bind_or_throw (some l) (http_error 404) _
          (λ x is. Quiet-refused g _ _ _ (
            ap is_monitored_status (ap (λ (y : Lease). y.status) (same_lease x is))
            ∙ not_monitored))
          (λ p. refl)))
    where
      same_lease : (x : Lease) → some l ≡ some x → x ≡ l
      same_lease x p = cc
  ended-Quiet (unfreeze id) key =
      Quiet-end g _
        (after_fetch404 g id email uuid key l found _ (Quiet-refused g _ _ _ not_frozen))
  ended-Quiet (update_assignments u id ds) key = Quiet-end g _ (
      after_managed g id email uuid key l found u _ (
        Quiet-bind g _ _ (Same-Quiet g _ (manage-Within order remote-Same u l)) (λ _.
          Quiet-bind g _ _ (Same-Quiet g _ (groups-Within order remote-Same ds _))
            (λ _. Quiet-refused g _ _ _ not_active))))

Quiet-view :
    (g : View) (r : Result (Unit {0}) × World)
    → Ended (λ _ v. v ≡ g) (λ _ v. v ≡ g) r
    → view r.1 ≡ g
Quiet-view g (ok a, w) h = h
Quiet-view g (err e, w) h = h

-- No request to the API that names a lease which has ended, whoever makes it, changes any table or
-- calls a service that would change anything; this is so whether the request succeeds or fails.
pub ended_lease_stays :
    (op : Operation) (email uuid : String) (l : Lease) (s : ExpiredStatus) (w : World)
    → w.lease_key_of (lease_id op) ≡ some (email, uuid)
    → lease_in (view w) email uuid ≡ some l
    → l.status ≡ ended s
    → view (run op w).1 ≡ view w
ended_lease_stays op email uuid l s w key found over =
    Quiet-view (view w) (run op w)
      ((ended-Quiet (view w) email uuid l s found over op key).at w refl)
