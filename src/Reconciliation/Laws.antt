-- ===== src/Reconciliation/Laws.antt =====
-- What the worker leaves for one principal of one lease.
use innovation_sandbox_on_aw.Common.{
  ℕ, ◌≡◌, refl, sym, ap, subst, ◌∙◌, ◌⊎◌, inl, inr, Bool, true, false, not, ◌&&◌, is_some, find,
  Bool-cases, ◌∷◌, arith, if◌then◌else◌, eq_refl,
}
use innovation_sandbox_on_aw.Types.{Intent, PrincipalType, user, group}
use innovation_sandbox_on_aw.Outcome.{Result, ok, err, ◌>>=◌, ◌>>◌, modify}
use innovation_sandbox_on_aw.LeaseLock.{is_critical}
use innovation_sandbox_on_aw.Table.{put, erase, find-put, find-erase}
use innovation_sandbox_on_aw.LeaseStore.{is_at}
use innovation_sandbox_on_aw.LeaseStore.Laws.{lease_in, get_lease-Triple}
use innovation_sandbox_on_aw.Reconciliation.{
  AssignmentAction, grant, revoke, no_op, Message, is_record, same_type, assignment_record_exists,
  is_desired, should_principal_have_access, determine_action, resolve_assignment_action,
  grant_record, execute_grant, persist_grant_record, execute_revoke, process_assignment,
  settle_assignment,
}
use innovation_sandbox_on_aw.World.{World, remote, send, create_assignment, delete_assignment}
use innovation_sandbox_on_aw.World.Triple.{
  View, view, Ended, Triple, Triple-bind, Triple-map, Triple-view, Triple-pure, Triple-gets,
  Triple-modify, Triple-returned,
}
use innovation_sandbox_on_aw.World.Triple.Bind.{
  bind_gets, bind_reads, bind_guard, bind_remote, bind_send,
}
use innovation_sandbox_on_aw.World.Frame.{Failed, after_call, send-Triple}

-- The principal table has the record; the lease's record, and the intent, want it to.
abbrev pub has_access : Message → View → Bool
has_access m g = is_some (find (is_record m) g.assignments)

abbrev pub wants_access : Message → View → Bool
wants_access m g =
    not (is_critical m.intent) && is_desired m (lease_in g m.lease_owner_email m.lease_id)

exists-Triple :
    (m : Message) (g : View)
    → Triple g (λ r v. (v ≡ g) × (r ≡ has_access m g)) (Failed g) (assignment_record_exists m)
unfolding assignment_record_exists
exists-Triple m g = bind_remote _ (refl, refl) (Triple-gets _ (λ w p. (refl, ap (has_access m) p)))

wanted-Triple :
    (m : Message) (g : View)
    → Triple g (λ r v. (v ≡ g) × (r ≡ wants_access m g)) (Failed g) (should_principal_have_access m)
unfolding should_principal_have_access
wanted-Triple m g = elim (Bool-cases (is_critical m.intent)) [
  | inl e ↦ simp e (Triple-pure false (refl, refl))
  | inr e ↦ simp e (
      Triple-bind _ _ (get_lease-Triple m.lease_owner_email m.lease_id g) (λ x v h. h)
        (λ found v (same, is). Triple-view same (Triple-pure _ (refl, ap (is_desired m) is))))
]

resolve-Triple :
    (m : Message) (g : View)
    → Triple g
        (λ r v. (v ≡ g) × (r ≡ determine_action m.intent (wants_access m g) (has_access m g)))
        (Failed g)
        (resolve_assignment_action m)
unfolding resolve_assignment_action
resolve-Triple m g =
    Triple-bind _ _ (exists-Triple m g) (λ e v h. h)
      (λ exists v (same, p). Triple-view same (
        Triple-bind _ _ (wanted-Triple m g) (λ e v' h. h)
          (λ wanted v' (same', q). Triple-view same' (
            Triple-pure _ (
              refl,
              ap (λ b. determine_action m.intent b exists) q
                  ∙ ap (determine_action m.intent (wants_access m g)) p,
            )))))

-- The calls that have changed Identity Center, by whether access is wanted and whether there was a
-- record: the one that grants, the one that revokes, unless Identity Center has said that it has
-- no such assignment, or none.
abbrev pub Asked : Message → (wanted had : Bool) → View → View → Type 0
Asked m true true g v = v.sent ≡ g.sent
Asked m true false g v =
    v.sent ≡ create_assignment m.account_id m.principal_id m.principal_type ∷ g.sent
Asked m false true g v =
    (v.sent ≡ delete_assignment m.account_id m.principal_id m.principal_type ∷ g.sent)
    ⊎ ((n : ℕ) × (g.env.assignment_missing n ≡ true) × (v.sent ≡ g.sent))
Asked m false false g v = v.sent ≡ g.sent

-- At most one call: one that grants where access is wanted, or one that revokes where it is not.
abbrev pub CallsFor : Message → View → View → Type 0
CallsFor m g v =
    (v.sent ≡ g.sent)
    ⊎ (((wants_access m g ≡ true)
          × (v.sent ≡ create_assignment m.account_id m.principal_id m.principal_type ∷ g.sent))
        ⊎ ((wants_access m g ≡ false)
            × (v.sent ≡ delete_assignment m.account_id m.principal_id m.principal_type ∷ g.sent)))

abbrev pub SameTables : View → View → Type 0
SameTables g v = (v.leases ≡ g.leases) × (v.accounts ≡ g.accounts)

abbrev pub Settled : Message → View → View → Type 0
Settled m g v =
    SameTables g v
    × (has_access m v ≡ wants_access m g)
    × Asked m (wants_access m g) (has_access m g) g v

abbrev pub NotSettled : Message → View → View → Type 0
NotSettled m g v = SameTables g v × (v.assignments ≡ g.assignments) × CallsFor m g v

same_type_refl : (t : PrincipalType) → same_type t t ≡ true
same_type_refl user = refl
same_type_refl group = refl

is_record-grant_record : (m : Message) → is_record m (grant_record m) ≡ true
unfolding grant_record
is_record-grant_record m =
    rw (same_type_refl m.principal_type, eq_refl m.principal_id, eq_refl m.lease_id) refl

-- The record is there afterwards, and nothing else has changed.
persist-Triple :
    (m : Message) (u : View)
    → Triple u
        (λ _ v. SameTables u v × (has_access m v ≡ true) × (v.sent ≡ u.sent))
        (λ _ v. v ≡ u)
        (persist_grant_record m)
unfolding persist_grant_record
persist-Triple m u = bind_gets _ _ (λ w p.
    bind_guard _ _ _
      (λ valid. bind_remote _ refl (
        bind_reads (has_access m) _ (elim (Bool-cases (has_access m u)) [
          | inl e ↦ simp e (Triple-pure _ ((refl, refl), e, refl))
          | inr e ↦ simp e (Triple-modify _ (λ x q. added x q))
        ])))
      (λ invalid. refl))
  where
    grown : View → View
    grown x = record x { assignments = put (is_record m) (grant_record m) x.assignments }

    added :
        (x : World)
        → view x ≡ u
        → SameTables u (grown (view x))
          × (has_access m (grown (view x)) ≡ true)
          × ((view x).sent ≡ u.sent)
    added x q = (
      (ap (λ (y : View). y.leases) q, ap (λ (y : View). y.accounts) q),
      ap is_some
          (find-put (is_record m) (grant_record m) (view x).assignments (is_record-grant_record m)),
      ap (λ (y : View). y.sent) q,
    )

-- The record is gone afterwards, and the assignment too.
revoke-Triple :
    (m : Message) (g : View)
    → wants_access m g ≡ false
    → has_access m g ≡ true
    → Triple g (λ _ v. Settled m g v) (λ _ v. NotSettled m g v) (execute_revoke m)
unfolding execute_revoke
revoke-Triple m g unwanted had =
    bind_remote _ ((refl, refl), refl, inl refl)
      (bind_gets _ _ (λ w p.
        choose w.ticks (w.assignment_missing w.ticks)
          (sym (ap (λ (y : View). y.env.assignment_missing w.ticks) p))))
  where
    asked : (v : View) → Asked m false true g v → Asked m (wants_access m g) (has_access m g) g v
    asked v h = rw (unwanted, had) h

    gone :
        (u : View)
        → SameTables g u × (u.assignments ≡ g.assignments) × Asked m false true g u
        → CallsFor m g u
        → Triple u
            (λ _ v. Settled m g v)
            (λ _ v. NotSettled m g v)
            (do remote; modify (λ w. record w { assignments = erase (is_record m) w.assignments }))
    gone u (tables, same, sent) calls =
        bind_remote _ (tables, same, calls)
          (Triple-modify _ (λ w p. (
            (ap (λ (y : View). y.leases) p ∙ tables.0, ap (λ (y : View). y.accounts) p ∙ tables.1),
            ap is_some (find-erase (is_record m) w.assignments) ∙ sym unwanted,
            asked _ (subst (λ (y : View). Asked m false true g y) (sym p) sent),
          )))

    choose :
        (n : ℕ) (missing : Bool)
        → g.env.assignment_missing n ≡ missing
        → Triple g
            (λ _ v. Settled m g v)
            (λ _ v. NotSettled m g v)
            ((if missing
                then remote
                else send (delete_assignment m.account_id m.principal_id m.principal_type))
              >>= λ _. (do
                remote
                modify (λ w. record w { assignments = erase (is_record m) w.assignments })))
    choose n true is =
        bind_remote _ ((refl, refl), refl, inl refl)
          (gone g ((refl, refl), refl, inr (n, is, refl)) (inl refl))
    choose n false is =
        bind_send _ _ ((refl, refl), refl, inl refl)
          (gone _ ((refl, refl), refl, inl refl) (inr (inr (unwanted, refl))))

grant-Triple :
    (m : Message) (g : View)
    → wants_access m g ≡ true
    → has_access m g ≡ false
    → Triple g
        (λ _ v. Settled m g v)
        (λ _ v. NotSettled m g v)
        (execute_grant m >> persist_grant_record m)
unfolding execute_grant
grant-Triple m g wanted free =
    Triple-bind {Q = λ _ v. v ≡ after} {E = λ _ v. v ≡ g} _ _
      (bind_remote _ refl (Triple-map _ (send-Triple _ g) (λ _ v h. h) (λ e v h. h.1)))
      (λ e v same. subst (NotSettled m g) (sym same) ((refl, refl), refl, inl refl))
      (λ _ v same. Triple-view same (
        Triple-map _ (persist-Triple m after)
          (λ _ x (tables, there, sent). (tables, there ∙ sym wanted, asked x sent))
          (λ e x is.
            subst (NotSettled m g) (sym is) ((refl, refl), refl, inr (inl (wanted, refl))))))
  where
    after : View
    after = after_call (create_assignment m.account_id m.principal_id m.principal_type) g

    asked : (v : View) → Asked m true false g v → Asked m (wants_access m g) (has_access m g) g v
    asked v h = rw (wanted, free) h

-- The action that is resolved, by what is wanted and what is there.
determine_action-cases :
    (i : Intent) (desired exists : Bool)
    → let wanted = not (is_critical i) && desired in
      let a = determine_action i wanted exists in
      ((a ≡ grant) × ((wanted ≡ true) × (exists ≡ false)))
      ⊎ (((a ≡ revoke) × ((wanted ≡ false) × (exists ≡ true))) ⊎ ((a ≡ no_op) × (exists ≡ wanted)))
unfolding determine_action
determine_action-cases i desired exists = ground arith

Asked-same : (m : Message) (b c : Bool) (g : View) → c ≡ b → Asked m b c g g
Asked-same m true true g same = refl
Asked-same m true false g same = absurd cc
Asked-same m false true g same = absurd cc
Asked-same m false false g same = refl

pub settle-Triple :
    (m : Message) (g : View)
    → Triple g (λ _ v. Settled m g v) (λ _ v. NotSettled m g v) (settle_assignment m)
unfolding settle_assignment process_assignment
settle-Triple m g =
    Triple-bind _ _ (resolve-Triple m g)
      (λ e v h. subst (NotSettled m g) (sym h.1) ((refl, refl), refl, inl refl))
      (λ a v (same, is). Triple-view same (by_action a is))
  where
    Goal : AssignmentAction → Type 0
    Goal a = Triple g (λ _ v. Settled m g v) (λ _ v. NotSettled m g v) (process_assignment m a)

    by_action :
        (a : AssignmentAction)
        → a ≡ determine_action m.intent (wants_access m g) (has_access m g)
        → Goal a
    by_action a is =
        elim (determine_action-cases m.intent
          (is_desired m (lease_in g m.lease_owner_email m.lease_id)) (has_access m g)) [
            | inl (p, (wanted, free)) ↦ subst Goal (sym (is ∙ p)) (grant-Triple m g wanted free)
            | inr (inl (p, (unwanted, had))) ↦
                subst Goal (sym (is ∙ p)) (revoke-Triple m g unwanted had)
            | inr (inr (p, agrees)) ↦ subst Goal (sym (is ∙ p)) (
                Triple-pure tt
                  ((refl, refl), agrees, Asked-same m (wants_access m g) (has_access m g) g agrees))
          ]

-- If the worker's body returns, the principal table has a record of the principal's access to the
-- lease exactly if the lease's record wants it: if the intent is neither TERMINATE nor FREEZE, the
-- lease exists and is neither frozen nor ended, and the principal is among its assignments. Identity
-- Center was then asked once to grant if access is wanted and there was no record; once to revoke if
-- it is not wanted and there was one, or it has answered that there is no such assignment; and not at
-- all otherwise. If the body throws, the records are as they were, and Identity Center was asked at
-- most once, to grant where access is wanted or to revoke where it is not. Either way the lease and
-- account tables have not changed.
pub settle_assignment_lem :
    (m : Message) (w : World)
    → Ended (λ _ v. Settled m (view w) v) (λ _ v. NotSettled m (view w) v) (settle_assignment m w)
settle_assignment_lem m w = (settle-Triple m (view w)).at w refl

determine_action_agrees :
    (i : Intent) (desired exists : Bool)
    → exists ≡ (not (is_critical i) && desired)
    → determine_action i (not (is_critical i) && desired) exists ≡ no_op
unfolding determine_action
determine_action_agrees i desired exists e = ground arith

quiet-Triple :
    (m : Message) (g : View)
    → has_access m g ≡ wants_access m g
    → Triple g (λ _ v. v ≡ g) (λ _ v. v ≡ g) (settle_assignment m)
unfolding settle_assignment process_assignment
quiet-Triple m g agrees =
    Triple-bind _ _ (resolve-Triple m g) (λ e v h. h.1)
      (λ a v (same, is).
        Triple-view same (subst Goal (sym (is ∙ nothing_to_do)) (Triple-pure tt refl)))
  where
    Goal : AssignmentAction → Type 0
    Goal a = Triple g (λ _ v. v ≡ g) (λ _ v. v ≡ g) (process_assignment m a)

    nothing_to_do : determine_action m.intent (wants_access m g) (has_access m g) ≡ no_op
    nothing_to_do =
        determine_action_agrees m.intent (is_desired m (lease_in g m.lease_owner_email m.lease_id))
          (has_access m g) agrees

Ended-same :
    {A : Type 0} (g : View) (r : Result A × World)
    → Ended (λ _ v. v ≡ g) (λ _ v. v ≡ g) r
    → view r.1 ≡ g
Ended-same g (ok a, w) h = h
Ended-same g (err e, w) h = h

-- If the worker's body has returned, then running it for the same message again, from any world
-- that shows the same tables and services, changes nothing, whether it returns or throws.
pub settle_assignment_again :
    (m : Message) (w u : World)
    → (settle_assignment m w).0 ≡ ok tt
    → view u ≡ view (settle_assignment m w).1
    → view (settle_assignment m u).1 ≡ view (settle_assignment m w).1
settle_assignment_again m w u returned same =
    let v = view (settle_assignment m w).1 in
    let (tables, agrees, sent) =
      Triple-returned (settle_assignment m) w tt (settle-Triple m (view w)) returned in
    Ended-same v (settle_assignment m u) (
      (quiet-Triple m v (
          agrees
          ∙ ap
              (λ ls.
                not (is_critical m.intent)
                && is_desired m (find (is_at m.lease_owner_email m.lease_id) ls))
              (sym tables.0))).at
        u same)
