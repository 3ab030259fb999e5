-- ===== src/LeaseApi/Views/Agrees.antt =====
-- What the API shows of the assignments while they are processed, beside what the worker does.
use innovation_sandbox_on_aw.Common.{
  ℕ, ◌≡◌, refl, sym, ap, ◌∙◌, subst, inl, inr, String, Bool, true, false, not, ◌&&◌, ◌||◌, some,
  Option-cases, is_some, List, [], ◌∷◌, map, any, Among, Among-keep, Among-append, or_default,
  str_eq, eq_refl, arith, if◌then◌else◌,
}
use innovation_sandbox_on_aw.Types.{
  Lease, Intent, terminate, freeze, unfreeze, update, publish, DesiredAssignment, LeaseStatus,
  pending_approval, approval_denied, frozen, provisioning, ended, is_frozen_lease, is_expired_lease,
}
use innovation_sandbox_on_aw.LeaseLock.{is_critical}
use innovation_sandbox_on_aw.World.{Assignment}
use innovation_sandbox_on_aw.Reconciliation.{
  AssignmentAction, grant, revoke, no_op, Message, is_desired, determine_action,
}
use innovation_sandbox_on_aw.LeaseApi.Views.{
  SyncStatus, active, revoking, suspended, granting, AssignmentView, status_for_assigned,
  status_for_unassigned, view_from_desired, view_from_assignment, desired_for, views_from_records,
  desired_only, views_during, is_owner_record, operation_in_progress, is_unfreezing, is_ending,
  no_access_expected, is_assigned, derive_assignment_view,
}

-- The status that tells what the worker will do to a principal.
abbrev pub status_of_action : AssignmentAction → (exists : Bool) → SyncStatus
status_of_action grant exists = granting
status_of_action revoke exists = revoking
status_of_action no_op exists = if exists then active else suspended

-- What the worker does on a message about a principal of the lease, as its record is.
abbrev pub worker_action : Message → Lease → (exists : Bool) → AssignmentAction
worker_action m l exists =
    determine_action m.intent (not (is_critical m.intent) && is_desired m (some l)) exists

module _ {A B : Type 0} where
  Among-map :
      (f : A → B) (b : B) (xs : List A) → Among b (map f xs) → (a : A) × (Among a xs × (b ≡ f a))
  Among-map f b [] h = absurd h
  Among-map f b (x ∷ xs) (inl e) = (x, (inl refl, e))
  Among-map f b (x ∷ xs) (inr h) = let (a, (among, is)) = Among-map f b xs h in (a, (inr among, is))

any-Among :
    {A : Type 0} (p : A → Bool) (a : A) (xs : List A) → Among a xs → p a ≡ true → any p xs ≡ true
any-Among p a [] h e = absurd h
any-Among p a (x ∷ xs) (inl same) e =
    let first : p x ≡ true = ap p (sym same) ∙ e in ground (arith, first)
any-Among p a (x ∷ xs) (inr h) e = ground (arith, any-Among p a xs h e)

abbrev pub is_listed_in : Lease → String → Bool
is_listed_in l id =
    any (λ (d : DesiredAssignment). str_eq d.principal_id id) (or_default l.desired_assignments [])

is_some-desired_for :
    (id : String) (ds : List DesiredAssignment)
    → is_some (desired_for id ds) ≡ any (λ d. str_eq d.principal_id id) ds
is_some-desired_for id [] = refl
is_some-desired_for id (d ∷ ds) = elim (Option-cases (desired_for id ds)) [
  | inl e ↦ ground (arith, e, is_some-desired_for id ds)
  | inr (x, e) ↦ ground (arith, e, is_some-desired_for id ds)
]

-- The lease as the worker finds it: `unfreezeLease` takes the lock, then writes the status Active,
-- and then asks for the processing, so that a lease can be shown frozen under the lock but is active
-- for the worker. A critical intent wants no access whatever the status is, and UPDATE and PUBLISH
-- leave the status alone.
abbrev pub status_when_processed : Intent → Lease → LeaseStatus
status_when_processed i l =
    if is_unfreezing (some i) && is_frozen_lease l then LeaseStatus.active else l.status

abbrev pub lease_when_processed : Intent → Lease → Lease
lease_when_processed i l = record l { status = status_when_processed i l }

still_suspended :
    (i : Intent) (l : Lease)
    → let x = lease_when_processed i l in
      (is_frozen_lease x || is_expired_lease x)
      ≡ ((is_frozen_lease l && not (is_unfreezing (some i))) || is_expired_lease l)
still_suspended i l = by_status l.status (is_unfreezing (some i))
  where
    by_status :
        (s : LeaseStatus) (b : Bool)
        → let x : Lease = record l { status = s } in
          let y : Lease = record l {
            status = if b && is_frozen_lease x then LeaseStatus.active else s;
          } in
          (is_frozen_lease y || is_expired_lease y)
          ≡ ((is_frozen_lease x && not b) || is_expired_lease x)
    by_status frozen true = refl
    by_status frozen false = refl
    by_status pending_approval true = refl
    by_status pending_approval false = refl
    by_status approval_denied true = refl
    by_status approval_denied false = refl
    by_status LeaseStatus.active true = refl
    by_status LeaseStatus.active false = refl
    by_status provisioning true = refl
    by_status provisioning false = refl
    by_status (ended e) true = refl
    by_status (ended e) false = refl

-- No access is expected where the worker wants none, whoever the principal is.
abbrev Agrees : Message → Lease → Bool → Type 0
Agrees m l no_access =
    (not (is_critical m.intent) && is_desired m (some (lease_when_processed m.intent l)))
    ≡ (not no_access && is_listed_in l m.principal_id)

intent_agrees :
    (i : Intent) (x d : Bool)
    → (not (is_critical i) && (not x && d)) ≡ (not (is_ending (some i) || x) && d)
unfolding is_critical
intent_agrees terminate x d = ground arith
intent_agrees freeze x d = ground arith
intent_agrees unfreeze x d = ground arith
intent_agrees update x d = ground arith
intent_agrees publish x d = ground arith

no_access-Agrees : (m : Message) (l : Lease) → Agrees m l (no_access_expected l (some m.intent))
unfolding no_access_expected
no_access-Agrees m l =
    rw (still_suspended m.intent l) (intent_agrees m.intent _ (is_listed_in l m.principal_id))

assigned-status :
    (i : Intent) (wanted no_access listed owner : Bool)
    → (not (is_critical i) && wanted) ≡ (not no_access && listed)
    → (owner ≡ true → listed ≡ true)
    → status_for_assigned (no_access || (not (listed || owner) && not owner)) true
      ≡ status_of_action (determine_action i (not (is_critical i) && wanted) true) true
unfolding status_for_assigned determine_action is_critical
assigned-status terminate wanted n d o h k = ground (arith, h, k)
assigned-status freeze wanted n d o h k = ground (arith, h, k)
assigned-status unfreeze wanted n d o h k = ground (arith, h, k)
assigned-status update wanted n d o h k = ground (arith, h, k)
assigned-status publish wanted n d o h k = ground (arith, h, k)

unassigned-status :
    (i : Intent) (wanted no_access : Bool)
    → (not (is_critical i) && wanted) ≡ (not no_access && true)
    → status_for_unassigned no_access true
      ≡ status_of_action (determine_action i (not (is_critical i) && wanted) false) false
unfolding status_for_unassigned determine_action is_critical
unassigned-status terminate wanted n h = ground (arith, h)
unassigned-status freeze wanted n h = ground (arith, h)
unassigned-status unfreeze wanted n h = ground (arith, h)
unassigned-status update wanted n h = ground (arith, h)
unassigned-status publish wanted n h = ground (arith, h)

module _ (l : Lease) (records : List Assignment) (now : ℕ) (m : Message)
    (running : operation_in_progress l.resource_lock now ≡ some m.intent)
    (owners : (a : Assignment)
      → Among a records
      → is_owner_record l a ≡ true
      → is_listed_in l a.principal_id ≡ true) where
  record-Agrees :
      (a : Assignment)
      → Among a records
      → a.principal_id ≡ m.principal_id
      → (view_from_assignment l
          (no_access_expected l (some m.intent))
          true
          (desired_for a.principal_id (or_default l.desired_assignments []))
          a).sync_status
        ≡ status_of_action (worker_action m (lease_when_processed m.intent l) true) true
  unfolding view_from_assignment
  record-Agrees a among same =
      let listed = is_some-desired_for a.principal_id (or_default l.desired_assignments []) in
      rw (listed, same)
        (assigned-status m.intent _ _ _ (is_owner_record l a) (no_access-Agrees m l)
          (λ o. ap (is_listed_in l) (sym same) ∙ owners a among o))

  entry-Agrees :
      (d : DesiredAssignment)
      → is_listed_in l d.principal_id ≡ true
      → d.principal_id ≡ m.principal_id
      → (view_from_desired l (no_access_expected l (some m.intent)) true d).sync_status
        ≡ status_of_action (worker_action m (lease_when_processed m.intent l) false) false
  unfolding view_from_desired
  entry-Agrees d listed same = unassigned-status m.intent _ _ (
      no_access-Agrees m l
      ∙ ap (λ b. not (no_access_expected l (some m.intent)) && b)
          (ap (is_listed_in l) (sym same) ∙ listed))

  agrees_on :
      (v : AssignmentView)
      → Among v (views_during l records (some m.intent))
      → v.principal_id ≡ m.principal_id
      → v.sync_status
        ≡ status_of_action
            (worker_action m (lease_when_processed m.intent l) (is_assigned records m.principal_id))
            (is_assigned records m.principal_id)
  unfolding views_during view_from_assignment view_from_desired
  agrees_on v among same =
      elim ((Among-append v (views_from_records l desired no_access true records)
          (map (view_from_desired l no_access true) rest)).0
        among) [
          | inl h ↦
              let (a, (is_in, is)) = Among-map _ v records h in
              let key : a.principal_id ≡ m.principal_id =
                ap (λ (x : AssignmentView). x.principal_id) (sym is) ∙ same in
              let there : is_assigned records m.principal_id ≡ true =
                any-Among _ a records is_in
                  (ap (λ x. str_eq x m.principal_id) key ∙ eq_refl m.principal_id) in
              rw (there, is) (record-Agrees a is_in key)
          | inr h ↦
              let (d, (is_in, is)) = Among-map _ v rest h in
              let key : d.principal_id ≡ m.principal_id =
                ap (λ (x : AssignmentView). x.principal_id) (sym is) ∙ same in
              let (entry, free) = (Among-keep _ d desired).0 is_in in
              let listed : is_listed_in l d.principal_id ≡ true =
                any-Among _ d desired entry (eq_refl d.principal_id) in
              let missing : is_assigned records m.principal_id ≡ false =
                ap (is_assigned records) (sym key) ∙ ground (arith, free) in
              rw (missing, is) (entry-Agrees d listed key)
        ]
    where
      desired : List DesiredAssignment
      desired = or_default l.desired_assignments []

      no_access : Bool
      no_access = no_access_expected l (some m.intent)

      rest : List DesiredAssignment
      rest = desired_only records desired

-- While an operation on a lease runs, the status that the API shows for a principal is the one of
-- what the worker does on a message about it: granting where it grants, revoking where it revokes,
-- and active or suspended where it does nothing, by whether there is a record. The worker finds the
-- lease as it is here, but for an unfreeze of a frozen lease, which it finds active. The condition
-- is that an owner who has a record is among the desired.
pub derive_assignment_view-worker_action :
    (l : Lease) (records : List Assignment) (now : ℕ) (m : Message)
    → operation_in_progress l.resource_lock now ≡ some m.intent
    → ((a : Assignment)
        → Among a records
        → is_owner_record l a ≡ true
        → is_listed_in l a.principal_id ≡ true)
    → (v : AssignmentView) → Among v (derive_assignment_view l records now).0
    → v.principal_id ≡ m.principal_id
    → v.sync_status
      ≡ status_of_action
          (worker_action m (lease_when_processed m.intent l) (is_assigned records m.principal_id))
          (is_assigned records m.principal_id)
unfolding derive_assignment_view views_during view_from_assignment view_from_desired
derive_assignment_view-worker_action l records now m running owners v among same =
    agrees_on l records now m running owners v
      (subst (λ operation. Among v (views_during l records operation)) running among) same
