-- ===== src/Reconciliation/Frame.antt =====
-- What the worker leaves alone: the leases, and the records of every other principal.
use innovation_sandbox_on_aw.Common.{◌≡◌, refl, ap, ◌∙◌, true, false, find, eq_iff, arith, str_eq}
use innovation_sandbox_on_aw.LeaseLock.{is_critical}
use innovation_sandbox_on_aw.Table.{find-put_ne, find-erase_ne}
use innovation_sandbox_on_aw.LeaseStore.{get_lease}
use innovation_sandbox_on_aw.Reconciliation.{
  Message, AssignmentAction, grant, revoke, no_op, is_record, assignment_record_exists,
  should_principal_have_access, resolve_assignment_action, grant_record, execute_grant,
  persist_grant_record, execute_revoke, process_assignment, settle_assignment,
}
use innovation_sandbox_on_aw.World.{Assignment, Call, remote, send}
use innovation_sandbox_on_aw.World.Triple.{View}
use innovation_sandbox_on_aw.World.Frame.{remote-Triple, send-Triple}
use innovation_sandbox_on_aw.World.Within.{
  Within, IsPreorder, Within-pure, Within-gets, Within-guard, Within-if, Within-bind, Within-Triple,
}

-- The lease table is the same, and so is the record that is found for any other principal.
abbrev pub LeavesOthers : Message → View → View → Type 0
LeavesOthers m g v =
    (v.leases ≡ g.leases)
    × ((n : Message)
        → str_eq n.principal_id m.principal_id ≡ false
        → find (is_record n) v.assignments ≡ find (is_record n) g.assignments)

module _ (m : Message) where
  order : IsPreorder (LeavesOthers m)
  order = record {
    same = λ g. (refl, λ n h. refl);
    next = λ g h k (p, q) (p', q'). (p' ∙ p, λ n e. q' n e ∙ q n e);
  }

  unmoved : (g v : View) → v ≡ g → LeavesOthers m g v
  unmoved g v p =
      (ap (λ (x : View). x.leases) p, λ n h. ap (λ (x : View). find (is_record n) x.assignments) p)

  apart :
      (n : Message) (a : Assignment)
      → str_eq n.principal_id m.principal_id ≡ false
      → is_record m a ≡ true
      → is_record n a ≡ false
  apart n a h k = ground (
    arith,
    eq_iff n.principal_id m.principal_id,
    eq_iff a.principal_id m.principal_id,
    eq_iff a.principal_id n.principal_id,
  )

  remote-Within : Within (LeavesOthers m) remote
  remote-Within =
      Within-Triple order remote remote-Triple (λ g _ v p. unmoved g v p)
        (λ g e v h. unmoved g v h.1)

  send-Within : (c : Call) → Within (LeavesOthers m) (send c)
  send-Within c =
      Within-Triple order (send c) (send-Triple c)
        (λ g _ v p. (
          ap (λ (x : View). x.leases) p,
          λ n h. ap (λ (x : View). find (is_record n) x.assignments) p,
        ))
        (λ g e v h. unmoved g v h.1)

  not_granted :
      (n : Message)
      → str_eq n.principal_id m.principal_id ≡ false
      → is_record n (grant_record m) ≡ false
  unfolding grant_record
  not_granted n h =
      ground (arith, eq_iff n.principal_id m.principal_id, eq_iff m.principal_id n.principal_id)

  persist-Within : Within (LeavesOthers m) (persist_grant_record m)
  unfolding persist_grant_record
  persist-Within = Within-bind order (Within-gets order _) (λ valid.
      Within-bind order (Within-guard order valid _) (λ _. Within-bind order remote-Within (λ _.
        Within-bind order (Within-gets order _) (λ there.
          Within-if order there (Within-pure order tt) (record {
            at = λ w. (
              refl,
              λ n h.
                  find-put_ne (is_record m) (is_record n) (grant_record m) w.assignments
                    (not_granted n h) (λ a. apart n a h),
            );
          })))))

  revoke-Within : Within (LeavesOthers m) (execute_revoke m)
  unfolding execute_revoke
  revoke-Within = Within-bind order remote-Within (λ _.
      Within-bind order (Within-gets order _) (λ missing.
        Within-bind order (Within-if order missing remote-Within (send-Within _)) (λ _.
          Within-bind order remote-Within (λ _. (record {
            at = λ w. (
              refl,
              λ n h. find-erase_ne (is_record m) (is_record n) w.assignments (λ a. apart n a h),
            );
          })))))

  wanted-Within : Within (LeavesOthers m) (should_principal_have_access m)
  unfolding should_principal_have_access get_lease
  wanted-Within = Within-if order (is_critical m.intent) (Within-pure order false) (
      Within-bind order (Within-bind order remote-Within (λ _. Within-gets order _))
        (λ found. Within-pure order _))

  resolve-Within : Within (LeavesOthers m) (resolve_assignment_action m)
  unfolding resolve_assignment_action assignment_record_exists
  resolve-Within =
      Within-bind order (Within-bind order remote-Within (λ _. Within-gets order _))
        (λ exists. Within-bind order wanted-Within (λ wanted. Within-pure order _))

  process-Within : (a : AssignmentAction) → Within (LeavesOthers m) (process_assignment m a)
  unfolding process_assignment execute_grant
  process-Within grant =
      Within-bind order (Within-bind order remote-Within (λ _. send-Within _)) (λ _. persist-Within)
  process-Within revoke = revoke-Within
  process-Within no_op = Within-pure order tt

  pub settle_assignment-LeavesOthers : Within (LeavesOthers m) (settle_assignment m)
  unfolding settle_assignment
  settle_assignment-LeavesOthers = Within-bind order resolve-Within (λ a. process-Within a)
