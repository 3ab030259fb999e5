-- ===== src/System/Effects/Assignments.antt =====
-- The assignment processor and the worker keep within what their stores and services keep within.
use innovation_sandbox_on_aw.Common.{
  ◌≡◌, refl, sym, ap, subst, ◌⊎◌, inl, inr, Bool-cases, String, List, [], ◌∷◌, true, false,
}
use innovation_sandbox_on_aw.Types.{DesiredAssignment}
use innovation_sandbox_on_aw.LeaseLock.{is_critical}
use innovation_sandbox_on_aw.World.{Assignment}
use innovation_sandbox_on_aw.World.Triple.{View, view, Triple, Triple-pure, Triple-modify}
use innovation_sandbox_on_aw.World.Within.{
  Within, Within-pure, Within-gets, Within-or_throw, Within-if, Within-bind, Within-swallow,
  Within-finally, Within-Triple,
}
use innovation_sandbox_on_aw.Sandbox.Effects.{
  Allows, remote-Within, send-Within, release_lock-Within,
}
use innovation_sandbox_on_aw.Sandbox.Effects.Shared.{events-Within}
use innovation_sandbox_on_aw.Lifecycle.Effects.{get_lease-Within}
use innovation_sandbox_on_aw.Reconciliation.{
  AssignmentAction, grant, revoke, no_op, Message, assignment_record_exists,
  should_principal_have_access, resolve_assignment_action, execute_grant, persist_grant_record,
  execute_revoke, process_assignment, settle_assignment, grant_record, is_record,
}
use innovation_sandbox_on_aw.Reconciliation.Laws.{has_access}
use innovation_sandbox_on_aw.Table.{put}
use innovation_sandbox_on_aw.World.Triple.Bind.{bind_reads, bind_guard, bind_remote}
use innovation_sandbox_on_aw.Processor.{
  FanOutInput, CompletionInput, get_assignments_for_lease, build_work_items, handle_fan_out,
  complete_assignments, handle_completion,
}

-- The record, if its schema accepts it, is put where there is none, or nothing changes.
persisted-Triple :
    (m : Message) (g : View)
    → Triple g
        (λ _ v.
          (v ≡ g)
          ⊎ ((g.env.assignment_is_valid (grant_record m) ≡ true)
              × (v ≡ record g { assignments = put (is_record m) (grant_record m) g.assignments })))
        (λ _ v. v ≡ g)
        (persist_grant_record m)
unfolding persist_grant_record
persisted-Triple m g =
    bind_reads (λ v. v.env.assignment_is_valid (grant_record m)) _
      (bind_guard _ _ _
        (λ valid. bind_remote _ refl (
          bind_reads (has_access m) _ (elim (Bool-cases (has_access m g)) [
            | inl e ↦ simp e (Triple-pure _ (inl refl))
            | inr e ↦ simp e (Triple-modify _ (λ w p. inr (valid, ap added p)))
          ])))
        (λ invalid. refl))
  where
    added : View → View
    added v = record v { assignments = put (is_record m) (grant_record m) v.assignments }

module _ {R : View → View → Type 0} (allows : Allows R) where
  open allows use {order}

  records-Within : (id : String) → Within R (get_assignments_for_lease id)
  unfolding get_assignments_for_lease
  records-Within id = Within-bind order (remote-Within allows) (λ _. Within-gets order _)

  items-Within :
      (ds : List DesiredAssignment) (records : List Assignment)
      → Within R (build_work_items ds records)
  unfolding build_work_items
  items-Within [] [] = Within-pure order _
  items-Within (d ∷ ds) records =
      Within-bind order (remote-Within allows)
        (λ _. Within-bind order (Within-gets order _) (λ arn. Within-pure order _))
  items-Within [] (r ∷ records) =
      Within-bind order (remote-Within allows)
        (λ _. Within-bind order (Within-gets order _) (λ arn. Within-pure order _))

  pub fan_out-Within : (input : FanOutInput) → Within R (handle_fan_out input)
  unfolding handle_fan_out
  fan_out-Within input = Within-bind order (get_lease-Within allows _ _) (λ found.
      Within-bind order (Within-or_throw order found _) (λ l.
        Within-bind order (Within-or_throw order _ _) (λ account_id.
          Within-bind order (records-Within _) (λ records.
            Within-bind order (items-Within _ records) (λ built. Within-pure order _)))))

  pub completion-Within : (input : CompletionInput) → Within R (handle_completion input)
  unfolding handle_completion complete_assignments
  completion-Within input =
      Within-finally order _ _
        (Within-bind order (get_lease-Within allows _ _) (λ found.
          Within-bind order (records-Within _)
            (λ records. Within-bind order (events-Within allows _) (λ _. Within-pure order _))))
        (Within-swallow order _ (release_lock-Within allows _ _ _))

  grant-Within : (m : Message) → Within R (persist_grant_record m)
  grant-Within m =
      Within-Triple order (persist_grant_record m) (persisted-Triple m)
        (λ g _ v h. elim h [
          | inl p ↦ subst (R g) (sym p) (order.same g)
          | inr (valid, p) ↦ subst (R g) (sym p) (allows.assignment_write m g valid)
        ])
        (λ g e v p. subst (R g) (sym p) (order.same g))

  revoke-Within : (m : Message) → Within R (execute_revoke m)
  unfolding execute_revoke
  revoke-Within m = Within-bind order (remote-Within allows) (λ _.
      Within-bind order (Within-gets order _) (λ missing.
        Within-bind order (Within-if order missing (remote-Within allows) (send-Within allows _))
          (λ _.
            Within-bind order (remote-Within allows)
              (λ _. record { at = λ w. allows.assignment_deletion m (view w) }))))

  process-Within : (m : Message) (a : AssignmentAction) → Within R (process_assignment m a)
  unfolding process_assignment execute_grant
  process-Within m grant =
      Within-bind order (Within-bind order (remote-Within allows) (λ _. send-Within allows _))
        (λ _. grant-Within m)
  process-Within m revoke = revoke-Within m
  process-Within m no_op = Within-pure order tt

  resolve-Within : (m : Message) → Within R (resolve_assignment_action m)
  unfolding resolve_assignment_action assignment_record_exists should_principal_have_access
  resolve-Within m =
      Within-bind order (Within-bind order (remote-Within allows) (λ _. Within-gets order _))
        (λ exists.
          Within-bind order
            (Within-if order (is_critical m.intent) (Within-pure order false)
              (Within-bind order (get_lease-Within allows _ _) (λ found. Within-pure order _)))
            (λ wanted. Within-pure order _))

  pub settle-Within : (m : Message) → Within R (settle_assignment m)
  unfolding settle_assignment
  settle-Within m = Within-bind order (resolve-Within m) (λ action. process-Within m action)
