-- ===== src/LeaseApi/Reads.antt =====
-- What the reading parts of the API keep within: whatever a call that changes nothing keeps within.
use innovation_sandbox_on_aw.Common.{
  String, true, false, not, Option, none, some, List, [], or_default, any,
}
use innovation_sandbox_on_aw.Types.{Lease, DesiredAssignment}
use innovation_sandbox_on_aw.Auth.{IsbUser, idc_user, m2m_user}
use innovation_sandbox_on_aw.LeaseStore.{get_lease}
use innovation_sandbox_on_aw.Processor.{get_assignments_for_lease}
use innovation_sandbox_on_aw.World.{remote}
use innovation_sandbox_on_aw.World.Triple.{View}
use innovation_sandbox_on_aw.World.Within.{
  Within, IsPreorder, Within-pure, Within-gets, Within-or_throw, Within-guard, Within-if,
  Within-bind,
}
use innovation_sandbox_on_aw.LeaseApi.{
  is_admin_or_manager, parse_lease_composite_key, fetch_lease, has_read_access_for_lease,
  has_shared_access, shared_with, is_user_entry, is_group_entry,
  assert_caller_can_manage_assignments, assert_group_assignments_allowed, authorize_termination,
}
use innovation_sandbox_on_aw.LeaseApi.Operations.{
  can_read, get_lease_operation, fetch_managed_lease, get_lease_assignments_operation,
}

module _ {R : View → View → Type 0} (order : IsPreorder R) (remotes : Within R remote) where
  pub fetch_lease-Within : (id : String) → Within R (fetch_lease id)
  unfolding fetch_lease parse_lease_composite_key get_lease
  fetch_lease-Within id =
      Within-bind order
        (Within-bind order (Within-gets order _) (λ key. Within-or_throw order key _))
        (λ key. Within-bind order remotes (λ _. Within-gets order _))

  pub shared-Within : (u : IsbUser) (l : Lease) → Within R (shared_with u l)
  unfolding has_shared_access
  shared-Within (m2m_user _ _) l = Within-pure order false
  shared-Within (idc_user _ id _) l =
      let ds = or_default l.desired_assignments [] in
      Within-if order (any (is_user_entry id) ds) (Within-pure order true) (
        Within-if order (not (any is_group_entry ds)) (Within-pure order false) (
          Within-bind order remotes
            (λ _. Within-bind order (Within-gets order _) (λ groups. Within-pure order _))))

  pub can_read-Within : (u : IsbUser) (found : Option Lease) → Within R (can_read u found)
  unfolding has_read_access_for_lease
  can_read-Within u none = Within-pure order false
  can_read-Within u (some l) =
      Within-if order (is_admin_or_manager u) (Within-pure order true)
        (Within-if order _ (Within-pure order true) (shared-Within u l))

  pub get-Within : (u : IsbUser) (id : String) → Within R (get_lease_operation u id)
  unfolding get_lease_operation
  get-Within u id = Within-bind order (fetch_lease-Within id) (λ found.
      Within-bind order (can_read-Within u found) (λ readable.
        Within-bind order (Within-guard order _ _) (λ _.
          Within-bind order (Within-guard order readable _) (λ _. Within-or_throw order found _))))

  pub managed-Within : (u : IsbUser) (id : String) → Within R (fetch_managed_lease u id)
  unfolding fetch_managed_lease
  managed-Within u id =
      Within-bind order (fetch_lease-Within id)
        (λ found. Within-bind order (Within-guard order _ _) (λ _. Within-or_throw order found _))

  pub assignments-Within :
      (u : IsbUser) (id : String) → Within R (get_lease_assignments_operation u id)
  unfolding get_lease_assignments_operation get_assignments_for_lease
  assignments-Within u id = Within-bind order (managed-Within u id) (λ l.
      Within-bind order (Within-bind order remotes (λ _. Within-gets order _))
        (λ records. Within-bind order (Within-gets order _) (λ now. Within-pure order _)))

  pub authorize-Within :
      (u : IsbUser) (found : Option Lease) → Within R (authorize_termination u found)
  unfolding authorize_termination
  authorize-Within u found = Within-if order (is_admin_or_manager u) (Within-pure order false) (
      Within-bind order (Within-gets order _) (λ allowed.
        Within-bind order (Within-guard order allowed _) (λ _.
          Within-bind order (Within-guard order _ _)
            (λ _. Within-bind order (Within-guard order _ _) (λ _. Within-pure order true)))))

  pub manage-Within :
      (u : IsbUser) (l : Lease) → Within R (assert_caller_can_manage_assignments u l)
  unfolding assert_caller_can_manage_assignments
  manage-Within u l = Within-if order (is_admin_or_manager u) (Within-pure order tt) (
      Within-bind order (Within-gets order _)
        (λ enabled. Within-bind order (Within-guard order enabled _) (λ _. Within-guard order _ _)))

  pub groups-Within :
      (desired existing : List DesiredAssignment)
      → Within R (assert_group_assignments_allowed desired existing)
  unfolding assert_group_assignments_allowed
  groups-Within desired existing =
      Within-bind order (Within-gets order _) (λ enabled. Within-guard order _ _)
