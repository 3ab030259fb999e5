-- ===== src/Sandbox/Publish.antt =====
-- `publishLease`: the lease becomes active, and the access of its principals is requested.
use innovation_sandbox_on_aw.Common.{
  ℕ, zero, suc, ◌+◌, ◌*◌, String, Option, none, some, [], or_default,
}
use innovation_sandbox_on_aw.Types.{Lease, active, publish}
use innovation_sandbox_on_aw.Outcome.{
  Action, or_throw, gets, swallow, ◌>>=◌, ◌>>◌, could_not_retrieve_user,
}
use innovation_sandbox_on_aw.Events.{lease_approved}
use innovation_sandbox_on_aw.World.{World, Call, remote, send, time, put_event, tag_lease}
use innovation_sandbox_on_aw.LeaseStore.{update_lease_from}
use innovation_sandbox_on_aw.AssignmentLock.{trigger_assignment_processing}
use innovation_sandbox_on_aw.Sandbox.{assert_assignee_not_m2m}

abbrev pub ms_per_hour : ℕ
ms_per_hour = 3600000

-- A duration of no hours counts as none.
unfoldable pub expiration_of : ℕ → Option ℕ → Option ℕ
expiration_of now none = none
expiration_of now (some zero) = none
expiration_of now (some (suc h)) = some (now + suc h * ms_per_hour)

unfoldable pub published : Lease → ℕ → Lease
unfolding expiration_of
published l now = record l {
  status = active;
  start_date = some now;
  expiration_date = expiration_of now l.lease_duration_in_hours;
}

-- `applyLeaseTags`, with the tags of `buildLeaseTagSet`.
unfoldable pub lease_tags : Lease → String → Call
lease_tags l user_id =
    tag_lease (or_default l.aws_account_id "") l.uuid
      (or_default l.cost_report_group "No cost report group") l.template_uuid user_id active

-- `getUserFromEmail`
unfoldable pub user_id_from_email : String → Action World String
user_id_from_email email = do
  remote
  found ← gets (λ w. w.user_id_of email)
  or_throw found could_not_retrieve_user

unfoldable pub publish_lease : Lease → Action World (Unit {0})
unfolding published lease_tags
publish_lease l = do
  assert_assignee_not_m2m l
  user_id ← user_id_from_email l.user_email
  now ← gets time
  let l' = published l now
  update_lease_from l' l
  trigger_assignment_processing l.uuid l.user_email publish
      (some (or_default l'.desired_assignments []))
  swallow (send (lease_tags l' user_id))
  send (put_event (lease_approved l'.user_email l'.uuid l'.approved_by))
