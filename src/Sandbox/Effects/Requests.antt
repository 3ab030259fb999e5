-- ===== src/Sandbox/Effects/Requests.antt =====
-- The operations of the facade as requests, run one after the other, whatever each of them throws.
use innovation_sandbox_on_aw.Common.{String, Bool, Option, List, [], ◌∷◌}
use innovation_sandbox_on_aw.Types.{
  Lease, LeaseTemplate, ExpiredStatus, Account, DesiredAssignment, Ou,
}
use innovation_sandbox_on_aw.Events.{FrozenReason}
use innovation_sandbox_on_aw.Auth.{IsbUser}
use innovation_sandbox_on_aw.World.{World}
use innovation_sandbox_on_aw.World.Triple.{View, view}
use innovation_sandbox_on_aw.Sandbox.Freeze.{freeze_lease, unfreeze_lease}
use innovation_sandbox_on_aw.Sandbox.Publish.{publish_lease}
use innovation_sandbox_on_aw.Sandbox.Approve.{approve_lease}
use innovation_sandbox_on_aw.Sandbox.Request.{request_lease, deny_lease}
use innovation_sandbox_on_aw.Sandbox.Terminate.{
  terminate_lease, terminate_leases_of_account, reset_lease,
}
use innovation_sandbox_on_aw.Sandbox.Pool.{
  register_account, retry_cleanup, eject_account, quarantine_account,
}
use innovation_sandbox_on_aw.Sandbox.Effects.{Allows}
use innovation_sandbox_on_aw.Sandbox.Effects.Leases.{
  freeze_lease-Within, unfreeze_lease-Within, publish_lease-Within, approve_lease-Within,
  request_lease-Within, deny_lease-Within,
}
use innovation_sandbox_on_aw.Sandbox.Effects.Accounts.{
  terminate_lease-Within, terminate_leases-Within, reset_lease-Within, register_account-Within,
  retry_cleanup-Within, eject_account-Within, quarantine_account-Within,
}

-- The public methods of the class, with the arguments that are not services.
pub data Request : Type 0 where
  register : (account_id : String) → Request
  request :
      LeaseTemplate
      → (comments : Option String) → IsbUser
      → (created_by : Option String) → List DesiredAssignment
      → Request
  freeze : Lease → FrozenReason → Request
  terminate : Lease → ExpiredStatus → (auto_cleanup : Bool) → Request
  unfreeze : Lease → Request
  retry : Account → (initiated_by : Option String) → Request
  approve : Lease → (approver : String) → Request
  publish : Lease → Request
  reset : Lease → (blueprint_name : String) → Request
  deny : Lease → IsbUser → Request
  eject : Account → Request
  quarantine : (account_id : String) → Ou → (reason : String) → Request
  terminate_leases : (account_id : String) → ExpiredStatus → Request

-- What is left of the world, whether the request returns or throws.
abbrev pub serve : Request → World → World
serve (register id) w = (register_account id w).1
serve (request t comments target created_by ds) w =
    (request_lease t comments target created_by ds w).1
serve (freeze l reason) w = (freeze_lease l reason w).1
serve (terminate l s auto_cleanup) w = (terminate_lease l s auto_cleanup w).1
serve (unfreeze l) w = (unfreeze_lease l w).1
serve (retry a by) w = (retry_cleanup a by w).1
serve (approve l approver) w = (approve_lease l approver w).1
serve (publish l) w = (publish_lease l w).1
serve (reset l name) w = (reset_lease l name w).1
serve (deny l u) w = (deny_lease l u w).1
serve (eject a) w = (eject_account a w).1
serve (quarantine id ou reason) w = (quarantine_account id ou reason w).1
serve (terminate_leases id s) w = (terminate_leases_of_account id s w).1

unfoldable pub serve_all : List Request → World → World
serve_all [] w = w
serve_all (r ∷ rs) w = serve_all rs (serve r w)

module _ {R : View → View → Type 0} (allows : Allows R) where
  open allows use {order}

  serve-Allows : (r : Request) (w : World) → R (view w) (view (serve r w))
  serve-Allows (register id) w = (register_account-Within allows id).at w
  serve-Allows (request t comments target created_by ds) w =
      (request_lease-Within allows t comments target created_by ds).at w
  serve-Allows (freeze l reason) w = (freeze_lease-Within allows l reason).at w
  serve-Allows (terminate l s c) w = (terminate_lease-Within allows l s c).at w
  serve-Allows (unfreeze l) w = (unfreeze_lease-Within allows l).at w
  serve-Allows (retry a by) w = (retry_cleanup-Within allows a by).at w
  serve-Allows (approve l approver) w = (approve_lease-Within allows l approver).at w
  serve-Allows (publish l) w = (publish_lease-Within allows l).at w
  serve-Allows (reset l name) w = (reset_lease-Within allows l name).at w
  serve-Allows (deny l u) w = (deny_lease-Within allows l u).at w
  serve-Allows (eject a) w = (eject_account-Within allows a).at w
  serve-Allows (quarantine id ou reason) w = (quarantine_account-Within allows id ou reason).at w
  serve-Allows (terminate_leases id s) w = (terminate_leases-Within allows id s).at w

  pub serve_all-Allows : (rs : List Request) (w : World) → R (view w) (view (serve_all rs w))
  unfolding serve_all
  serve_all-Allows [] w = order.same (view w)
  serve_all-Allows (r ∷ rs) w =
      order.next _ _ _ (serve-Allows r w) (serve_all-Allows rs (serve r w))
