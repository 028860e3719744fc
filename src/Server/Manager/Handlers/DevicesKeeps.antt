-- ===== src/Server/Manager/Handlers/DevicesKeeps.antt =====
-- What granting and revoking devices (server/zones-manager.cpp) do to the ids of the zones, to the recorded ids and to
-- the holder of the queue.
use vasum.Prelude.{Bool, true, false, ℕ, List, Text}
use vasum.Prelude.Keeps.{Keeps}
use vasum.Server.Host.{Host}
use vasum.Server.Zone.Lifecycle.{KeepsId-is_running, KeepsId-is_paused}
use vasum.Server.Manager.Shape.{Shape, shape_rules}
use vasum.Server.Manager.Queue.Keeps.{Shape-try_add_task}
use vasum.Server.Manager.Handlers.Keeps.{Shape-with_zone}
use vasum.Server.Manager.Handlers.Devices.{
  is_up, access_device, handle_grant_device_call, handle_revoke_device_call,
}

module _ {W : Type 0} (h : Host W) (P : List Text → List Text → Text → Type 0) where
  Shape-is_up : (caller id : Text) → Keeps (Shape P) (is_up h caller id)
  unfolding is_up
  Shape-is_up caller id = search (shape_rules, KeepsId-is_running, KeepsId-is_paused) depth 16

  Shape-access_device :
      (caller : Text) (grant : Bool) (id device : Text) (flags : ℕ)
      → Keeps (Shape P) (access_device h caller grant id device flags)
  unfolding access_device
  Shape-access_device caller grant id device flags =
      search (shape_rules, Shape-with_zone, Shape-is_up) depth 20

  pub Shape-grant_device :
      (caller id device : Text) (flags : ℕ)
      → Keeps (Shape P) (handle_grant_device_call h caller id device flags)
  unfolding handle_grant_device_call
  Shape-grant_device caller id device flags =
      Shape-try_add_task P caller _ (Shape-access_device caller true id device flags)

  pub Shape-revoke_device :
      (caller id device : Text) → Keeps (Shape P) (handle_revoke_device_call h caller id device)
  unfolding handle_revoke_device_call
  Shape-revoke_device caller id device =
      Shape-try_add_task P caller _ (Shape-access_device caller false id device 0)
