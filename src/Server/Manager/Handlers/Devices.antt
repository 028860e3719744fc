-- ===== src/Server/Manager/Handlers/Devices.antt =====
-- The calls of clients that grant and revoke devices (server/zones-manager.cpp).
use vasum.Prelude.{ℕ, Bool, true, false, Text, lit, ◌++◌, not, if◌then◌else◌}
use vasum.Prelude.Exec.{pure, ◌>>=◌, on_world}
use vasum.Lxc.{is_device, set_device_access}
use vasum.Server.Host.{Host}
use vasum.Server.Zone.{Zone}
use vasum.Server.Zone
use vasum.Server.Manager.{Method, forbidden, invalid_state, internal, void, error, on_zone, reply}
use vasum.Server.Manager.Queue.{try_add_task}
use vasum.Server.Manager.Handlers.{with_zone}

module _ {W : Type 0} (h : Host W) (caller : Text) where
  -- zone.isRunning() || zone.isPaused()
  unfoldable pub is_up : Text → Method W Bool
  is_up id = do
    alive ← on_zone id (Zone.is_running h)
    if alive then pure true else on_zone id (Zone.is_paused h)

  -- The two handlers differ in the flag and the permissions.
  unfoldable pub access_device : Bool → Text → Text → ℕ → Method W (Unit {0})
  unfolding is_up
  access_device grant id device flags = with_zone id λ z. do
    up ← is_up id
    if not up then reply (error invalid_state) else do
      known ← on_world (is_device h.lxc (lit "/dev/" ++ device))
      if not known then reply (error forbidden) else do
        done ← on_world (set_device_access h.lxc id (lit "/dev/" ++ device) grant flags)
        if not done then reply (error internal) else reply void

  unfoldable pub handle_grant_device_call : Text → Text → ℕ → Method W (Unit {0})
  unfolding access_device
  handle_grant_device_call id device flags =
      try_add_task caller (access_device true id device flags)

  unfoldable pub handle_revoke_device_call : Text → Text → Method W (Unit {0})
  unfolding access_device
  handle_revoke_device_call id device = try_add_task caller (access_device false id device 0)
