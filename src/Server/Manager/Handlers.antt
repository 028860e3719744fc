-- ===== src/Server/Manager/Handlers.antt =====
-- The calls of clients about zones as a whole (the handle… methods of server/zones-manager.cpp). `caller` is the connection
-- that the result goes back to. The handlers of a zone's parts are in the modules below.
pub mod Parts
pub mod Devices
pub mod PartsKeeps
pub mod DevicesKeeps
pub mod Keeps
pub mod Once
pub mod PartsOnce
use vasum.Prelude.{
  Bool, true, false, ◌&&◌, ◌||◌, List, [], ◌∷◌, Text, lit, ◌==◌, Option, none, some, map, not,
  if◌then◌else◌,
}
use vasum.Prelude.Exec.{
  Exception, is_runtime_error, is_exception, is_invalid_zone_id, is_zone_operation, Exec, pure,
  throw, invalid_zone_id, catch, when, ◌>>=◌, ◌>>◌, on_world,
}
use vasum.Server.Host.{Host}
use vasum.Server.ProxyPolicy.{is_proxy_call_allowed}
use vasum.Server.Zone.{Zone}
use vasum.Server.Zone
use vasum.Server.Manager.{
  Manager, Method, ErrorName, forbidden, invalid_id, invalid_state, internal, zone_not_running,
  Reply, void, error, zone_ids, zone_id, zone_info, host_id, find_zone, on_zone, reply, self,
}
use vasum.Server.Manager.Names.{clean_up_unknowns_from_root}
use vasum.Server.Manager.Focus.{
  focus_internal, refocus, is_running_in, get_running_foreground_zone_id,
}
use vasum.Server.Manager.Create.{create_zone, destroy_zone}
use vasum.Server.Manager.Queue.{try_add_task}

-- The name of the error for an exception, where an unknown zone has its own.
abbrev pub error_of : Exception → ErrorName
error_of e = if is_invalid_zone_id e then invalid_id else internal

module _ {W : Type 0} where
  -- findZone, with a reply of an error where there is no such zone.
  pub with_zone : Text → (Zone → Method W (Unit {0})) → Method W (Unit {0})
  with_zone id body = do
    s ← self
    elim (find_zone id s.zones) [ none ↦ reply (error invalid_id) | some z ↦ body z ]

module _ {W : Type 0} (h : Host W) (caller : Text) where
  unfoldable pub handle_get_zone_ids_call : Method W (Unit {0})
  handle_get_zone_ids_call = do s ← self; reply (zone_ids (map (λ z. z.id) s.zones))

  unfoldable pub handle_get_active_zone_id_call : Method W (Unit {0})
  handle_get_active_zone_id_call = do id ← get_running_foreground_zone_id h; reply (zone_id id)

  -- The states that a client is told of; the text is empty for any other.
  pub state_text : Text → Method W Text
  state_text id = do
    alive ← on_zone id (Zone.is_running h)
    if alive then pure (lit "RUNNING") else do
      down ← on_zone id (Zone.is_stopped h)
      if down
          then pure (lit "STOPPED")
          else do paused ← on_zone id (Zone.is_paused h); pure (if paused then lit "FROZEN" else [])

  unfoldable pub handle_get_zone_info_call : Text → Method W (Unit {0})
  unfolding state_text
  handle_get_zone_info_call id = with_zone id λ z. do
    state ← state_text id
    if state == []
        then reply (error internal)
        else reply (zone_info state z.id z.dynamic.vt z.root_path)

  unfoldable pub handle_set_active_zone_call : Text → Method W (Unit {0})
  handle_set_active_zone_call id = try_add_task caller (
      with_zone id λ z. do
        alive ← on_zone id (Zone.is_running h)
        if not alive
            then reply (error zone_not_running)
            else do focus_internal h (some id); reply void)

  unfoldable pub handle_switch_to_default_call : Method W (Unit {0})
  handle_switch_to_default_call = try_add_task caller do
    s ← self
    allowed ← elim (find_zone s.active_zone_id s.zones) [
      | none ↦ pure false
      | some active ↦ elim (find_zone s.dynamic.default_id s.zones) [
        | none ↦ pure false
        | some default ↦
            if active.config.switch_to_default_after_timeout
            then is_running_in h (some default)
            else pure false
      ]
    ]
    when allowed (focus_internal h (some s.dynamic.default_id))
    reply void

  unfoldable pub handle_create_zone_call : Text → Text → Method W (Unit {0})
  handle_create_zone_call id template_name = try_add_task caller (
      catch is_exception (create_zone h id template_name >> reply void)
        (λ e. reply (error (error_of e))))

  -- An unknown zone is answered by an error, and then by the reply of success as well.
  unfoldable pub handle_destroy_zone_call : Text → Method W (Unit {0})
  handle_destroy_zone_call id = try_add_task caller do
    go_on ←
        catch is_runtime_error (destroy_zone h id >> pure true)
          (λ e. reply (error (error_of e)) >> pure (is_invalid_zone_id e))
    when go_on (reply void)

  unfoldable pub handle_shutdown_zone_call : Text → Method W (Unit {0})
  handle_shutdown_zone_call id = try_add_task caller (
      catch is_zone_operation
        (with_zone id λ z. do on_zone id (Zone.stop h true); refocus h; reply void)
        (λ e. reply (error internal)))

  unfoldable pub handle_start_zone_call : Text → Method W (Unit {0})
  handle_start_zone_call id = try_add_task caller (
      catch is_exception
        (with_zone id λ z. do on_zone id (Zone.start h); focus_internal h (some id); reply void)
        (λ e. reply (error internal)))

  unfoldable pub handle_lock_zone_call : Text → Method W (Unit {0})
  handle_lock_zone_call id = try_add_task caller (
      with_zone id λ z. do
        alive ← on_zone id (Zone.is_running h)
        if not alive then reply (error invalid_state) else do
          locked ←
              catch is_zone_operation
                (do
                  on_zone id (Zone.go_background h)
                  on_zone id (Zone.suspend h)
                  refocus h
                  pure true)
                (λ e. reply (error internal) >> pure false)
          when locked (reply void))

  unfoldable pub handle_unlock_zone_call : Text → Method W (Unit {0})
  handle_unlock_zone_call id = try_add_task caller (
      with_zone id λ z. do
        paused ← on_zone id (Zone.is_paused h)
        if not paused then reply (error invalid_state) else do
          unlocked ←
              catch is_zone_operation (on_zone id (Zone.resume h) >> pure true)
                (λ e. reply (error internal) >> pure false)
          when unlocked (reply void))

  -- A failed clean-up is answered by an error, and then by the reply of success as well.
  unfoldable pub handle_clean_up_zones_root_call : Method W (Unit {0})
  handle_clean_up_zones_root_call = try_add_task caller do
    s ← self
    catch is_exception
        (on_world
          (clean_up_unknowns_from_root h s.config.zones_path (map (λ z. z.id) s.zones) false))
        (λ e. reply (error internal))
    reply void

  -- Not gated by the lock of the queue. An allowed call is answered later, by the target.
  unfoldable pub handle_proxy_call : Text → Text → Text → Text → Text → Text → Method W (Unit {0})
  handle_proxy_call from target bus_name object_path interface method = do
    s ← self
    if not (
          is_proxy_call_allowed s.config.proxy_call_rules from target bus_name object_path interface
            method)
        then reply (error forbidden)
        else if not (target == host_id)
        then reply (error invalid_id)
        else on_world (h.proxy_call_async bus_name object_path interface method)
