-- ===== src/Server/HostIpcConnection/Answers.antt =====
-- How many results a call of a client gets (server/host-ipc-connection.cpp, server/zones-manager.cpp).
use vasum.Prelude.{◌≡◌, ◌∙◌, refl, ◌⊎◌, Bool, true, false, Text, ◌∷◌, none}
use vasum.Prelude.Exec.{ok, ◌>>=◌}
use vasum.Server.Host.{Host}
use vasum.Server.Manager.{Manager, void, error, invalid_id, invalid_connection_id, find_zone, reply}
use vasum.Server.Manager.Queue.Replies.{Answers-lock_queue, Answers-unlock_queue}
use vasum.Server.Manager.Queue.Exclusion.{try_add_task-admitted}
use vasum.Server.Manager.Create.Refusals.{destroy_zone-unknown}
use vasum.Server.Manager.Handlers
use vasum.Server.Manager.Replies.{Answered, Answers}
use vasum.Server.Manager.Handlers.Once.{
  Answers-get_zone_ids, Answers-get_active_zone_id, Answers-get_zone_info, Answers-set_active_zone,
  Answers-create_zone, Answers-shutdown_zone, Answers-start_zone, Answers-switch_to_default,
  Answers-unlock_zone, Answers-lock_zone,
}
use vasum.Server.Manager.Handlers.PartsOnce.{
  Answers-set_netdev_attrs, Answers-create_netdev_veth, Answers-create_netdev_macvlan,
  Answers-create_netdev_phys, Answers-destroy_netdev, Answers-delete_netdev_ip_address,
  Answers-get_netdev_attrs, Answers-get_netdev_list, Answers-declare_file, Answers-declare_mount,
  Answers-declare_link, Answers-get_declarations, Answers-remove_declaration, Answers-create_file,
  Answers-grant_device, Answers-revoke_device,
}
use vasum.Server.HostIpcConnection.{
  ZoneCall, get_zone_ids, get_active_zone_id, switch_to_default, clean_up_zones_root, get_zone_info,
  get_netdev_list, get_declarations, set_active_zone, destroy_zone, shutdown_zone, start_zone,
  lock_zone, unlock_zone, set_netdev_attrs, get_netdev_attrs, create_netdev_veth,
  create_netdev_macvlan, create_netdev_phys, destroy_netdev, delete_netdev_ip_address, declare_file,
  declare_mount, declare_link, remove_declaration, create_zone, grant_device, revoke_device,
  create_file, serve, Event, call, lock_queue, unlock_queue, disconnect, handle,
}

-- All calls but the destruction of a zone and the clean-up of the zones' path.
abbrev pub is_single : ZoneCall → Bool
is_single (destroy_zone id) = false
is_single clean_up_zones_root = false
is_single c = true

-- The calls among what a connection brings.
abbrev pub is_answered : Event → Bool
is_answered (call c) = is_single c
is_answered lock_queue = true
is_answered unlock_queue = true
is_answered disconnect = false

module _ {W : Type 0} (h : Host W) (caller : Text) where
  serve-Answers : (c : ZoneCall) → is_single c ≡ true → Answers (serve h caller c)
  unfolding serve
  serve-Answers get_zone_ids e = Answers-get_zone_ids h caller
  serve-Answers get_active_zone_id e = Answers-get_active_zone_id h caller
  serve-Answers switch_to_default e = Answers-switch_to_default h caller
  serve-Answers clean_up_zones_root e = cc
  serve-Answers (get_zone_info id) e = Answers-get_zone_info h caller id
  serve-Answers (get_netdev_list id) e = Answers-get_netdev_list h caller id
  serve-Answers (get_declarations id) e = Answers-get_declarations h caller id
  serve-Answers (set_active_zone id) e = Answers-set_active_zone h caller id
  serve-Answers (destroy_zone id) e = cc
  serve-Answers (shutdown_zone id) e = Answers-shutdown_zone h caller id
  serve-Answers (start_zone id) e = Answers-start_zone h caller id
  serve-Answers (lock_zone id) e = Answers-lock_zone h caller id
  serve-Answers (unlock_zone id) e = Answers-unlock_zone h caller id
  serve-Answers (set_netdev_attrs id dev attrs) e = Answers-set_netdev_attrs h caller id dev attrs
  serve-Answers (get_netdev_attrs id dev) e = Answers-get_netdev_attrs h caller id dev
  serve-Answers (create_netdev_veth id zone_dev host_dev) e =
      Answers-create_netdev_veth h caller id zone_dev host_dev
  serve-Answers (create_netdev_macvlan id zone_dev host_dev mode) e =
      Answers-create_netdev_macvlan h caller id zone_dev host_dev mode
  serve-Answers (create_netdev_phys id dev) e = Answers-create_netdev_phys h caller id dev
  serve-Answers (destroy_netdev id dev) e = Answers-destroy_netdev h caller id dev
  serve-Answers (delete_netdev_ip_address id dev ip) e =
      Answers-delete_netdev_ip_address h caller id dev ip
  serve-Answers (declare_file id type path flags mode) e =
      Answers-declare_file h caller id type path flags mode
  serve-Answers (declare_mount id source target type flags options) e =
      Answers-declare_mount h caller id source target type flags options
  serve-Answers (declare_link id source target) e = Answers-declare_link h caller id source target
  serve-Answers (remove_declaration id item) e = Answers-remove_declaration h caller id item
  serve-Answers (create_zone id template) e = Answers-create_zone h caller id template
  serve-Answers (grant_device id device flags) e = Answers-grant_device h caller id device flags
  serve-Answers (revoke_device id device) e = Answers-revoke_device h caller id device
  serve-Answers (create_file id path flags mode) e = Answers-create_file h caller id path flags mode

  handle-Answers : (e : Event) → is_answered e ≡ true → Answers (handle h caller e)
  unfolding handle
  handle-Answers (call c) single = serve-Answers c single
  handle-Answers lock_queue single = Answers-lock_queue caller
  handle-Answers unlock_queue single = Answers-unlock_queue caller
  handle-Answers disconnect single = cc

  -- Every call of a client, those of the queue included, but for the destruction of a zone and the clean-up of the zones' path:
  -- where it returns, exactly one result was set; where an exception leaves the handler, or the process ends, none was.
  pub handle-Answered :
      (e : Event) (s : Manager × W)
      → is_answered e ≡ true
      → Answered (handle h caller e s).0 s.0.replies (handle h caller e s).1.0.replies
  handle-Answered e s single = (handle-Answers e single).answered s

  -- A client that passes the gate and asks to destroy a zone that there is not gets two results, the error for invalid ids
  -- and then success, and nothing else changes.
  pub serve-destroy_zone :
      (id : Text) (s : Manager) (w : W)
      → (s.exclusive_id_lock ≡ invalid_connection_id) ⊎ (s.exclusive_id_lock ≡ caller)
      → find_zone id s.zones ≡ none
      → serve h caller (destroy_zone id) (s, w)
        ≡ (ok tt, (record s { replies = void ∷ error invalid_id ∷ s.replies }, w))
  unfolding serve Handlers.handle_destroy_zone_call ◌>>=◌ reply
  serve-destroy_zone id s w passes unknown =
      try_add_task-admitted caller _ s w passes ∙ rw (destroy_zone-unknown h id (s, w) unknown) refl
