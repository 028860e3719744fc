-- ===== src/Server/HostIpcConnection/Exclusion.antt =====
-- The exclusive lock of the queue (server/zones-manager.cpp, server/host-ipc-connection.cpp): what a client that
-- does not hold it can do.
use vasum.Prelude.{◌≡◌, ◌≢◌, Bool, true, false, List, [], ◌∷◌, Text, All}
use vasum.Prelude.Exec.{ok}
use vasum.Prelude.Keeps.{Keeps}
use vasum.Server.Host.{Host}
use vasum.Server.Manager.{Manager, invalid_connection_id, error, queue}
use vasum.Server.Manager.Shape.{Shape}
use vasum.Server.Manager.Create.Keeps.{Closed}
use vasum.Server.Manager.Focus.Keeps.{Shape-notify}
use vasum.Server.Manager.Handlers
use vasum.Server.Manager.Handlers.Parts
use vasum.Server.Manager.Handlers.Devices
use vasum.Server.Manager.Queue.Exclusion.{
  HeldBy, lock_queue-foreign, unlock_queue-foreign, disconnected-foreign, try_add_task-refused,
}
use vasum.Server.Manager.Run.Keeps.{Shape-restore_all, Shape-stop, Shape-set_zones_detach_on_exit}
use vasum.Server.HostIpcConnection.{
  call, lock_queue, unlock_queue, disconnect, ZoneCall, get_zone_ids, get_active_zone_id,
  get_zone_info, serve, handle,
}
use vasum.Server.HostIpcConnection.Keeps.{Shape-serve}
use vasum.Server.HostIpcConnection.Actions.{
  Action, client, keys_pressed, restores, detaches, stops, act, run,
}

HeldBy-Closed : (holder : Text) → Closed (HeldBy holder)
HeldBy-Closed holder = record {
  grow = λ id is records lock p not_host n. p;
  shrink = λ id is records lock p. p;
  record_ids = λ is records records' lock p. p;
}

-- The action is none of the holder's own.
abbrev pub IsForeign : Text → Action → Type 0
IsForeign holder (client caller e) = holder ≢ caller
IsForeign holder a = Unit {0}

module _ {W : Type 0} (h : Host W) (holder : Text) (held : holder ≢ invalid_connection_id) where
  act-HeldBy : (a : Action) → IsForeign holder a → Keeps (Shape {W = W} (HeldBy holder)) (act h a)
  unfolding act handle
  act-HeldBy (client caller (call c)) f =
      Shape-serve h (HeldBy holder) (HeldBy-Closed holder) caller c
  act-HeldBy (client caller lock_queue) f = lock_queue-foreign holder held caller f
  act-HeldBy (client caller unlock_queue) f = unlock_queue-foreign holder held caller f
  act-HeldBy (client caller disconnect) f = disconnected-foreign holder held caller f
  act-HeldBy keys_pressed f = Shape-notify h (HeldBy holder)
  act-HeldBy restores f = Shape-restore_all h (HeldBy holder)
  act-HeldBy detaches f = Shape-set_zones_detach_on_exit h (HeldBy holder)
  act-HeldBy stops f = Shape-stop h (HeldBy holder)

-- Once a client holds the lock of the queue, it keeps it over any actions of the daemon and of the other clients, their own
-- attempts to lock or unlock the queue and their disconnecting included.
pub run-HeldBy :
    {W : Type 0} (h : Host W) (holder : Text) (actions : List Action) (s : Manager × W)
    → holder ≢ invalid_connection_id
    → All (IsForeign holder) actions
    → s.0.exclusive_id_lock ≡ holder
    → (run h actions s).0.exclusive_id_lock ≡ holder
unfolding run
run-HeldBy h holder [] s held foreign p = p
run-HeldBy h holder (a ∷ as') s held foreign p =
    run-HeldBy h holder as' (act h a s).1 held foreign.1
      ((act-HeldBy h holder held a foreign.0).after s p)

-- All calls but the three that only ask for the zones, the active zone and a zone's state go through the gate.
abbrev pub is_gated : ZoneCall → Bool
is_gated get_zone_ids = false
is_gated get_active_zone_id = false
is_gated (get_zone_info id) = false
is_gated c = true

-- While a client holds the lock, a call of another client that goes through the gate is answered by the error of the
-- queue, and changes nothing else, neither in the manager nor in the world.
pub serve-refused :
    {W : Type 0} (h : Host W) (caller : Text) (c : ZoneCall) (s : Manager) (w : W)
    → is_gated c ≡ true
    → s.exclusive_id_lock ≢ invalid_connection_id
    → s.exclusive_id_lock ≢ caller
    → serve h caller c (s, w) ≡ (ok tt, (record s { replies = error queue ∷ s.replies }, w))
unfolding serve Handlers.handle_set_active_zone_call Handlers.handle_switch_to_default_call
    Handlers.handle_create_zone_call Handlers.handle_destroy_zone_call
    Handlers.handle_shutdown_zone_call Handlers.handle_start_zone_call
    Handlers.handle_lock_zone_call Handlers.handle_unlock_zone_call
    Handlers.handle_clean_up_zones_root_call Parts.handle_set_netdev_attrs_call
    Parts.handle_get_netdev_attrs_call Parts.handle_get_netdev_list_call
    Parts.handle_create_netdev_veth_call Parts.handle_create_netdev_macvlan_call
    Parts.handle_create_netdev_phys_call Parts.handle_destroy_netdev_call
    Parts.handle_delete_netdev_ip_address_call Parts.handle_declare_file_call
    Parts.handle_declare_mount_call Parts.handle_declare_link_call
    Parts.handle_get_declarations_call Parts.handle_remove_declaration_call
    Parts.handle_create_file_call Devices.handle_grant_device_call Devices.handle_revoke_device_call
serve-refused h caller get_zone_ids s w gated held other = cc
serve-refused h caller get_active_zone_id s w gated held other = cc
serve-refused h caller (get_zone_info id) s w gated held other = cc
serve-refused h caller _ s w gated held other = try_add_task-refused caller _ s w held other
