-- ===== src/Server/HostIpcConnection/Actions.antt =====
-- What drives a manager that was started (server/zones-manager.cpp, server/input-monitor.cpp, server/server.cpp): the
-- calls of its clients, the key presses and the daemon itself, one after the other.
use vasum.Prelude.{List, [], ◌∷◌, Text}
use vasum.Server.Host.{Host}
use vasum.Server.Manager.{Manager, Method}
use vasum.Server.Manager.Focus.{switching_sequence_monitor_notify}
use vasum.Server.Manager.Run.{restore_all, stop, set_zones_detach_on_exit}
use vasum.Server.HostIpcConnection.{Event, handle}

-- `keys_pressed` is the notification that the sequence of keys was recognised, which comes only while the manager or its
-- socket runs.
pub data Action : Type 0 where
  client : (caller : Text) → Event → Action
  keys_pressed restores detaches stops : Action

module _ {W : Type 0} (h : Host W) where
  unfoldable pub act : Action → Method W (Unit {0})
  act (client caller e) = handle h caller e
  act keys_pressed = switching_sequence_monitor_notify h
  act restores = restore_all h
  act detaches = set_zones_detach_on_exit h
  act stops = stop h

  -- An action that throws leaves the state that it had reached.
  unfoldable pub run : List Action → Manager × W → Manager × W
  run [] s = s
  run (a ∷ as') s = run as' (act a s).1
