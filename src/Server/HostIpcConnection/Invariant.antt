-- ===== src/Server/HostIpcConnection/Invariant.antt =====
-- What stays true of the manager whatever its clients and the daemon do (server/host-ipc-connection.cpp,
-- server/zones-manager.cpp): which zones there can be.
use vasum.Prelude.{List, [], ◌∷◌, Text}
use vasum.Prelude.Keeps.{Keeps}
use vasum.Server.Host.{Host, ZonesManagerDynamicConfig}
use vasum.Server.Manager.{Manager, ZonesManagerConfig, new_manager, host_id}
use vasum.Server.Manager.Shape.{Shape}
use vasum.Server.Manager.Ids.{
  NotIn, Distinct, NotIn-append, Distinct-append, NotIn-drop_id, Distinct-drop_id,
}
use vasum.Server.Manager.Create.Keeps.{Closed}
use vasum.Server.Manager.Focus.Keeps.{Shape-notify}
use vasum.Server.Manager.Run.{start}
use vasum.Server.Manager.Run.Keeps.{
  Shape-start, Shape-restore_all, Shape-stop, Shape-set_zones_detach_on_exit,
}
use vasum.Server.HostIpcConnection.{call, lock_queue, unlock_queue, disconnect, handle}
use vasum.Server.HostIpcConnection.Actions.{
  Action, client, keys_pressed, restores, detaches, stops, act, run,
}
use vasum.Server.HostIpcConnection.Keeps.{Shape-serve}
use vasum.Server.Manager.Queue.Keeps.{Shape-lock_queue, Shape-unlock_queue, Shape-disconnected}

-- The ids of the zones are distinct, and none of them is the host's.
abbrev pub IsSound : List Text → List Text → Text → Type 0
IsSound is records lock = Distinct is × NotIn host_id is

IsSound-Closed : Closed IsSound
IsSound-Closed = record {
  grow = λ id is records lock p not_host n.
      (Distinct-append id is p.0 n, NotIn-append host_id id is p.1 not_host);
  shrink = λ id is records lock p. (Distinct-drop_id id is p.0, NotIn-drop_id host_id id is p.1);
  record_ids = λ is records records' lock p. p;
}

module _ {W : Type 0} (h : Host W) where
  act-IsSound : (a : Action) → Keeps (Shape {W = W} IsSound) (act h a)
  unfolding act handle
  act-IsSound (client caller (call c)) = Shape-serve h IsSound IsSound-Closed caller c
  act-IsSound (client caller lock_queue) =
      Shape-lock_queue IsSound caller (λ is records lock lock' p. p)
  act-IsSound (client caller unlock_queue) =
      Shape-unlock_queue IsSound caller (λ is records lock lock' p. p)
  act-IsSound (client caller disconnect) =
      Shape-disconnected IsSound caller (λ is records lock lock' p. p)
  act-IsSound keys_pressed = Shape-notify h IsSound
  act-IsSound restores = Shape-restore_all h IsSound
  act-IsSound detaches = Shape-set_zones_detach_on_exit h IsSound
  act-IsSound stops = Shape-stop h IsSound

  run-IsSound :
      (as' : List Action) (s : Manager × W) → Shape IsSound s → Shape IsSound (run h as' s)
  unfolding run
  run-IsSound [] s p = p
  run-IsSound (a ∷ as') s p = run-IsSound as' (act h a s).1 ((act-IsSound a).after s p)

-- Whatever the host's calls do, after a new manager was started and then any actions, each of which may return, throw or
-- crash on the way: no two zones of the manager have the same id, and no zone has the id of the host.
pub run-start-IsSound :
    {W : Type 0} (h : Host W) (config : ZonesManagerConfig) (dynamic : ZonesManagerDynamicConfig)
    (w : W) (actions : List Action)
    → Shape IsSound (run h actions (start h (new_manager config dynamic, w)).1)
run-start-IsSound h config dynamic w actions =
    run-IsSound h actions _
      ((Shape-start h IsSound IsSound-Closed).after (new_manager config dynamic, w) (tt, tt))
