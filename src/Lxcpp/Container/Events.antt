-- ===== src/Lxcpp/Container/Events.antt =====
-- All that happens to a container (libs/lxcpp/container-impl.cpp): the calls of its owner and the messages of its guard.
pub mod Moves
pub mod Starting
pub mod Launching
pub mod Invariant
mod Examples
use vasum.Prelude.{Bool, List, [], ◌∷◌, Text}
use vasum.Prelude.Int.{ℤ}
use vasum.Prelude.Exec.{Outcome, Exec, pure, ◌>>=◌, ◌>>◌}
use vasum.Lxcpp.ContainerConfig.{ContainerConfig}
use vasum.Lxcpp.Container.{ContainerHost, Container, Method}
use vasum.Lxcpp.Container.Settings.{Setting, set_up}
use vasum.Lxcpp.Container.Lifecycle.{
  connect, on_guard_connected, on_work_file_event, start, on_config_set, on_init_started,
  on_guard_ready, stop, on_init_stopped, freeze, unfreeze, reboot, attach,
}

pub data Event : Type 0 where
  set_up_call : Setting → Event
  connect_call start_call stop_call freeze_call unfreeze_call reboot_call : Event
  attach_call : List (Text × Text) → Event
  guard_connected : ContainerConfig → Event
  work_file : Text → Bool → Event
  config_set : Outcome (Unit {0}) → Event
  init_started : Outcome ℤ → Event
  guard_ready : Event
  init_stopped : ℤ → Event

module _ {W : Type 0} (h : ContainerHost W) where
  unfoldable pub act : Event → Method W (Unit {0})
  act (set_up_call s) = set_up h s
  act connect_call = do connect h; pure tt
  act start_call = start h
  act stop_call = stop h
  act freeze_call = freeze
  act unfreeze_call = unfreeze
  act reboot_call = reboot
  act (attach_call env) = do attach h env; pure tt
  act (guard_connected c) = on_guard_connected h c
  act (work_file name created) = on_work_file_event h name created
  act (config_set r) = on_config_set r
  act (init_started r) = on_init_started h r
  act guard_ready = on_guard_ready h
  act (init_stopped status) = on_init_stopped h status

  -- An exception leaves what is running, and a later event finds the state that it left.
  unfoldable pub run_events : List Event → Container × W → Container × W
  unfolding act
  run_events [] s = s
  run_events (e ∷ es) s = run_events es (act e s).1
