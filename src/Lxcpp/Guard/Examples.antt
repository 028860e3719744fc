-- ===== src/Lxcpp/Guard/Examples.antt =====
-- The guard (libs/lxcpp/guard/guard.cpp) at concrete inputs.
use vasum.Prelude.{ℕ, ◌≡◌, refl, [], ◌∷◌, lit, none, some}
use vasum.Prelude.Int.{pos}
use vasum.Prelude.Exec.{ok, pure, ◌>>=◌, on_world, on_part}
use vasum.Lxcpp.ContainerConfig.{ContainerConfig, running, new_config}
use vasum.Lxcpp.Container.Sample.{sample_host, sample}
use vasum.Lxcpp.Container.Terminals.{prepare}
use vasum.Lxcpp.Container.Lifecycle.{on_init_started, on_guard_connected}
use vasum.Lxcpp.Guard.{
  GuardHost, Guard, pid, guard_connected, new_guard, config_of, self, deref, change, on_ptys,
}
use vasum.Lxcpp.Guard.Handlers.{on_disconnection, on_init_exit, on_start, on_connection}
use vasum.Lxcpp.Guard.Views.{Agree, on_init_started-Agree, on_guard_connected-on_init_started}

-- The world counts the terminals that were opened. Each process that is started has the number 7.
abbrev host : GuardHost ℕ
host = record {
  terminals = sample_host;
  run = λ command. pure tt;
  open_tty = λ name. pure (pos 5);
  add_fd = λ fd. pure tt;
  remove_fd = λ fd. pure tt;
  clone = λ c. pure (pos 7);
  sync_container = pure tt;
  set_proc_title = λ title. pure tt;
  setup_logger = λ c. pure tt;
  kill = λ process. pure tt;
  copy_window_size = λ from to. pure tt;
  call_host = λ peer call. pure tt;
  stop_service = pure tt;
}

abbrev config : ContainerConfig
config = record new_config {
  name = lit "box";
  terminals = record new_config.terminals {
    count = 1;
    ptys = record { master_fd = pos 3; pts_name = lit "/dev/pts/0" } ∷ [];
  };
}

abbrev ready : Guard × ℕ
ready = (record new_guard { config = some config; peer_id = lit "host" }, 0)

abbrev after_start : Guard × ℕ
after_start = (on_start host ready).1

started : on_start host ready ≡ (ok (pid (pos 7)), after_start)
unfolding on_start new_config ◌>>=◌ new_guard change on_world on_ptys on_part prepare
started = refl

on_init_started-Agree_example :
    Agree (on_init_started sample_host (ok (pos 7)) (sample, 0)).1.0 after_start.0
    × ((on_init_started sample_host (ok (pos 7)) (sample, 0)).1.0.config.state ≡ running)
on_init_started-Agree_example =
    on_init_started-Agree sample_host host ready after_start (sample, 0) (pos 7) started refl

on_guard_connected-on_init_started_example :
    (d : ContainerConfig) × (let lost = (on_disconnection (lit "host") after_start).1 in
      on_connection host (lit "peer") lost
      ≡ on_world
          (host.call_host (lit "peer") (guard_connected d))
          (record lost.0 { peer_id = lit "peer" }, lost.1))
    × (let c = (on_guard_connected sample_host d (sample, 3)).1.0.config in
        let c' = (on_init_started sample_host (ok (pos 7)) (sample, 0)).1.0.config in
        (c.state ≡ running) × (c.state ≡ c'.state) × (c.init_pid ≡ c'.init_pid))
on_guard_connected-on_init_started_example =
    on_guard_connected-on_init_started sample_host host ready after_start (lit "host") (lit "peer")
      (sample, 0) (sample, 3) (pos 7) started refl

fresh_config : new_guard.config ≡ none
unfolding new_guard
fresh_config = refl

other_process : on_init_exit host (pos 7) (pos 0) ready ≡ (ok tt, ready)
unfolding on_init_exit new_guard new_config ◌>>=◌ config_of self deref
other_process = refl
