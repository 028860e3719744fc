-- ===== src/Lxcpp/Container/Lifecycle.antt =====
-- How a container is started, stopped and entered, and what it makes of the answers of its guard
-- (libs/lxcpp/container-impl.cpp, commands/start.cpp and commands/stop.cpp).
--
-- `start` and `stop` wait on a condition variable until the state is right, or for the given time. The wait gives up the
-- mutex, so what other threads do meanwhile are steps of their own before this one, and its result is whether the state is
-- right when it ends.
use vasum.Prelude.{
  Bool, true, false, List, [], ◌∷◌, ◌++◌, Text, lit, ◌==◌, not, if◌then◌else◌, ◌&&◌,
}
use vasum.Prelude.Int.{ℤ, pos, leb_ℤ, eq_ℤ}
use vasum.Prelude.Exec.{
  Exception, Outcome, Exec, pure, throw, gets, of_outcome, when, catch, configure, forbidden_action,
  not_implemented, process_setup, ipc, ◌>>=◌, ◌>>◌, on_world, on_part,
}
use vasum.Lxcpp.UserNamespace.{IdRange, conv_cont_to_host_id}
use vasum.Lxcpp.ContainerConfig.{
  ContainerConfig, PtysConfig, State, stopped, stopping, starting, running, connecting,
}
use vasum.Lxcpp.Container.{
  ContainerHost, Method, self, change, set_state, call_back, set_config, start_init, stop_init,
}
use vasum.Lxcpp.Container.Terminals.{prepare, revert}

abbrev pub is_stopped : State → Bool
is_stopped stopped = true
is_stopped _ = false

abbrev pub is_running : State → Bool
is_running running = true
is_running _ = false

abbrev pub is_ipc : Exception → Bool
is_ipc ipc = true
is_ipc _ = false

abbrev pub is_nil : List IdRange → Bool
is_nil [] = true
is_nil (r ∷ rs) = false

-- !uidMapSize != !gidMapSize
abbrev pub differ : Bool → Bool → Bool
differ true b = not b
differ false b = b

module _ {W : Type 0} where
  -- A command on the terminals of the configuration.
  unfoldable pub on_terminals : Exec (PtysConfig × W) (Unit {0}) → Method W (Unit {0})
  on_terminals =
      on_part (λ s. s.config.terminals)
        (λ s t. record s { config = record s.config { terminals = t } })

  -- The result of METHOD_SET_CONFIG
  unfoldable pub on_config_set : Outcome (Unit {0}) → Method W (Unit {0})
  on_config_set result = of_outcome result

  unfoldable pub freeze : Method W (Unit {0})
  freeze = throw not_implemented

  unfoldable pub unfreeze : Method W (Unit {0})
  unfreeze = throw not_implemented

  unfoldable pub reboot : Method W (Unit {0})
  reboot = throw not_implemented

module _ {W : Type 0} (h : ContainerHost W) where
  unfoldable pub container_prep : Method W (Unit {0})
  unfolding on_terminals
  container_prep = on_terminals (prepare h)

  unfoldable pub container_cleanup : Method W (Unit {0})
  unfolding on_terminals
  container_cleanup = on_terminals (revert h)

  unfoldable pub connect : Method W Bool
  connect =
      catch is_ipc (do on_world h.client_start; set_state connecting; pure true) (λ e. pure false)

  unfoldable pub on_guard_connected : ContainerConfig → Method W (Unit {0})
  on_guard_connected saved = do
    change (λ c. saved)
    callback ← gets (λ s. s.0.connected_callback)
    call_back h callback

  -- A file was made (`created`) or deleted in the work directory.
  unfoldable pub on_work_file_event : Text → Bool → Method W (Unit {0})
  on_work_file_event name created = do
    c ← self
    when (created && name == (c.name ++ lit ".socket")) (on_world h.client_start)

  -- The checks before the terminals are made.
  unfoldable pub check_config : ContainerConfig → Method W (Unit {0})
  check_config c = do
    when (differ (is_nil c.user_ns.uid_maps) (is_nil c.user_ns.gid_maps)) (throw configure)
    of_outcome (conv_cont_to_host_id c.user_ns.uid_maps 0)
    of_outcome (conv_cont_to_host_id c.user_ns.gid_maps 0)
    of_outcome (conv_cont_to_host_id c.user_ns.gid_maps c.pts_gid)
    when (c.namespaces.new_user && h.dir_name c.root_path == lit "/") (throw configure)

  -- Start::execute, in the process that calls it. The process that fork makes daemonizes and becomes the guard.
  unfoldable pub start_execute : ContainerConfig → Method W (Unit {0})
  start_execute c = do
    pid ← on_world (h.fork_daemonize c)
    status ← on_world (h.waitpid pid)
    when (not (eq_ℤ status (pos 0))) (throw process_setup)

  -- What `start` does once the configuration is checked.
  unfoldable pub launch : Method W (Unit {0})
  unfolding container_prep start_execute
  launch = do container_prep; c ← self; start_execute c

  -- What `start` does once it has set the state.
  unfoldable pub set_off : Method W (Unit {0})
  unfolding check_config launch
  set_off = do c ← self; check_config c; launch

  unfoldable pub start : Method W (Unit {0})
  unfolding set_off
  start = do
    c ← self
    when (not (is_stopped c.state)) (throw forbidden_action)
    set_state starting
    set_off

  -- The result of METHOD_START
  unfoldable pub on_init_started : Outcome ℤ → Method W (Unit {0})
  on_init_started result = do
    pid ← of_outcome result
    change (λ c. record c { init_pid = pid })
    callback ← gets (λ s. s.0.started_callback)
    if leb_ℤ pid (pos 0) then pure tt else (do set_state running; call_back h callback)

  unfoldable pub on_guard_ready : Method W (Unit {0})
  on_guard_ready = do
    c ← self
    on_world (h.call_async (set_config c))
    on_world (h.call_async start_init)

  unfoldable pub stop : Method W (Unit {0})
  stop = do
    c ← self
    when (not (is_running c.state)) (throw forbidden_action)
    set_state stopping
    on_world (h.call_async stop_init)

  unfoldable pub on_init_stopped : ℤ → Method W (Unit {0})
  unfolding container_cleanup
  on_init_stopped status = do
    change (λ c. record c { exit_status = status })
    container_cleanup
    set_state stopped
    callback ← gets (λ s. s.0.stopped_callback)
    call_back h callback

  unfoldable pub attach : List (Text × Text) → Method W ℤ
  attach env_to_set = do
    c ← self
    when (not (is_running c.state)) (throw forbidden_action)
    on_world (h.attach c ((lit "container", lit "lxcpp") ∷ env_to_set))
