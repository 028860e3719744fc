-- ===== src/Lxcpp/Guard/Handlers.antt =====
-- The handlers of the guard (libs/lxcpp/guard/guard.cpp).
use vasum.Prelude.{ℕ, List, [], ◌∷◌, ◌++◌, Text, lit, Option, none, some, if◌then◌else◌}
use vasum.Prelude.Int.{ℤ, eq_ℤ}
use vasum.Prelude.Exec.{pure, crash, of_outcome, catch, is_exception, ◌>>=◌, ◌>>◌, on_world}
use vasum.Lxcpp.UserNamespace.{conv_cont_to_host_id}
use vasum.Lxcpp.ContainerConfig.{ContainerConfig, PtyConfig, stopped, stopping, starting, running}
use vasum.Lxcpp.Container.Terminals.{prepare, revert}
use vasum.Lxcpp.Relay.{new_relay}
use vasum.Lxcpp.Guard.{
  GuardHost, Method, Command, prep_dev_fs, revert_dev_fs, provide, unprovide, make_cgroups,
  setup_user_ns, create_networks, setup_smack_ns, assign_cgroups, guard_ready, guard_connected,
  init_stopped, Reply, void, set_config_error, pid, saved, replicate, nth, master_fds, deref, self,
  config_of, update, change, on_ptys,
}

module _ {W : Type 0} where
  unfoldable pub on_disconnection : Text → Method W (Unit {0})
  on_disconnection peer = update (λ g. record g { peer_id = [] })

  unfoldable pub on_get_config : Method W Reply
  on_get_config = do g ← self; pure (saved g.config)

  -- The end of onStart, after the container is set up.
  unfoldable pub report_running : Method W Reply
  report_running = do
    change (λ c. record c { state = running })
    c ← config_of
    pure (pid c.init_pid)

module _ {W : Type 0} (h : GuardHost W) where
  unfoldable pub command : (ContainerConfig → Command) → Method W (Unit {0})
  command make = do c ← config_of; on_world (h.run (make c))

  -- Each terminal of the container is paired with the one of the host that has its index.
  unfoldable pub register : List ℤ → List PtyConfig → Method W (Unit {0})
  register [] impls = pure tt
  register (fd ∷ fds) [] = crash
  register (fd ∷ fds) (impl ∷ impls) = do
    impl_fd ← on_world (h.open_tty impl.pts_name)
    update (λ g. record g { impl_slave_fds = g.impl_slave_fds ++ impl_fd ∷ [] })
    on_world (h.add_fd fd)
    on_world (h.add_fd impl_fd)
    register fds impls

  unfoldable pub prep_pre_clone : Method W (Unit {0})
  unfolding command register
  prep_pre_clone = do
    command prep_dev_fs
    on_ptys (prepare h.terminals)
    command provide
    command make_cgroups
    update (λ g. record g { relays = replicate g.ptys.count new_relay })
    g ← self
    c ← config_of
    register (master_fds g.ptys.ptys) c.terminals.ptys

  unfoldable pub prep_post_clone : Method W (Unit {0})
  unfolding command
  prep_post_clone = do
    command setup_user_ns
    command create_networks
    command setup_smack_ns
    command assign_cgroups

  unfoldable pub unregister : List ℤ → List ℤ → Method W (Unit {0})
  unregister [] impls = pure tt
  unregister (fd ∷ fds) [] = crash
  unregister (fd ∷ fds) (impl_fd ∷ impls) = do
    on_world (h.remove_fd fd)
    on_world (h.remove_fd impl_fd)
    unregister fds impls

  unfoldable pub cleanup : Method W (Unit {0})
  unfolding command unregister
  cleanup = do
    g ← self
    unregister (master_fds g.ptys.ptys) g.impl_slave_fds
    command unprovide
    on_ptys (revert h.terminals)
    command revert_dev_fs

  -- What a new peer is told: that the guard waits for a configuration, or the one that it has.
  unfoldable pub greet : Text → Option ContainerConfig → Method W (Unit {0})
  greet peer none = on_world (h.call_host peer guard_ready)
  greet peer (some c) = on_world (h.call_host peer (guard_connected c))

  unfoldable pub on_connection : Text → Method W (Unit {0})
  unfolding greet
  on_connection peer = do update (λ g. record g { peer_id = peer }); g ← self; greet peer g.config

  -- The rest of onInitExit, where the process is init.
  unfoldable pub init_exited : ℤ → Method W (Unit {0})
  unfolding cleanup
  init_exited status = do
    cleanup
    change (λ c. record c { state = stopped })
    g ← self
    on_world (h.call_host g.peer_id (init_stopped status))
    on_world h.stop_service

  unfoldable pub on_init_exit : (process status : ℤ) → Method W (Unit {0})
  unfolding init_exited
  on_init_exit process status = do
    c ← config_of
    if eq_ℤ c.init_pid process then init_exited status else pure tt

  -- The rest of onSetConfig, once the configuration and the number of terminals are set.
  unfoldable pub set_up_terminals : ContainerConfig → Method W Reply
  set_up_terminals c = do
    uid ← of_outcome (conv_cont_to_host_id c.user_ns.uid_maps 0)
    update (λ g. record g {
      ptys = record g.ptys {
        uid = uid;
        devpts_path = h.terminals.path_in c.work_path (c.name ++ lit ".devpts");
      };
    })
    catch is_exception (do on_world (h.setup_logger c.logger); pure void)
        (λ e. pure set_config_error)

  unfoldable pub on_set_config : ContainerConfig → Method W Reply
  unfolding set_up_terminals
  on_set_config c = do
    update (λ g. record g { config = some c; ptys = record g.ptys { count = c.terminals.count } })
    set_up_terminals c

  unfoldable pub set_title : Method W (Unit {0})
  set_title =
      catch is_exception
        (do
          c ← config_of
          on_world (h.set_proc_title (lit "[LXCPP] " ++ c.name ++ lit " " ++ c.root_path)))
        (λ e. pure tt)

  unfoldable pub on_start : Method W Reply
  unfolding set_title prep_pre_clone prep_post_clone report_running
  on_start = do
    change (λ c. record c { state = starting })
    set_title
    prep_pre_clone
    c ← config_of
    init ← on_world (h.clone c)
    change (λ d. record d { init_pid = init })
    prep_post_clone
    on_world h.sync_container
    report_running

  unfoldable pub on_stop : Method W Reply
  on_stop = do
    change (λ c. record c { state = stopping })
    c ← config_of
    on_world (h.kill c.init_pid)
    pure void

  unfoldable pub on_resize_term : ℕ → Method W Reply
  on_resize_term i = do
    g ← self
    impl_fd ← deref (nth g.impl_slave_fds i)
    cont_fd ← deref (nth (master_fds g.ptys.ptys) i)
    on_world (h.copy_window_size impl_fd cont_fd)
    pure void
