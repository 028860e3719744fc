-- ===== src/Lxcpp/Container/Events/Invariant.antt =====
-- What the methods of a container keep true of its configuration (libs/lxcpp/container-impl.cpp).
use vasum.Prelude.{◌≡◌, inl, refl, Bool, true, false, List, [], ◌∷◌, Text, is_empty, arith, All}
use vasum.Prelude.Exec.{Exception, ok, Exec, throw, when, ◌>>=◌, ◌>>◌}
use vasum.Prelude.Keeps.{Keeps}
use vasum.Prelude.Returns.{Returns, Returns-pure, Returns-bind}
use vasum.Lxcpp.ContainerConfig.{new_config}
use vasum.Lxcpp.Container.{ContainerHost, Container, new_container, first_config}
use vasum.Lxcpp.Container.Keeps.{
  OnConfig, OnConfig-change, OnConfig-set_state, OnConfig-container_prep,
  OnConfig-container_cleanup, config_rules,
}
use vasum.Lxcpp.Container.Lifecycle.{
  connect, on_guard_connected, on_work_file_event, check_config, start_execute, launch, set_off,
  start, on_config_set, on_init_started, on_guard_ready, stop, on_init_stopped, freeze, unfreeze,
  reboot, attach,
}
use vasum.Lxcpp.Container.Events.{
  Event, set_up_call, connect_call, start_call, stop_call, freeze_call, unfreeze_call, reboot_call,
  attach_call, guard_connected, work_file, config_set, init_started, guard_ready, init_stopped, act,
  run_events,
}
use vasum.Lxcpp.Container.Sound.{IsSound, terminals_changed, set_up-IsSound}

-- What another guard reports is a sound configuration.
abbrev pub IsTrusted : Event → Type 0
IsTrusted (guard_connected c) = IsSound c
IsTrusted _ = Unit

module _ {W : Type 0} (h : ContainerHost W) where
  launch-IsSound : Keeps (OnConfig {W = W} IsSound) (launch h)
  unfolding launch start_execute
  launch-IsSound = search (config_rules, OnConfig-container_prep IsSound terminals_changed) depth 12

  act-Keeps : (e : Event) → IsTrusted e → Keeps (OnConfig {W = W} IsSound) (act h e)
  unfolding act connect start set_off check_config stop freeze unfreeze reboot attach
      on_work_file_event on_guard_connected on_config_set on_init_started on_guard_ready
      on_init_stopped
  act-Keeps (set_up_call x) u = set_up-IsSound h x
  act-Keeps connect_call u = search (config_rules, OnConfig-set_state IsSound) depth 14
  act-Keeps start_call u =
      search (config_rules, OnConfig-set_state IsSound, launch-IsSound) depth 14
  act-Keeps stop_call u = search (config_rules, OnConfig-set_state IsSound) depth 14
  act-Keeps freeze_call u = search config_rules depth 14
  act-Keeps unfreeze_call u = search config_rules depth 14
  act-Keeps reboot_call u = search config_rules depth 14
  act-Keeps (attach_call env) u = search config_rules depth 14
  act-Keeps (guard_connected c) u =
      search (config_rules, OnConfig-change IsSound (λ _. c) (λ d p. u)) depth 14
  act-Keeps (work_file n c) u = search config_rules depth 14
  act-Keeps (config_set r) u = search config_rules depth 14
  act-Keeps (init_started r) u =
      search (config_rules, OnConfig-set_state IsSound, OnConfig-change IsSound) depth 14
  act-Keeps guard_ready u = search config_rules depth 14
  act-Keeps (init_stopped status) u =
      search
        (
          config_rules,
          OnConfig-set_state IsSound,
          OnConfig-change IsSound,
          OnConfig-container_cleanup IsSound terminals_changed,
        )
        depth 14

  run_events-keeps :
      (es : List Event) (s : Container × W)
      → All IsTrusted es
      → IsSound s.0.config
      → IsSound (run_events h es s).0.config
  unfolding run_events
  run_events-keeps [] s u p = p
  run_events-keeps (e ∷ es) s (u, us) p =
      run_events-keeps es (act h e s).1 us ((act-Keeps e u).after s p)

  Returns-guarded :
      {S A : Type 0} {Q : A → Type 0} (b : Bool) (e : Exception) (m : Exec S A)
      → (b ≡ false → Returns Q m)
      → Returns Q (do when b (throw e); m)
  unfolding ◌>>=◌
  Returns-guarded true e m k = record { result = λ s t a r. cc }
  Returns-guarded false e m k = record { result = λ s t a r. (k refl).result s t a r }

  first-IsSound :
      (name root_path work_path socket_path : Text)
      → is_empty name ≡ false
      → IsSound (first_config name root_path work_path socket_path)
  unfolding new_config
  first-IsSound name root_path work_path socket_path e = record {
    mapped = inl (refl, refl);
    few_uids = omega arith;
    few_gids = omega arith;
    named = ground (arith, e);
    terminal = omega arith;
    distinct = record { of_files = tt; of_mounts = tt; of_links = tt };
  }

  new_container-IsSound :
      (name root_path work_path : Text)
      → Returns (λ c. IsSound c.config) (new_container h name root_path work_path)
  unfolding new_container
  new_container-IsSound name root_path work_path = Returns-guarded (is_empty name) _ _ (λ some'.
      let sound = λ (p : Text). first-IsSound name root_path work_path p some' in
      search (Returns-bind, Returns-pure, sound) depth 12)

  -- A container that was made, and then any events, of which a connection to a guard reports a sound configuration: whatever
  -- the calls to the outside do, the configuration is sound. It has a host name and a terminal, maps at most five ranges of
  -- users and five of groups, and only in a user namespace, and declares nothing twice.
  pub run_events-IsSound :
      (name root_path work_path : Text) (w w' : W) (c : Container) (es : List Event)
      → new_container h name root_path work_path w ≡ (ok c, w')
      → All IsTrusted es
      → IsSound (run_events h es (c, w')).0.config
  run_events-IsSound name root_path work_path w w' c es e u =
      run_events-keeps es (c, w') u
        ((new_container-IsSound name root_path work_path).result w w' c e)
