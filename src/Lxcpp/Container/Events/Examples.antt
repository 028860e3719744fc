-- ===== src/Lxcpp/Container/Events/Examples.antt =====
-- Containers (libs/lxcpp/container-impl.cpp) at concrete inputs.
use vasum.Prelude.{ℕ, ◌+◌, ◌≡◌, ◌≢◌, ◌⊎◌, refl, List, [], ◌∷◌, ◌++◌, lit, length, ◌==◌}
use vasum.Prelude.Int.{pos}
use vasum.Prelude.Exec.{
  on_part, on_world, Outcome, ok, raised, configure, forbidden_action, ◌>>=◌, on_world,
}
use vasum.Lxcpp.UserNamespace.{IdRange, conv_cont_to_host_id}
use vasum.Lxcpp.ContainerConfig.{starting, PtysConfig, PtyConfig, stopped, new_config}
use vasum.Lxcpp.Container.{self, set_state, Container, new_container}
use vasum.Lxcpp.Container.Sample.{sample_host, sample_config, sample}
use vasum.Lxcpp.Container.Terminals.{prepare, revert}
use vasum.Lxcpp.Container.Stale.{prepare_twice}
use vasum.Lxcpp.Container.Settings.{gid_map_call}
use vasum.Lxcpp.Container.Lifecycle.{start, stop}
use vasum.Lxcpp.Container.Events.{
  Event, set_up_call, start_call, stop_call, connect_call, init_started, init_stopped, run_events,
}
use vasum.Lxcpp.Container.Events.Moves.{Walks, observed, begun, run_events-Walks}
use vasum.Lxcpp.Container.Events.Launching.{Launched, start_ends}
use vasum.Lxcpp.Container.Events.Starting.{IsReady, start_blocks}
use vasum.Lxcpp.Container.Sound.{IsSound}
use vasum.Lxcpp.Container.Events.Invariant.{run_events-IsSound}

abbrev whole_life : List Event
whole_life =
    start_call ∷ init_started (ok (pos 4)) ∷ stop_call ∷ init_stopped (pos 0) ∷ connect_call ∷ []

run_events-Walks_example :
    Walks
      (observed sample_host whole_life (sample, 0))
      stopped
      (run_events sample_host whole_life (sample, 0)).0.config.state
unfolding new_config
run_events-Walks_example = run_events-Walks sample_host whole_life (sample, 0)

-- Only users are mapped.
abbrev half_mapped : Container
half_mapped = record sample {
  config = record sample_config {
    user_ns = record {
      uid_maps = record { cont_id = 0; host_id = 1000; num = 10 } ∷ [];
      gid_maps = [];
    };
  };
}

half_mapped-unready : ¬ IsReady sample_host half_mapped.config
half_mapped-unready r = cc (r.both)

abbrev group_range : IdRange
group_range = record { cont_id = 0; host_id = 1000; num = 10 }

abbrev repair : List Event
repair = set_up_call (gid_map_call group_range) ∷ start_call ∷ []

start_blocks_example :
    let t = run_events sample_host repair (start sample_host (half_mapped, 0)).1 in
    ((start sample_host (half_mapped, 0)).0 ≡ raised configure)
    × (start sample_host t ≡ (raised forbidden_action, t))
    × (stop sample_host t ≡ (raised forbidden_action, t))
unfolding new_config
start_blocks_example =
    start_blocks sample_host (half_mapped, 0) repair refl half_mapped-unready (tt, (tt, tt))

abbrev two_wanted : Container
two_wanted = record sample {
  config = record sample_config { terminals = record sample_config.terminals { count = 2 } };
}

abbrev launched : Container × ℕ
launched = (start sample_host (two_wanted, 0)).1

is_launched : start sample_host (two_wanted, 0) ≡ (ok tt, launched)
unfolding start ◌>>=◌ new_config self set_state conv_cont_to_host_id on_part prepare on_world
is_launched = refl

start_ends_example :
    ((two_wanted.config.state ≢ stopped)
      × ◌≡◌ {A = Outcome (Unit {0})} (ok tt) (raised forbidden_action)
      × (launched ≡ (two_wanted, 0)))
    ⊎ ((two_wanted.config.state ≡ stopped)
        × (¬ IsReady sample_host two_wanted.config)
        × ◌≡◌ {A = Outcome (Unit {0})} (ok tt) (raised configure)
        × (launched ≡ begun sample_host (two_wanted, 0)))
    ⊎ ((two_wanted.config.state ≡ stopped)
        × IsReady sample_host two_wanted.config
        × ((◌≡◌ {A = Outcome (Unit {0})} (ok tt) (ok tt)
              × Launched sample_host (two_wanted, 0) launched)
            ⊎ (◌≢◌ {A = Outcome (Unit {0})} (ok tt) (ok tt)
                × (launched.0.config.state ≡ starting))))
start_ends_example = start_ends sample_host (two_wanted, 0) launched (ok tt) is_launched

made : new_container sample_host (lit "box") (lit "/root") (lit "/work") 0 ≡ (ok sample, 2)
unfolding new_container ◌>>=◌ ◌==◌
made = refl

run_events-IsSound_example : IsSound (run_events sample_host whole_life (sample, 2)).0.config
run_events-IsSound_example =
    run_events-IsSound sample_host (lit "box") (lit "/root") (lit "/work") 0 2 sample whole_life
      made (tt, (tt, (tt, (tt, (tt, tt)))))

abbrev no_ptys : PtysConfig
no_ptys = record { count = 1; uid = 0; devpts_path = []; ptys = [] }

abbrev pty : ℕ → PtyConfig
pty fd = record { master_fd = pos fd; pts_name = lit "/dev/pts/0" }

abbrev one_pty : PtysConfig
one_pty = record no_ptys { ptys = pty 3 ∷ [] }

abbrev two_ptys : PtysConfig
two_ptys = record no_ptys { ptys = pty 3 ∷ pty 5 ∷ [] }

first_time : prepare sample_host (no_ptys, 3) ≡ (ok tt, (one_pty, 4))
unfolding prepare ◌>>=◌ on_world
first_time = refl

closed : revert sample_host (one_pty, 4) ≡ (ok tt, (one_pty, 5))
unfolding revert ◌>>=◌ on_world
closed = refl

second_time : prepare sample_host (one_pty, 5) ≡ (ok tt, (two_ptys, 6))
unfolding prepare ◌>>=◌ on_world
second_time = refl

prepare_twice_example :
    (old new : List PtyConfig) × (one_pty.ptys ≡ no_ptys.ptys ++ old)
    × (two_ptys.ptys ≡ one_pty.ptys ++ new)
    × (length two_ptys.ptys ≡ length no_ptys.ptys + no_ptys.count + no_ptys.count)
prepare_twice_example =
    prepare_twice sample_host (no_ptys, 3) (one_pty, 4) (one_pty, 5) (two_ptys, 6) first_time closed
      second_time
