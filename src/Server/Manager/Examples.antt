-- ===== src/Server/Manager/Examples.antt =====
-- The theorems on the manager's choices (server/zones-manager.cpp), at the host of the examples.
use vasum.Prelude.{◌≡◌, refl, [], ◌∷◌, List, Text, lit, some, arith, ◌==◌, if◌then◌else◌}
use vasum.Prelude.Int.{pos}
use vasum.Prelude.Exec.{ok, ◌>>=◌, on_world}
use vasum.Prelude.Decimal.{to_string}
use vasum.Lxc.{set_cgroup, c_call, get_state, state_of, State, stopped, running, state_name}
use vasum.Server.Host.{Host}
use vasum.Server.HostSample.{sample_host, sample_zone, locked_manager}
use vasum.Server.Manager.{
  Manager, find_zone, self, ask, on_zone, on_zones, at_zone, for_each_zone, each_zone,
  set_active_zone_id,
}
use vasum.Server.Manager.Focus.{
  find_first, is_running_in, zone_is_running, circular_find_next, refocus, focus_internal,
  get_next_to_foreground_zone, index_of,
}
use vasum.Server.Manager.Focus.Circular.{circular_find_next-find_if}
use vasum.Server.Manager.Focus.Target.{
  runs, zone_is_running-runs, next_of, get_next_to_foreground_zone-next_of,
}
use vasum.Server.Manager.Focus.Change.{Refocused, refocus-Refocused}
use vasum.Server.Manager.VirtualTerminals.{get_vt_for_new_zone}
use vasum.Server.Manager.VirtualTerminals.Choice.{IsChoice, get_vt_for_new_zone-IsChoice}
use vasum.Server.Zone.{
  Zone, is_running, on_container, activate_vt, go_foreground, go_background, set_scheduler_level,
  set_scheduler_params,
}

abbrev zones : List Zone
zones =
    sample_zone (lit "a") (pos 2)
    ∷ sample_zone (lit "b") (pos 3)
    ∷ sample_zone (lit "c") (pos 4)
    ∷ []

-- The zone b runs, and no other.
abbrev only_b : Text → State
only_b id = if id == lit "b" then running else stopped

abbrev host : Host (List Text)
host = sample_host (λ id. state_name (only_b id))

abbrev manager : Manager
manager = record locked_manager { zones = zones }

-- The search starts behind the last zone.
circular_find_next-find_if_example :
    circular_find_next (zone_is_running host) zones (some 2) []
    ≡ (ok (some (sample_zone (lit "b") (pos 3))), [])
unfolding ◌==◌
circular_find_next-find_if_example =
    circular_find_next-find_if (zone_is_running host) (runs only_b) [] zones 2
      (zone_is_running-runs host [] only_b (λ id. refl)) (omega arith)

-- The active zone a, which is the default zone too, is down, and the zone b runs.
refocused : refocus host (manager, []) ≡ (ok tt, (refocus host (manager, [])).1)
unfolding ◌==◌ find_zone refocus ◌>>=◌ find_first focus_internal self is_running_in on_world ask
    is_running on_container get_state state_of on_zone on_zones at_zone activate_vt go_foreground
    go_background set_scheduler_level set_scheduler_params set_cgroup to_string c_call for_each_zone
    each_zone set_active_zone_id
refocused = refl

refocus-Refocused_example :
    Refocused host [] only_b (λ id. refl) manager (refocus host (manager, [])).1
refocus-Refocused_example =
    refocus-Refocused host [] only_b (λ id. refl) manager (refocus host (manager, [])).1 refocused

get_next_to_foreground_zone-next_of_example :
    get_next_to_foreground_zone host (manager, [])
    ≡ (ok (next_of host [] only_b (λ id. refl) zones (index_of (lit "a") zones)), (manager, []))
get_next_to_foreground_zone-next_of_example =
    get_next_to_foreground_zone-next_of host [] only_b (λ id. refl) manager

get_vt_for_new_zone-IsChoice_example :
    IsChoice
      (pos 5 ∷ pos 3 ∷ pos 1 ∷ [])
      zones
      (get_vt_for_new_zone (pos 5 ∷ pos 3 ∷ pos 1 ∷ []) zones)
get_vt_for_new_zone-IsChoice_example =
    get_vt_for_new_zone-IsChoice (pos 5) (pos 3 ∷ pos 1 ∷ []) zones
