-- ===== src/Server/Manager/Create/Examples.antt =====
-- The theorems on creating and destroying zones (server/zones-manager.cpp), at the host of the examples.
use vasum.Prelude.{is_some, true, ◌≡◌, refl, ◌⊎◌, [], ◌∷◌, List, Text, lit, ◌==◌}
use vasum.Prelude.Exec.{invalid_zone_id, raised, ok, ◌>>=◌, on_world, on_part}
use vasum.Server.HostSample.{sample_host, all_running, locked_manager}
use vasum.Server.Host.{Host}
use vasum.Server.Manager.{Manager, self, find_zone, on_zone, on_zones, at_zone, ask}
use vasum.Server.Manager.Names.{is_alnum, is_prohibited}
use vasum.Server.Manager.Focus.{refocus, is_running_in, zone_is_running}
use vasum.Server.Zone.{set_destroy_on_exit, is_running, on_container, on_provision}
use vasum.Server.Zone.Creation.{new_zone, delete_zone}
use vasum.Server.Provision
use vasum.Lxc.{get_state, state_of, c_call}
use vasum.Server.Manager.Shape.{Shape}
use vasum.Server.Manager.Create.{
  generate_new_config, insert_zone, create_zone, destroy_zone, save_dynamic_config,
  update_default_id,
}
use vasum.Server.Manager.Create.Refusals.{IsFree, creation, create_zone_cases}
use vasum.Server.Manager.Create.Defaults.{create_zone-HasDefault}
use vasum.Server.Manager.Create.Results.{
  Stands, create_zone-Stands, destroy_zone-Stands, destroy_zone-create_zone,
}

abbrev host : Host (List Text)
host = sample_host all_running

abbrev state : Manager × List Text
state = (record locked_manager { active_zone_id = lit "b" }, [])

created : (create_zone host (lit "c") (lit "t") state).0 ≡ ok tt
unfolding create_zone ◌>>=◌ ◌==◌ on_world is_alnum new_zone is_prohibited self find_zone
    generate_new_config insert_zone c_call save_dynamic_config update_default_id
created = refl

destroyed : (destroy_zone host (lit "a") state).0 ≡ ok tt
unfolding destroy_zone ◌>>=◌ ◌==◌ on_world delete_zone set_destroy_on_exit refocus is_running
    Provision.stop get_state state_of is_running_in zone_is_running self find_zone on_zone on_zones
    at_zone on_container c_call on_provision on_part save_dynamic_config update_default_id ask
destroyed = refl

destroyed_again :
    (destroy_zone host (lit "c") (create_zone host (lit "c") (lit "t") state).1).0 ≡ ok tt
unfolding create_zone destroy_zone ◌>>=◌ ◌==◌ on_world is_alnum new_zone is_prohibited self
    find_zone generate_new_config insert_zone c_call save_dynamic_config update_default_id
    delete_zone set_destroy_on_exit refocus is_running Provision.stop get_state state_of
    is_running_in zone_is_running on_zone on_zones at_zone on_container on_provision on_part ask
destroyed_again = refl

create_zone-Stands_example :
    Shape
      (Stands (lit "a" ∷ lit "b" ∷ lit "c" ∷ []) (lit "a" ∷ lit "b" ∷ lit "c" ∷ []) (lit "ipc1"))
      (create_zone host (lit "c") (lit "t") state).1
create_zone-Stands_example = create_zone-Stands host (lit "c") state (lit "t") created

destroy_zone-Stands_example :
    Shape (Stands (lit "b" ∷ []) (lit "b" ∷ []) (lit "ipc1")) (destroy_zone host (lit "a") state).1
unfolding ◌==◌
destroy_zone-Stands_example = destroy_zone-Stands host (lit "a") state destroyed

destroy_zone-create_zone_example :
    Shape
      (Stands (lit "a" ∷ lit "b" ∷ []) (lit "a" ∷ lit "b" ∷ []) (lit "ipc1"))
      (destroy_zone host (lit "c") (create_zone host (lit "c") (lit "t") state).1).1
unfolding ◌==◌
destroy_zone-create_zone_example =
    destroy_zone-create_zone host (lit "c") state (lit "t") (refl, (refl, tt)) (refl, (refl, tt))
      created destroyed_again

create_zone_cases_example :
    (IsFree host (lit "a") state
      × (create_zone host (lit "a") (lit "t") state
          ≡ creation host (lit "a") state (lit "t") state))
    ⊎ (¬ IsFree host (lit "a") state
        × (create_zone host (lit "a") (lit "t") state ≡ (raised invalid_zone_id, state)))
create_zone_cases_example = create_zone_cases host (lit "a") state (lit "t")

create_zone-HasDefault_example :
    is_some (
      find_zone
        (create_zone host (lit "c") (lit "t") state).1.0.dynamic.default_id
        (create_zone host (lit "c") (lit "t") state).1.0.zones)
    ≡ true
create_zone-HasDefault_example = create_zone-HasDefault host (lit "c") (lit "t") state created
