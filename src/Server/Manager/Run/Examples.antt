-- ===== src/Server/Manager/Run/Examples.antt =====
-- The theorems on starting the manager (server/zones-manager.cpp), at the host of the examples.
use vasum.Prelude.{◌≡◌, refl, [], ◌∷◌, List, Text, lit, ◌==◌}
use vasum.Prelude.Exec.{ok, ◌>>=◌, on_world}
use vasum.Server.HostSample.{sample_host, all_running, manager_config, manager_dynamic}
use vasum.Server.Host.{Host}
use vasum.Server.Manager.{Manager, new_manager, self, find_zone, invalid_connection_id}
use vasum.Server.Manager.Shape.{Shape}
use vasum.Server.Manager.Create.Results.{Stands}
use vasum.Server.Manager.Create.{insert_zone, update_default_id}
use vasum.Server.Manager.Names.{clean_up_unknowns_from_root}
use vasum.Server.Zone.Creation.{new_zone}
use vasum.Lxc.{c_call}
use vasum.Server.Manager.Run.{start}
use vasum.Server.Manager.Run.Results.{start-Stands}

abbrev host : Host (List Text)
host = sample_host all_running

abbrev state : Manager × List Text
state = (new_manager manager_config manager_dynamic, [])

started : (start host state).0 ≡ ok tt
unfolding start ◌>>=◌ ◌==◌ on_world new_zone self find_zone insert_zone c_call update_default_id
    clean_up_unknowns_from_root
started = refl

start-Stands_example :
    Shape
      (Stands (lit "a" ∷ lit "b" ∷ []) (lit "a" ∷ lit "b" ∷ []) invalid_connection_id)
      (start host state).1
start-Stands_example = start-Stands host state refl started
