-- ===== src/Server/HostIpcConnection/Examples.antt =====
-- The theorems on clients and the manager, at a host that logs its calls.
use vasum.Prelude.{inr, none, ◌==◌, ◌≡◌, ◌≢◌, refl, List, [], ◌∷◌, lit, arith, ap, get_or}
use vasum.Prelude.Exec.{ok}
use vasum.Server.HostSample.{
  sample_host, all_running, manager_config, manager_dynamic, locked_manager,
}
use vasum.Server.Manager.{
  invalid_connection_id, new_manager, error, queue, void, invalid_id, find_zone,
}
use vasum.Server.Manager.Ids.{NotIn-find_zone}
use vasum.Server.Manager.Replies.{Answered}
use vasum.Server.HostIpcConnection.Answers.{handle-Answered, serve-destroy_zone}
use vasum.Server.Manager.Run.{start}
use vasum.Server.Manager.Shape.{Shape}
use vasum.Server.HostIpcConnection.{
  call, lock_queue, unlock_queue, disconnect, create_zone, destroy_zone, serve, handle,
}
use vasum.Server.HostIpcConnection.Actions.{Action, client, keys_pressed, stops, run}
use vasum.Server.HostIpcConnection.Invariant.{IsSound, run-start-IsSound}
use vasum.Server.HostIpcConnection.Exclusion.{run-HeldBy, serve-refused}

abbrev a_day : List Action
a_day =
    client (lit "ipc2") (call (create_zone (lit "c") (lit "t")))
    ∷ client (lit "ipc2") (call (destroy_zone (lit "a")))
    ∷ keys_pressed
    ∷ stops
    ∷ []

run-start-IsSound_example : Shape IsSound (
    run
      (sample_host all_running)
      a_day
      (start (sample_host all_running) (new_manager manager_config manager_dynamic, [])).1)
run-start-IsSound_example =
    run-start-IsSound (sample_host all_running) manager_config manager_dynamic [] a_day

-- Texts that differ at the place that is read.
ipc1≢invalid : lit "ipc1" ≢ invalid_connection_id
ipc1≢invalid e = omega (arith, ap (λ t. get_or t 1 0) e)

ipc1≢ipc2 : lit "ipc1" ≢ lit "ipc2"
ipc1≢ipc2 e = omega (arith, ap (λ t. get_or t 3 0) e)

abbrev attempts : List Action
attempts =
    client (lit "ipc2") lock_queue
    ∷ client (lit "ipc2") unlock_queue
    ∷ client (lit "ipc2") disconnect
    ∷ keys_pressed
    ∷ []

run-HeldBy_example :
    (run (sample_host all_running) attempts (locked_manager, [])).0.exclusive_id_lock ≡ lit "ipc1"
run-HeldBy_example =
    run-HeldBy (sample_host all_running) (lit "ipc1") attempts (locked_manager, []) ipc1≢invalid
      (ipc1≢ipc2, (ipc1≢ipc2, (ipc1≢ipc2, (tt, tt)))) refl

serve-refused_example :
    serve (sample_host all_running) (lit "ipc2") (destroy_zone (lit "a")) (locked_manager, [])
    ≡ (ok tt, (record locked_manager { replies = error queue ∷ [] }, []))
serve-refused_example =
    serve-refused (sample_host all_running) (lit "ipc2") (destroy_zone (lit "a")) locked_manager []
      refl ipc1≢invalid ipc1≢ipc2

handle-Answered_example :
    Answered
      (handle (sample_host all_running) (lit "ipc1") lock_queue (locked_manager, [])).0
      []
      (handle (sample_host all_running) (lit "ipc1") lock_queue (locked_manager, [])).1.0.replies
handle-Answered_example =
    handle-Answered (sample_host all_running) (lit "ipc1") lock_queue (locked_manager, []) refl

no_zone_z : find_zone (lit "z") locked_manager.zones ≡ none
unfolding ◌==◌
no_zone_z = NotIn-find_zone (lit "z") locked_manager.zones (refl, (refl, tt))

serve-destroy_zone_example :
    serve (sample_host all_running) (lit "ipc1") (destroy_zone (lit "z")) (locked_manager, [])
    ≡ (ok tt, (record locked_manager { replies = void ∷ error invalid_id ∷ [] }, []))
serve-destroy_zone_example =
    serve-destroy_zone (sample_host all_running) (lit "ipc1") (lit "z") locked_manager [] (inr refl)
      no_zone_z
