-- ===== src/Server/Zone/Examples.antt =====
-- The theorems on a zone (server/zone.cpp), at the host of the examples.
use vasum.Prelude.{◌==◌, ◌≡◌, refl, true, [], ◌∷◌, List, Text, lit}
use vasum.Prelude.Int.{pos}
use vasum.Prelude.Exec.{ok, ◌>>◌, ◌>>=◌, on_world}
use vasum.Lxc.{c_call}
use vasum.Server.HostSample.{sample_host, sample_zone, all_running}
use vasum.Server.Zone.{
  Zone, state_paused, state_running, on_container, start, stop, suspend, resume, restore,
  update_requested_state, save_dynamic_config,
}
use vasum.Server.Zone.RequestedState.{restore_after, restore-suspend}

abbrev zone : Zone × List Text
zone = (sample_zone (lit "a") (pos 2), [])

abbrev with_state : Text → List Text → Zone × List Text
with_state state calls =
    (record zone.0 { dynamic = record zone.0.dynamic { requested_state = state } }, calls)

restore_after_example :
    (restore (sample_host all_running) (start (sample_host all_running) zone).1
      ≡ start (sample_host all_running) (start (sample_host all_running) zone).1)
    × (restore (sample_host all_running) (stop (sample_host all_running) true zone).1
        ≡ (ok tt, (stop (sample_host all_running) true zone).1))
restore_after_example = restore_after (sample_host all_running) zone

abbrev paused_zone : Zone × List Text
paused_zone = with_state state_paused (lit "save zone" ∷ lit "freeze a" ∷ [])

abbrev resumed_zone : Zone × List Text
resumed_zone =
    with_state state_running
      (lit "save zone" ∷ lit "unfreeze a" ∷ lit "save zone" ∷ lit "freeze a" ∷ [])

suspend-zone : suspend (sample_host all_running) zone ≡ (ok tt, paused_zone)
unfolding suspend ◌>>=◌ on_container on_world c_call update_requested_state save_dynamic_config ◌==◌
suspend-zone = refl

resume-paused_zone : resume (sample_host all_running) paused_zone ≡ (ok tt, resumed_zone)
unfolding resume ◌>>=◌ on_container on_world c_call update_requested_state save_dynamic_config ◌==◌
resume-paused_zone = refl

restore-suspend_example :
    (restore (sample_host all_running) paused_zone
      ≡ (start (sample_host all_running) >> suspend (sample_host all_running)) paused_zone)
    × (restore (sample_host all_running) resumed_zone
        ≡ start (sample_host all_running) resumed_zone)
restore-suspend_example =
    restore-suspend (sample_host all_running) zone paused_zone resumed_zone suspend-zone
      resume-paused_zone
