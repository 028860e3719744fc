-- ===== src/Server/Zone/RequestedState.antt =====
-- The state that a zone is recorded to be wanted in (server/zone.cpp), by which `restore` acts after a restart of the
-- daemon: which operations set it.
use vasum.Prelude.{◌≡◌, refl, sym, true, Text, ◌==◌, eq_iff, Bool-cases, inl, inr, not}
use vasum.Prelude.Exec.{Exec, ok, throw, zone_operation, when, ◌>>=◌, ◌>>◌, on_world, on_part}
use vasum.Prelude.Keeps.{Keeps, Ends, Ends-bind, Settles, Settles-Ends, Settles-bind, keeps_rules}
use vasum.Lxc.{c_call}
use vasum.Server.Host.{Host}
use vasum.Server.Provision.{ZoneProvision}
use vasum.Server.Zone.{
  Zone, SchedulerLevel, state_running, state_stopped, state_paused, on_provision, on_container,
  save_dynamic_config, update_requested_state, is_running, is_stopped, set_scheduler_params,
  set_scheduler_level, go_foreground, go_background, start, shut_down, stop, suspend, resume,
  restore,
}

-- The zone's requested state is the given one.
abbrev pub Wants : {W : Type 0} → Text → Zone × W → Type 0
Wants state s = s.0.dynamic.requested_state ≡ state

module _ {W : Type 0} (h : Host W) (wanted : Text) where
  Wants-on_provision :
      {A : Type 0} (m : Exec (ZoneProvision × W) A) → Keeps (Wants wanted) (on_provision h m)
  unfolding on_provision on_part
  Wants-on_provision m = record { after = λ s e. e }

  Wants-on_container : {A : Type 0} (m : Text → Exec W A) → Keeps (Wants wanted) (on_container h m)
  unfolding on_container on_world
  Wants-on_container m = record { after = λ s e. e }

  Wants-on_world : {A : Type 0} (m : Exec W A) → Keeps (Wants wanted) (on_world m)
  unfolding on_world
  Wants-on_world m = record { after = λ s e. e }

  ruleset wants_rules = (keeps_rules, Wants-on_provision, Wants-on_container, Wants-on_world)

  Wants-is_running : Keeps (Wants wanted) (is_running h)
  unfolding is_running
  Wants-is_running = search wants_rules depth 16

  Wants-is_stopped : Keeps (Wants wanted) (is_stopped h)
  unfolding is_stopped
  Wants-is_stopped = search wants_rules depth 16

  Wants-set_scheduler_level :
      (level : SchedulerLevel) → Keeps (Wants wanted) (set_scheduler_level h level)
  unfolding set_scheduler_level set_scheduler_params
  Wants-set_scheduler_level level = search (wants_rules, Wants-is_running) depth 16

  pub Wants-go_foreground : Keeps (Wants wanted) (go_foreground h)
  unfolding go_foreground
  Wants-go_foreground = Wants-set_scheduler_level SchedulerLevel.foreground

  pub Wants-go_background : Keeps (Wants wanted) (go_background h)
  unfolding go_background
  Wants-go_background = Wants-set_scheduler_level SchedulerLevel.background

  Wants-save : Keeps (Wants wanted) (save_dynamic_config h)
  unfolding save_dynamic_config
  Wants-save = search wants_rules depth 8

  Ends-update : Ends (Wants {W = W} wanted) (update_requested_state h wanted)
  unfolding update_requested_state ◌>>=◌ on_world save_dynamic_config
  Ends-update = record {
    reached = λ s. elim (Bool-cases (wanted == s.0.dynamic.requested_state)) [
      | inl same ↦ rw same (sym ((eq_iff wanted s.0.dynamic.requested_state).0 same))
      | inr other ↦ rw other refl
    ];
  }

module _ {W : Type 0} (h : Host W) where
  start-Wants : Ends (Wants {W = W} state_running) (start h)
  unfolding start
  start-Wants =
      Ends-bind (update_requested_state h state_running) _ (Ends-update h state_running)
        (λ _. search (wants_rules, Wants-is_running, Wants-go_foreground) depth 16)

  stop-Wants : Ends (Wants {W = W} state_stopped) (stop h true)
  unfolding stop shut_down when
  stop-Wants =
      Ends-bind (update_requested_state h state_stopped) _ (Ends-update h state_stopped) (λ _.
        search (wants_rules, Wants-is_running, Wants-is_stopped, Wants-go_foreground) depth 16)

  suspend-Wants : Settles (Wants {W = W} state_paused) (suspend h)
  unfolding suspend
  suspend-Wants = Settles-bind (on_container h (λ id. c_call (h.lxc.freeze id))) _ (λ done.
      Settles-bind (when (not done) (throw zone_operation)) _
        (λ _. Settles-Ends (update_requested_state h state_paused) (Ends-update h state_paused)))

  resume-Wants : Settles (Wants {W = W} state_running) (resume h)
  unfolding resume
  resume-Wants = Settles-bind (on_container h (λ id. c_call (h.lxc.unfreeze id))) _ (λ done.
      Settles-bind (when (not done) (throw zone_operation)) _
        (λ _. Settles-Ends (update_requested_state h state_running) (Ends-update h state_running)))

  restore-running : (s : Zone × W) → Wants state_running s → restore h s ≡ start h s
  unfolding restore ◌>>=◌ ◌==◌
  restore-running s e = rw e refl

  restore-stopped : (s : Zone × W) → Wants state_stopped s → restore h s ≡ (ok tt, s)
  unfolding restore ◌>>=◌ ◌==◌
  restore-stopped s e = rw e refl

  restore-paused : (s : Zone × W) → Wants state_paused s → restore h s ≡ (start h >> suspend h) s
  unfolding restore ◌>>=◌ ◌==◌
  restore-paused s e = rw e refl

  -- From every state of a zone and its world, and whatever the outcome of the operation was: after a start, `restore`
  -- does what `start` does, and after a stop that saves the state, `restore` returns at once and changes nothing.
  pub restore_after :
      (s : Zone × W)
      → (restore h (start h s).1 ≡ start h (start h s).1)
        × (restore h (stop h true s).1 ≡ (ok tt, (stop h true s).1))
  restore_after s = (
    restore-running (start h s).1 (start-Wants.reached s),
    restore-stopped (stop h true s).1 (stop-Wants.reached s),
  )

  -- After a suspend that returned, `restore` starts the zone and suspends it again; after a resume of that zone that
  -- returned too, `restore` does what `start` does.
  pub restore-suspend :
      (s t u : Zone × W)
      → suspend h s ≡ (ok tt, t)
      → resume h t ≡ (ok tt, u)
      → (restore h t ≡ (start h >> suspend h) t) × (restore h u ≡ start h u)
  restore-suspend s t u suspended resumed = (
    restore-paused t (suspend-Wants.settled s t tt suspended),
    restore-running u (resume-Wants.settled t u tt resumed),
  )
