-- ===== src/Lxcpp/Container/Events/Moves.antt =====
-- The states that a container goes through (libs/lxcpp/container-impl.cpp, Container::State of container.hpp), as an automaton
-- that the methods implement.
use vasum.Prelude.{
  ℕ, ◌≡◌, ◌≢◌, ◌⊎◌, inl, inr, refl, ap, Bool, true, false, List, [], ◌∷◌, Text, Option, Bool-cases,
  arith,
}
use vasum.Prelude.Int.{ℤ, pos, leb_ℤ, ◌≤ℤ◌, ◌<ℤ◌}
use vasum.Prelude.Exec.{
  Exception, Outcome, ok, raised, crashed, catch, on_part, pure, throw, of_outcome, ◌>>=◌, ◌>>◌,
  forbidden_action, on_world,
}
use vasum.Prelude.Keeps.{Keeps}
use vasum.Lxcpp.ContainerConfig.{
  ContainerConfig, State, stopped, stopping, starting, running, connecting,
}
use vasum.Lxcpp.Container.{ContainerHost, Container, self, change, set_state, call_back}
use vasum.Lxcpp.Container.Keeps.{
  OnConfig, OnConfig-call_back, OnConfig-change, OnConfig-update_by, OnConfig-container_prep,
  config_rules,
}
use vasum.Lxcpp.Container.Terminals.{close_all, revert}
use vasum.Lxcpp.Container.Settings.{Setting, set_up, host_name_call}
use vasum.Lxcpp.Container.Lifecycle.{
  is_stopped, is_running, connect, on_guard_connected, on_work_file_event, check_config,
  start_execute, is_ipc, container_cleanup, on_terminals, launch, set_off, start, on_config_set,
  on_init_started, on_guard_ready, stop, on_init_stopped, freeze, unfreeze, reboot, attach,
}
use vasum.Lxcpp.Container.Events.{
  Event, set_up_call, connect_call, start_call, stop_call, freeze_call, unfreeze_call, reboot_call,
  attach_call, guard_connected, work_file, config_set, init_started, guard_ready, init_stopped, act,
  run_events,
}

-- The edges of the automaton. A connection, and the end of init, come with whether the call returned that they depend on.
abbrev pub Moves : Event → Bool → State → State → Type 0
Moves start_call done s t = ((s ≡ stopped) × (t ≡ starting)) ⊎ ((s ≢ stopped) × (t ≡ s))
Moves stop_call done s t = ((s ≡ running) × (t ≡ stopping)) ⊎ ((s ≢ running) × (t ≡ s))
Moves (init_started (ok pid)) done s t =
    ((pos 0 <ℤ pid) × (t ≡ running)) ⊎ ((pid ≤ℤ pos 0) × (t ≡ s))
Moves (init_stopped status) true s t = t ≡ stopped
Moves (init_stopped status) false s t = t ≡ s
Moves connect_call true s t = t ≡ connecting
Moves connect_call false s t = t ≡ s
Moves (guard_connected saved) done s t = t ≡ saved.state
Moves _ done s t = t ≡ s

abbrev pub is_done : {A : Type 0} → Outcome A → Bool
is_done (ok a) = true
is_done (raised e) = false
is_done crashed = false

-- Whether the call returns that the edge depends on: that of the client, for a connection, and the closing of all terminals of
-- the configuration, for the end of init.
abbrev pub passes : {W : Type 0} → ContainerHost W → Event → Container × W → Bool
passes h connect_call s = is_done (h.client_start s.1).0
passes h (init_stopped status) s = is_done (close_all h s.0.config.terminals.ptys s.1).0
passes h e s = true

pub Outcome-cases :
    {A : Type 0} (r : Outcome A)
    → ((a : A) × (r ≡ ok a)) ⊎ ((e : Exception) × (r ≡ raised e)) ⊎ (r ≡ crashed)
Outcome-cases (ok a) = inl (a, refl)
Outcome-cases (raised e) = inr (inl (e, refl))
Outcome-cases crashed = inr (inr refl)

pub State-cases : (s t : State) → (s ≡ t) ⊎ (s ≢ t)
State-cases s t = ground arith

not_stopped : (s : State) → s ≢ stopped → is_stopped s ≡ false
not_stopped stopped n = absurd (n refl)
not_stopped stopping n = refl
not_stopped starting n = refl
not_stopped running n = refl
not_stopped connecting n = refl

not_running : (s : State) → s ≢ running → is_running s ≡ false
not_running stopped n = refl
not_running stopping n = refl
not_running starting n = refl
not_running running n = absurd (n refl)
not_running connecting n = refl

module _ {W : Type 0} (h : ContainerHost W) where
  module _ (s : State) where
    abbrev Same : ContainerConfig → Type 0
    Same c = c.state ≡ s

    set_up-Same : (e : Setting) → Keeps (OnConfig {W = W} Same) (set_up h e)
    unfolding set_up
    set_up-Same (host_name_call t) = search (config_rules, OnConfig-change Same) depth 8
    set_up-Same e = search (config_rules, OnConfig-change Same, OnConfig-update_by Same) depth 12

    check_config-Same : (c : ContainerConfig) → Keeps (OnConfig {W = W} Same) (check_config h c)
    unfolding check_config
    check_config-Same c = search config_rules depth 12

    start_execute-Same : (c : ContainerConfig) → Keeps (OnConfig {W = W} Same) (start_execute h c)
    unfolding start_execute
    start_execute-Same c = search config_rules depth 12

    set_off-Same : Keeps (OnConfig {W = W} Same) (set_off h)
    unfolding set_off launch
    set_off-Same =
        search
          (
            config_rules,
            check_config-Same,
            start_execute-Same,
            OnConfig-container_prep Same (λ c t e p. p),
          )
          depth 12

    on_work_file_event-Same :
        (name : Text) (created : Bool)
        → Keeps (OnConfig {W = W} Same) (on_work_file_event h name created)
    unfolding on_work_file_event
    on_work_file_event-Same name created = search config_rules depth 12

    on_guard_ready-Same : Keeps (OnConfig {W = W} Same) (on_guard_ready h)
    unfolding on_guard_ready
    on_guard_ready-Same = search config_rules depth 12

    attach-Same :
        (env : List (Text × Text)) → Keeps (OnConfig {W = W} Same) (do attach h env; pure tt)
    unfolding attach
    attach-Same env = search config_rules depth 12

  -- The container as `start` leaves it to the rest.
  abbrev pub begun : Container × W → Container × W
  begun s = (record s.0 { config = record s.0.config { state = starting } }, s.1)

  pub start-begun :
      (s : Container × W) → s.0.config.state ≡ stopped → start h s ≡ set_off h (begun s)
  unfolding start ◌>>=◌ self set_state change
  start-begun s e = rw (ap is_stopped e) refl

  pub start_refused :
      (s : Container × W) → s.0.config.state ≢ stopped → start h s ≡ (raised forbidden_action, s)
  unfolding start ◌>>=◌ self
  start_refused s n = rw (not_stopped s.0.config.state n) refl

  pub stop_refused :
      (s : Container × W) → s.0.config.state ≢ running → stop h s ≡ (raised forbidden_action, s)
  unfolding stop ◌>>=◌ self
  stop_refused s n = rw (not_running s.0.config.state n) refl

  pub attach_refused :
      (env : List (Text × Text)) (s : Container × W)
      → s.0.config.state ≢ running
      → attach h env s ≡ (raised forbidden_action, s)
  unfolding attach ◌>>=◌ self
  attach_refused env s n = rw (not_running s.0.config.state n) refl

  stop_stopping :
      (s : Container × W) → s.0.config.state ≡ running → (stop h s).1.0.config.state ≡ stopping
  unfolding stop ◌>>=◌ self set_state change on_world
  stop_stopping s e = rw (ap is_running e) refl

  call_back-Same :
      (t : State) (callback : Option ℕ) (s : Container × W)
      → s.0.config.state ≡ t
      → (call_back h callback s).1.0.config.state ≡ t
  call_back-Same t callback s e = (OnConfig-call_back (Same t) h callback).after s e

  on_init_started-Moves :
      (r : Outcome ℤ) (s : Container × W)
      → Moves (init_started r) true s.0.config.state (on_init_started h r s).1.0.config.state
  unfolding on_init_started ◌>>=◌ change set_state
  on_init_started-Moves (ok pid) s = elim (Bool-cases (leb_ℤ pid (pos 0))) [
    | inl bad ↦ inr (ground (arith, bad), rw bad refl)
    | inr good ↦ inl (ground (arith, good), rw good (call_back-Same running _ _ refl))
  ]
  on_init_started-Moves (raised e) s = refl
  on_init_started-Moves crashed s = refl

  on_guard_connected-Moves :
      (c : ContainerConfig) (s : Container × W)
      → (on_guard_connected h c s).1.0.config.state ≡ c.state
  unfolding on_guard_connected ◌>>=◌ change
  on_guard_connected-Moves c s = call_back-Same c.state _ _ refl

  connect-Moves :
      (s : Container × W)
      → Moves connect_call
          (passes h connect_call s)
          s.0.config.state
          (act h connect_call s).1.0.config.state
  unfolding act connect catch ◌>>=◌ on_world set_state change
  connect-Moves s = elim (Outcome-cases (h.client_start s.1).0) [
    | inl (a, e) ↦ rw e refl
    | inr (inl (x, e)) ↦ elim (Bool-cases (is_ipc x)) [
      | inl y ↦ rw (e, y) refl
      | inr n ↦ rw (e, n) refl
    ]
    | inr (inr e) ↦ rw e refl
  ]

  on_init_stopped-Moves :
      (status : ℤ) (s : Container × W)
      → Moves
          (init_stopped status)
          (passes h (init_stopped status) s)
          s.0.config.state
          (on_init_stopped h status s).1.0.config.state
  unfolding on_init_stopped container_cleanup on_terminals revert ◌>>=◌ on_part on_world set_state
      change
  on_init_stopped-Moves status s =
      elim (Outcome-cases (close_all h s.0.config.terminals.ptys s.1).0) [
        | inl (a, e) ↦ rw e (call_back-Same stopped _ _ refl)
        | inr (inl (x, e)) ↦ rw e refl
        | inr (inr e) ↦ rw e refl
      ]

  pub start-Moves :
      (s : Container × W) → Moves start_call true s.0.config.state (start h s).1.0.config.state
  start-Moves s = elim (State-cases s.0.config.state stopped) [
    | inl e ↦ inl (e, rw (start-begun s e) ((set_off-Same starting).after (begun s) refl))
    | inr n ↦ inr (n, rw (start_refused s n) refl)
  ]

  stop-Moves :
      (s : Container × W) → Moves stop_call true s.0.config.state (stop h s).1.0.config.state
  stop-Moves s = elim (State-cases s.0.config.state running) [
    | inl e ↦ inl (e, stop_stopping s e)
    | inr n ↦ inr (n, rw (stop_refused s n) refl)
  ]

  -- Whatever the calls to the outside do, and however the method ends, the state of the container takes the edge of the
  -- automaton for that event.
  pub act-Moves :
      (e : Event) (s : Container × W)
      → Moves e (passes h e s) s.0.config.state (act h e s).1.0.config.state
  unfolding act throw of_outcome
  act-Moves (set_up_call x) s = (set_up-Same s.0.config.state x).after s refl
  act-Moves connect_call s = connect-Moves s
  act-Moves start_call s = start-Moves s
  act-Moves stop_call s = stop-Moves s
  act-Moves freeze_call s = unfold freeze in refl
  act-Moves unfreeze_call s = unfold unfreeze in refl
  act-Moves reboot_call s = unfold reboot in refl
  act-Moves (attach_call env) s = (attach-Same s.0.config.state env).after s refl
  act-Moves (guard_connected c) s = on_guard_connected-Moves c s
  act-Moves (work_file name created) s =
      (on_work_file_event-Same s.0.config.state name created).after s refl
  act-Moves (config_set r) s = unfold on_config_set in refl
  act-Moves (init_started r) s = on_init_started-Moves r s
  act-Moves guard_ready s = (on_guard_ready-Same s.0.config.state).after s refl
  act-Moves (init_stopped status) s = on_init_stopped-Moves status s

-- A walk through the automaton, one edge for each event.
pub data Walks : List (Event × Bool) → State → State → Type 0 where
  here : (s : State) → Walks [] s s
  step :
      (e : Event) (done : Bool) (es : List (Event × Bool)) (s t u : State)
      → Moves e done s t
      → Walks es t u
      → Walks ((e, done) ∷ es) s u

-- The events of a run, each with whether the call returns, in the state and the world then, that its edge depends on.
unfoldable pub observed :
    {W : Type 0} → ContainerHost W → List Event → Container × W → List (Event × Bool)
unfolding act
observed h [] s = []
observed h (e ∷ es) s = (e, passes h e s) ∷ observed h es (act h e s).1

-- Over any events, and whatever the calls to the outside do, the states of the container are a walk through the automaton:
-- a start leads from stopped to starting and a stop from running to stopping, and each leaves any other state as it is; a
-- number of init above 0 leads to running; the end of init leads to stopped exactly if closing the terminals returns, and a
-- connection to connecting exactly if the client's start returns, and otherwise the state stays; a guard that is connected
-- gives its own state; and all other methods leave the state as it is.
pub run_events-Walks :
    {W : Type 0} (h : ContainerHost W) (es : List Event) (s : Container × W)
    → Walks (observed h es s) s.0.config.state (run_events h es s).0.config.state
unfolding run_events observed
run_events-Walks h [] s = here _
run_events-Walks h (e ∷ es) s =
    step e _ _ _ _ _ (act-Moves h e s) (run_events-Walks h es (act h e s).1)
