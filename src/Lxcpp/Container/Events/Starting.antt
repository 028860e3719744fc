-- ===== src/Lxcpp/Container/Events/Starting.antt =====
-- When a container starts, and what a start that was refused leaves (start of libs/lxcpp/container-impl.cpp).
use mathlib.Core.Path.{subst}
use vasum.Prelude.{
  ◌∙◌, ℕ, ◌≡◌, ◌≢◌, ◌⊎◌, inl, inr, refl, Bool, true, false, List, [], ◌∷◌, lit, ◌==◌, Bool-cases,
  arith, find_if, Option-cases, ◌&&◌, All,
}
use vasum.Prelude.Exec.{Outcome, ok, raised, ◌>>=◌, configure, forbidden_action}
use vasum.Lxcpp.UserNamespace.{IdRange, holds_id, conv_cont_to_host_id}
use vasum.Lxcpp.ContainerConfig.{ContainerConfig, State, stopped, starting}
use vasum.Lxcpp.Container.{ContainerHost, Container, self}
use vasum.Lxcpp.Container.Lifecycle.{is_nil, differ, check_config, launch, set_off, start, stop}
use vasum.Lxcpp.Container.Events.{
  Event, set_up_call, connect_call, start_call, stop_call, freeze_call, unfreeze_call, reboot_call,
  attach_call, guard_connected, work_file, config_set, init_started, guard_ready, init_stopped, act,
  run_events,
}
use vasum.Lxcpp.Container.Events.Moves.{
  Moves, Walks, observed, here, step, begun, start-begun, start_refused, State-cases, stop_refused,
  run_events-Walks,
}

abbrev pub IsFound : Outcome ℕ → Type 0
IsFound r = (id : ℕ) × (r ≡ ok id)

-- Users and groups are both mapped, or neither is; the root of the container, its group and the group of the terminals
-- have an id of the host; and a container in a user namespace does not have "/" for the directory of its root.
pub record IsReady {W : Type 0} (h : ContainerHost W) (c : ContainerConfig) : Type 0 where
  pub both : is_nil c.user_ns.uid_maps ≡ is_nil c.user_ns.gid_maps
  pub root_uid : IsFound (conv_cont_to_host_id c.user_ns.uid_maps 0)
  pub root_gid : IsFound (conv_cont_to_host_id c.user_ns.gid_maps 0)
  pub tty_gid : IsFound (conv_cont_to_host_id c.user_ns.gid_maps c.pts_gid)
  pub root_dir : c.namespaces.new_user && h.dir_name c.root_path == lit "/" ≡ false

conv_outcome :
    (map : List IdRange) (id : ℕ)
    → IsFound (conv_cont_to_host_id map id) ⊎ (conv_cont_to_host_id map id ≡ raised configure)
unfolding conv_cont_to_host_id
conv_outcome [] id = inl (id, refl)
conv_outcome (r ∷ map) id = elim (Option-cases (find_if (holds_id id) (r ∷ map))) [
  | inl e ↦ inr (rw e refl)
  | inr (it, e) ↦ inl (rw e (_, refl))
]

differ-false : (a b : Bool) → differ a b ≡ false → a ≡ b
differ-false true true h = refl
differ-false true false h = cc h
differ-false false true h = cc h
differ-false false false h = refl

differ_same : (a b : Bool) → differ a b ≡ true → a ≢ b
differ_same true true h = cc h
differ_same true false h = λ e. cc e
differ_same false true h = λ e. cc e
differ_same false false h = cc h

module _ {W : Type 0} (h : ContainerHost W) where
  check_config_cases :
      (c : ContainerConfig) (s : Container × W)
      → ((check_config h c s ≡ (ok tt, s)) × IsReady h c)
        ⊎ ((check_config h c s ≡ (raised configure, s)) × ¬ IsReady h c)
  unfolding check_config ◌>>=◌
  check_config_cases c s =
      elim (Bool-cases (differ (is_nil c.user_ns.uid_maps) (is_nil c.user_ns.gid_maps))) [
        | inl bad ↦ inr (rw bad refl, λ r. differ_same _ _ bad r.both)
        | inr good ↦ elim (conv_outcome c.user_ns.uid_maps 0) [
          | inr bad ↦ inr (rw (good, bad) refl, λ r. cc (bad, r.root_uid.1))
          | inl (u, eu) ↦ elim (conv_outcome c.user_ns.gid_maps 0) [
            | inr bad ↦ inr (rw (good, eu, bad) refl, λ r. cc (bad, r.root_gid.1))
            | inl (g, eg) ↦ elim (conv_outcome c.user_ns.gid_maps c.pts_gid) [
              | inr bad ↦ inr (rw (good, eu, eg, bad) refl, λ r. cc (bad, r.tty_gid.1))
              | inl (t, et) ↦
                  elim (Bool-cases (c.namespaces.new_user && h.dir_name c.root_path == lit "/")) [
                    | inl bad ↦ inr (rw (good, eu, eg, et, bad) refl, λ r. cc (bad, r.root_dir))
                    | inr dir ↦ inl (
                      rw (good, eu, eg, et, dir) refl,
                      record {
                        both = differ-false _ _ good;
                        root_uid = (u, eu);
                        root_gid = (g, eg);
                        tty_gid = (t, et);
                        root_dir = dir;
                      },
                    )
                  ]
            ]
          ]
        ]
      ]

  set_off_cases :
      (s : Container × W)
      → ((set_off h s ≡ launch h s) × IsReady h s.0.config)
        ⊎ ((set_off h s ≡ (raised configure, s)) × ¬ IsReady h s.0.config)
  unfolding set_off ◌>>=◌ self
  set_off_cases s = elim (check_config_cases s.0.config s) [
    | inl (e, ready) ↦ inl (rw e refl, ready)
    | inr (e, unready) ↦ inr (rw e refl, unready)
  ]

  -- A start is refused, and changes nothing, unless the container is stopped. One whose configuration is not ready is
  -- refused too, after the state was set to starting. Otherwise what is left is `launch`.
  pub start_cases :
      (s : Container × W)
      → ((s.0.config.state ≢ stopped) × (start h s ≡ (raised forbidden_action, s)))
        ⊎ ((s.0.config.state ≡ stopped)
            × ¬ IsReady h s.0.config
            × (start h s ≡ (raised configure, begun h s)))
        ⊎ ((s.0.config.state ≡ stopped) × IsReady h s.0.config × (start h s ≡ launch h (begun h s)))
  start_cases s = elim (State-cases s.0.config.state stopped) [
    | inr n ↦ inl (n, start_refused h s n)
    | inl e ↦ elim (set_off_cases (begun h s)) [
      | inl (same, ready) ↦ inr (inr (e, again ready, start-begun h s e ∙ same))
      | inr (same, unready) ↦ inr (inl (e, (λ r. unready (onward r)), start-begun h s e ∙ same))
    ]
  ]
    where
      again : IsReady h (begun h s).0.config → IsReady h s.0.config
      again r = record {
        both = r.both;
        root_uid = r.root_uid;
        root_gid = r.root_gid;
        tty_gid = r.tty_gid;
        root_dir = r.root_dir;
      }

      onward : IsReady h s.0.config → IsReady h (begun h s).0.config
      onward r = record {
        both = r.both;
        root_uid = r.root_uid;
        root_gid = r.root_gid;
        tty_gid = r.tty_gid;
        root_dir = r.root_dir;
      }

-- What the owner of the container calls, but for a connection to another guard.
abbrev pub IsOwnerCall : Event → Type 0
IsOwnerCall (set_up_call x) = Unit
IsOwnerCall start_call = Unit
IsOwnerCall stop_call = Unit
IsOwnerCall freeze_call = Unit
IsOwnerCall unfreeze_call = Unit
IsOwnerCall reboot_call = Unit
IsOwnerCall (attach_call env) = Unit
IsOwnerCall _ = ⊥

stays :
    (e : Event) (done : Bool) (t : State) → IsOwnerCall e → Moves e done starting t → t ≡ starting
stays (set_up_call x) done t o m = m
stays connect_call done t o m = elim o [ ]
stays start_call done t o m = ground arith
stays stop_call done t o m = ground arith
stays freeze_call done t o m = m
stays unfreeze_call done t o m = m
stays reboot_call done t o m = m
stays (attach_call env) done t o m = m
stays (guard_connected c) done t o m = elim o [ ]
stays (work_file n c) done t o m = elim o [ ]
stays (config_set r) done t o m = elim o [ ]
stays (init_started r) done t o m = elim o [ ]
stays guard_ready done t o m = elim o [ ]
stays (init_stopped x) done t o m = elim o [ ]

stuck :
    (es : List (Event × Bool)) (s t : State)
    → s ≡ starting
    → All (λ x. IsOwnerCall x.0) es
    → Walks es s t
    → t ≡ starting
stuck [] s t e o (here _) = e
stuck ((x, done) ∷ es) s t e (o, os) (step _ _ _ _ u _ m w) =
    stuck es u t (stays x done u o (subst (λ a. Moves x done a u) e m)) os w

observed-IsOwnerCall :
    {W : Type 0} (h : ContainerHost W) (es : List Event) (s : Container × W)
    → All IsOwnerCall es
    → All (λ x. IsOwnerCall x.0) (observed h es s)
unfolding observed
observed-IsOwnerCall h [] s o = tt
observed-IsOwnerCall h (e ∷ es) s (o, os) = (o, observed-IsOwnerCall h es (act h e s).1 os)

-- A start of a stopped container whose configuration is not ready is refused. Whatever the owner calls then, the repair of
-- the configuration included, but for a connection: a start and a stop are refused, and change nothing.
pub start_blocks :
    {W : Type 0} (h : ContainerHost W) (s : Container × W) (es : List Event)
    → s.0.config.state ≡ stopped
    → ¬ IsReady h s.0.config
    → All IsOwnerCall es
    → let t = run_events h es (start h s).1 in
      ((start h s).0 ≡ raised configure)
      × (start h t ≡ (raised forbidden_action, t))
      × (stop h t ≡ (raised forbidden_action, t))
start_blocks h s es e unready owner = elim (start_cases h s) [
  | inl (n, same) ↦ absurd (n e)
  | inr (inl (e', _, same)) ↦
      let t = run_events h es (begun h s) in
      let now : t.0.config.state ≡ starting =
        stuck _ starting _ refl (observed-IsOwnerCall h es (begun h s) owner)
          (run_events-Walks h es (begun h s)) in
      rw same (refl, start_refused h t (λ x. cc (x, now)), stop_refused h t (λ x. cc (x, now)))
  | inr (inr (e', ready, same)) ↦ absurd (unready ready)
]
