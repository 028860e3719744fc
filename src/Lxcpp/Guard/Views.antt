-- ===== src/Lxcpp/Guard/Views.antt =====
-- The guard's configuration (libs/lxcpp/guard/guard.cpp) and the container's (libs/lxcpp/container-impl.cpp): what the one
-- sends, and what the other makes of it.
use vasum.Prelude.{◌≡◌, inl, inr, Option-cases, refl, sym, ap, ◌∙◌, false, Text, some}
use vasum.Prelude.Int.{ℤ, pos, leb_ℤ}
use vasum.Prelude.Exec.{ok, modify, ◌>>=◌, on_world}
use vasum.Prelude.Returns.{Delivers, Delivers-bind, ok-injective}
use vasum.Lxcpp.ContainerConfig.{ContainerConfig, running}
use vasum.Lxcpp.Container
use vasum.Lxcpp.Container.{ContainerHost, Container}
use vasum.Lxcpp.Container.Keeps.{OnConfig-call_back}
use vasum.Lxcpp.Container.Lifecycle.{on_init_started, on_guard_connected}
use vasum.Lxcpp.Guard.{
  GuardHost, Guard, Reply, pid, guard_connected, deref, self, config_of, update, change,
}
use vasum.Lxcpp.Guard.Handlers.{on_start, on_connection, on_disconnection, report_running}

-- Init runs, and the guard knows its number, which is the one that it reports.
abbrev Reported : {W : Type 0} → Reply → Guard × W → Type 0
Reported r s =
    (c : ContainerConfig) × (s.0.config ≡ some c) × (c.state ≡ running) × (r ≡ pid c.init_pid)

report_running-Reported : {W : Type 0} → Delivers {S = Guard × W} Reported report_running
unfolding report_running ◌>>=◌ change config_of self deref update
report_running-Reported = record {
  delivered = λ s t r e. elim (Option-cases s.0.config) [
    | inl none' ↦ cc (rw none' at e)
    | inr (c, some') ↦
        let e' = rw some' at e in
        (
          record c { state = running },
          ap (λ p. p.1.0.config) (sym e'),
          refl,
          ok-injective (ap (λ p. p.0) (sym e')),
        )
  ];
}

-- Where a start of the guard returns, it replies the number of an init that it has recorded, and is in the running state.
on_start-Reported : {W : Type 0} (h : GuardHost W) → Delivers Reported (on_start h)
unfolding on_start
on_start-Reported h = search (Delivers-bind, report_running-Reported) depth 16

pid-injective : {a b : ℤ} → pid a ≡ pid b → a ≡ b
pid-injective e = cc

-- The container and its guard have the same state, and the same init.
pub record Agree (c : Container) (g : Guard) : Type 0 where
  pub config : ContainerConfig
  pub is_set : g.config ≡ some config
  pub state : c.config.state ≡ config.state
  pub init : c.config.init_pid ≡ config.init_pid

module _ {V : Type 0} (host : ContainerHost V) where
  started :
      (c : Container × V) (n : ℤ)
      → leb_ℤ n (pos 0) ≡ false
      → let k = (on_init_started host (ok n) c).1.0.config in (k.state ≡ running) × (k.init_pid ≡ n)
  unfolding on_init_started ◌>>=◌ Container.change Container.set_state
  started c n good = rw good (
      (OnConfig-call_back (λ k. (k.state ≡ running) × (k.init_pid ≡ n)) host _).after _
        (refl, refl))

  taken : (d : ContainerConfig) (c : Container × V) → (on_guard_connected host d c).1.0.config ≡ d
  unfolding on_guard_connected ◌>>=◌ Container.change
  taken d c = (OnConfig-call_back (λ k. k ≡ d) host _).after _ refl

module _ {V W : Type 0} (host : ContainerHost V) (h : GuardHost W) where
  -- Where a start of the guard returned with a number above 0, and the container takes it, both are running, with the same
  -- init.
  pub on_init_started-Agree :
      (s t : Guard × W) (c : Container × V) (n : ℤ)
      → on_start h s ≡ (ok (pid n), t)
      → leb_ℤ n (pos 0) ≡ false
      → Agree (on_init_started host (ok n) c).1.0 t.0
        × ((on_init_started host (ok n) c).1.0.config.state ≡ running)
  on_init_started-Agree s t c n e good =
      let (d, is_set, state, number) = (on_start-Reported h).delivered s t (pid n) e in
      let (runs, same) = started host c n good in
      (
        record {
          config = d;
          is_set = is_set;
          state = runs ∙ sym state;
          init = same ∙ pid-injective number;
        },
        runs,
      )

  connected :
      (s : Guard × W) (peer : Text) (d : ContainerConfig)
      → s.0.config ≡ some d
      → on_connection h peer s
        ≡ on_world (h.call_host peer (guard_connected d)) (record s.0 { peer_id = peer }, s.1)
  unfolding on_connection ◌>>=◌ update on_world self
  connected s peer d e = rw e refl

  -- Where a start of the guard returned with a number above 0, and the peer of the guard is lost and another one connects: the
  -- new peer is sent a configuration, and a container that takes it over is running, with the same state and the same init as
  -- a container that took the result of the start, whatever both were before.
  pub on_guard_connected-on_init_started :
      (s t : Guard × W) (old peer : Text) (first second : Container × V) (n : ℤ)
      → on_start h s ≡ (ok (pid n), t)
      → leb_ℤ n (pos 0) ≡ false
      → (d : ContainerConfig) × (let lost = (on_disconnection old t).1 in
          on_connection h peer lost
          ≡ on_world
              (h.call_host peer (guard_connected d))
              (record lost.0 { peer_id = peer }, lost.1))
        × (let c = (on_guard_connected host d second).1.0.config in
            let c' = (on_init_started host (ok n) first).1.0.config in
            (c.state ≡ running) × (c.state ≡ c'.state) × (c.init_pid ≡ c'.init_pid))
  unfolding on_disconnection update modify
  on_guard_connected-on_init_started s t old peer first second n e good =
      let (d, is_set, state, number) = (on_start-Reported h).delivered s t (pid n) e in
      let (runs, same) = started host first n good in
      let took = taken host d second in
      let now = ap (λ k. k.state) took ∙ state in
      (
        d,
        connected (on_disconnection old t).1 peer d is_set,
        (now, now ∙ sym runs, ap (λ k. k.init_pid) took ∙ sym (pid-injective number) ∙ sym same),
      )
