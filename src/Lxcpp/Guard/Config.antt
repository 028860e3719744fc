-- ===== src/Lxcpp/Guard/Config.antt =====
-- The configuration of the guard (libs/lxcpp/guard/guard.cpp): what setting it leaves, and the handlers that need it.
use vasum.Prelude.{
  ◌≡◌, ◌≢◌, ◌⊎◌, inl, inr, refl, sym, ap, Option, none, some, Bool-cases, Option-cases,
}
use vasum.Prelude.Int.{ℤ, eq_ℤ, eq_ℤ_iff}
use vasum.Prelude.Exec.{ok, crashed, Exec, gets, modify, ◌>>=◌, on_world}
use vasum.Prelude.Keeps.{Keeps, keeps_rules}
use vasum.Prelude.Turns.{Turns, Anything, Turns-before, Turns-after}
use vasum.Lxcpp.ContainerConfig.{ContainerConfig, stopped}
use vasum.Lxcpp.Guard.{GuardHost, Guard, saved, deref, self, config_of, update, change}
use vasum.Lxcpp.Guard.Handlers.{
  on_start, on_stop, on_set_config, set_up_terminals, on_get_config, on_init_exit, init_exited,
}

abbrev pub IsStopped : Option ContainerConfig → Type 0
IsStopped o = (c : ContainerConfig) × (o ≡ some c) × (c.state ≡ stopped)

module _ {W : Type 0} where
  -- A predicate on the configuration.
  module _ (P : Option ContainerConfig → Type 0) where
    abbrev OnConfig : Guard × W → Type 0
    OnConfig s = P s.0.config

    OnConfig-on_world : {A : Type 0} (m : Exec W A) → Keeps OnConfig (on_world m)
    unfolding on_world
    OnConfig-on_world m = record { after = λ s p. p }

    OnConfig-self : Keeps OnConfig self
    unfolding self gets
    OnConfig-self = record { after = λ s p. p }

    OnConfig-update :
        (f : Guard → Guard)
        → ((g : Guard) → P g.config → P (f g).config)
        → Keeps OnConfig (update f)
    unfolding update modify
    OnConfig-update f k = record { after = λ s p. k s.0 p }

module _ {W : Type 0} (h : GuardHost W) where
  after_set :
      (c : ContainerConfig) → Keeps (OnConfig {W = W} (λ o. o ≡ some c)) (set_up_terminals h c)
  unfolding set_up_terminals
  after_set c =
      search (keeps_rules, OnConfig-on_world (λ o. o ≡ some c), OnConfig-update (λ o. o ≡ some c))
        depth 12

  set_config-keeps :
      (c : ContainerConfig) (s : Guard × W) → (on_set_config h c s).1.0.config ≡ some c
  unfolding on_set_config ◌>>=◌ update
  set_config-keeps c s = (after_set c).after _ refl

  -- What a configuration is set to is what is read back, however the setting ends: also where it is answered by an error,
  -- or the container's root has no id of the host and an exception leaves the handler.
  pub on_get_config-on_set_config :
      (c : ContainerConfig) (s : Guard × W)
      → (on_get_config (on_set_config h c s).1).0 ≡ ok (saved (some c))
  unfolding on_get_config ◌>>=◌ self
  on_get_config-on_set_config c s = ap (λ o. ok (saved o)) (set_config-keeps c s)

  -- Before a configuration was set, a start, a stop and the end of any child process crash the guard.
  pub no_config_crashes :
      (s : Guard × W) (process status : ℤ)
      → s.0.config ≡ none
      → (on_start h s ≡ (crashed, s))
        × (on_stop h s ≡ (crashed, s))
        × (on_init_exit h process status s ≡ (crashed, s))
  unfolding on_start on_stop on_init_exit change config_of self deref ◌>>=◌
  no_config_crashes s process status e = (rw e refl, rw e refl, rw e refl)

  stopped-now :
      (s t : Guard × W) {a : Unit {0}}
      → change (λ c. record c { state = stopped }) s ≡ (ok a, t)
      → IsStopped t.0.config
  unfolding change config_of self deref update ◌>>=◌
  stopped-now s t e = elim (Option-cases s.0.config) [
    | inl none' ↦ cc (rw none' at e)
    | inr (c, some') ↦
        (record c { state = stopped }, ap (λ p. p.1.0.config) (sym (rw some' at e)), refl)
  ]

  init_exited-IsStopped :
      (status : ℤ) → Turns {S = Guard × W} Anything (OnConfig IsStopped) (init_exited h status)
  unfolding init_exited
  init_exited-IsStopped status =
      Turns-before _ _ (record { after = λ s p. tt })
        (λ _.
          Turns-after _ _ (record { outcome = λ s t a p e. stopped-now s t e })
            (λ _.
              search (keeps_rules, OnConfig-self IsStopped, OnConfig-on_world IsStopped) depth 10))

  -- The end of a process that returns: one other than init changes nothing, and that of init leaves the stopped state.
  pub on_init_exit_cases :
      (c : ContainerConfig) (process status : ℤ) (s t : Guard × W)
      → s.0.config ≡ some c
      → on_init_exit h process status s ≡ (ok tt, t)
      → ((c.init_pid ≢ process) × (t ≡ s)) ⊎ ((c.init_pid ≡ process) × IsStopped t.0.config)
  unfolding on_init_exit config_of self deref ◌>>=◌
  on_init_exit_cases c process status s t some' e = elim (Bool-cases (eq_ℤ c.init_pid process)) [
    | inl same ↦
        let e' = simp (some', same) at e in
        inr (
          (eq_ℤ_iff c.init_pid process).0 same,
          (init_exited-IsStopped status).outcome s t tt tt e',
        )
    | inr other ↦
        let e' = simp (some', other) at e in
        inl ((λ same. cc (other, (eq_ℤ_iff c.init_pid process).1 same)), ap (λ p. p.1) (sym e'))
  ]
