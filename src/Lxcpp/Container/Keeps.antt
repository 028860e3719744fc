-- ===== src/Lxcpp/Container/Keeps.antt =====
-- What is said of the configuration of a container (libs/lxcpp/container-impl.cpp) and stays true: one rule for each
-- operation that its methods are put together from.
use vasum.Prelude.{ℕ, zero, suc, ◌≡◌, refl, Bool, true, false, Text, Option, none, some}
use vasum.Prelude.Int.{ℤ}
use vasum.Prelude.Exec.{
  Exception, throw, when, Outcome, ok, raised, crashed, Exec, gets, of_outcome, modify, ◌>>=◌, ◌>>◌,
  on_world, on_part,
}
use vasum.Prelude.Keeps.{Keeps, keeps_rules, Keeps-bind, Keeps-gets, Keeps-on_world, Keeps-modify}
use vasum.Lxcpp.ContainerConfig.{ContainerConfig, PtysConfig, State}
use vasum.Lxcpp.Container.{ContainerHost, Container, self, change, set_state, call_back}
use vasum.Lxcpp.Container.Terminals.{open_pty, add_pty, open_ptys, prepare, revert}
use vasum.Lxcpp.Container.Settings.{update_by, can_execute}
use vasum.Lxcpp.Container.Lifecycle.{on_terminals, container_prep, container_cleanup}

module _ {W : Type 0} (h : ContainerHost W) (k : ℕ) where
  abbrev Counts : PtysConfig × W → Type 0
  Counts s = s.0.count ≡ k

  Counts-add_pty : (pty : ℤ × Text) → Keeps Counts (add_pty pty)
  unfolding add_pty modify
  Counts-add_pty pty = record { after = λ s p. p }

  Counts-on_world : {A : Type 0} (m : Exec W A) → Keeps Counts (on_world m)
  Counts-on_world m = Keeps-on_world (λ (t : PtysConfig). t.count ≡ k) m

  Counts-open_ptys : (n : ℕ) → Keeps Counts (open_ptys h n)
  unfolding open_ptys
  Counts-open_ptys zero = search keeps_rules
  Counts-open_ptys (suc n) = Keeps-bind _ _ (Keeps-gets _) (λ t.
      Keeps-bind _ _ (Counts-on_world (open_pty h t))
        (λ pty. Keeps-bind _ _ (Counts-add_pty pty) (λ _. Counts-open_ptys n)))

  pub Counts-prepare : Keeps Counts (prepare h)
  unfolding prepare
  Counts-prepare = search (keeps_rules, Counts-open_ptys) depth 8

  pub Counts-revert : Keeps Counts (revert h)
  unfolding revert
  Counts-revert = search (keeps_rules, Counts-on_world) depth 8

-- A predicate on the configuration.
module _ {W : Type 0} (P : ContainerConfig → Type 0) where
  abbrev pub OnConfig : Container × W → Type 0
  OnConfig s = P s.0.config

  pub OnConfig-self : Keeps OnConfig self
  unfolding self gets
  OnConfig-self = record { after = λ s p. p }

  pub OnConfig-gets : {A : Type 0} (f : Container × W → A) → Keeps OnConfig (gets f)
  unfolding gets
  OnConfig-gets f = record { after = λ s p. p }

  pub OnConfig-on_world : {A : Type 0} (m : Exec W A) → Keeps OnConfig (on_world m)
  unfolding on_world
  OnConfig-on_world m = record { after = λ s p. p }

  pub OnConfig-call_back :
      (h : ContainerHost W) (callback : Option ℕ) → Keeps OnConfig (call_back h callback)
  unfolding call_back
  OnConfig-call_back h none = search keeps_rules
  OnConfig-call_back h (some f) = OnConfig-on_world (h.invoke f)

  pub OnConfig-can_execute :
      (h : ContainerHost W) (path : Text) → Keeps OnConfig (can_execute h path)
  unfolding can_execute
  OnConfig-can_execute h path = OnConfig-gets _

  pub OnConfig-change :
      (f : ContainerConfig → ContainerConfig)
      → ((c : ContainerConfig) → P c → P (f c))
      → Keeps OnConfig (change f)
  unfolding change modify
  OnConfig-change f k = record { after = λ s p. k s.0.config p }

  pub OnConfig-set_state :
      (to : State)
      → ((c : ContainerConfig) → P c → P (record c { state = to }))
      → Keeps OnConfig (set_state to)
  unfolding set_state
  OnConfig-set_state to k = OnConfig-change _ k

  updated :
      {B : Type 0} (put : B → ContainerConfig → ContainerConfig) (r : Outcome B) (s : Container × W)
      → P s.0.config
      → ((b : B) → r ≡ ok b → P (put b s.0.config))
      → P ((of_outcome r >>= λ b. change (put b)) s).1.0.config
  unfolding ◌>>=◌ change
  updated put (ok b) s p k = k b refl
  updated put (raised e) s p k = p
  updated put crashed s p k = p

  -- Where the call returns, what is put in may use what it returned for this configuration.
  pub OnConfig-update_by :
      {B : Type 0} (f : ContainerConfig → Outcome B) (put : B → ContainerConfig → ContainerConfig)
      → ((c : ContainerConfig) (b : B) → P c → f c ≡ ok b → P (put b c))
      → Keeps OnConfig (update_by f put)
  unfolding update_by
  OnConfig-update_by f put k = record {
    after = λ s p. unfold ◌>>=◌ in updated put (f s.0.config) s p (λ b e. k s.0.config b p e);
  }

  -- The terminals of the configuration change, but not how many are asked for.
  module _
      (other : (c : ContainerConfig) (t : PtysConfig)
        → t.count ≡ c.terminals.count
        → P c
        → P (record c { terminals = t })) where
    OnConfig-on_terminals :
        (m : Exec (PtysConfig × W) (Unit {0}))
        → ((k : ℕ) → Keeps (λ (s : PtysConfig × W). s.0.count ≡ k) m)
        → Keeps OnConfig (on_terminals m)
    unfolding on_terminals on_part
    OnConfig-on_terminals m k = record {
      after = λ s p.
          other s.0.config (m (s.0.config.terminals, s.1)).1.0
            ((k s.0.config.terminals.count).after (s.0.config.terminals, s.1) refl) p;
    }

    pub OnConfig-container_prep : (h : ContainerHost W) → Keeps OnConfig (container_prep h)
    unfolding container_prep
    OnConfig-container_prep h = OnConfig-on_terminals (prepare h) (Counts-prepare h)

    pub OnConfig-container_cleanup : (h : ContainerHost W) → Keeps OnConfig (container_cleanup h)
    unfolding container_cleanup
    OnConfig-container_cleanup h = OnConfig-on_terminals (revert h) (Counts-revert h)

pub ruleset config_rules = (
  keeps_rules, OnConfig-self, OnConfig-gets, OnConfig-on_world, OnConfig-call_back,
  OnConfig-can_execute,
)

-- What follows a check may use that it was passed.
pub Keeps-guarded :
    {S A : Type 0} {P : S → Type 0} (b : Bool) (e : Exception) (m : Exec S A)
    → (b ≡ false → Keeps P m)
    → Keeps P (do when b (throw e); m)
unfolding ◌>>=◌
Keeps-guarded true e m k = record { after = λ s p. p }
Keeps-guarded false e m k = record { after = λ s p. (k refl).after s p }
