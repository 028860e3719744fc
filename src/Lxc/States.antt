-- ===== src/Lxc/States.antt =====
-- The states of a container as liblxc names them, and what a shutdown does in each (common/lxc/zone.cpp).
use vasum.Prelude.{
  ◌≡◌, ◌≢◌, refl, ap, ◌∙◌, ◌↔◌, ◌⊎◌, inl, inr, Bool, true, false, [], ◌∷◌, Text, lit, ◌==◌, eq_iff,
  Option, some, Option-cases, Bool-cases, if◌then◌else◌,
}
use vasum.Prelude.Int.{ℤ}
use vasum.Prelude.Decimal.{to_string}
use vasum.Prelude.Exec.{out_of_range, ok, raised, Exec, ◌>>=◌}
use vasum.Lxc.{
  State, stopped, starting, running, stopping, aborting, freezing, frozen, thawed, LxcApi,
  state_name, state_of, eq_state, get_state, c_call, lxc_shutdown,
}

state_of-state_name : (s : State) → state_of (state_name s) ≡ some s
unfolding state_of ◌==◌
state_of-state_name stopped = refl
state_of-state_name starting = refl
state_of-state_name running = refl
state_of-state_name stopping = refl
state_of-state_name aborting = refl
state_of-state_name freezing = refl
state_of-state_name frozen = refl
state_of-state_name thawed = refl

some_eq : (a b : State) → some a ≡ some b → a ≡ b
some_eq a b e = cc

branch_sound :
    (t a : Text) (x s : State) (rest : Option State)
    → a ≡ state_name x
    → (rest ≡ some s → t ≡ state_name s)
    → (if t == a then some x else rest) ≡ some s
    → t ≡ state_name s
branch_sound t a x s rest named other e = elim (Bool-cases (t == a)) [
  | inl same ↦ (eq_iff t a).0 same ∙ named ∙ ap state_name (some_eq x s (rw same at e))
  | inr differ ↦ other (rw differ at e)
]

state_of_sound : (t : Text) (s : State) → state_of t ≡ some s → t ≡ state_name s
unfolding state_of
state_of_sound t s = branch_sound t _ stopped s _ refl (
    branch_sound t _ starting s _ refl (
      branch_sound t _ running s _ refl (
        branch_sound t _ stopping s _ refl (
          branch_sound t _ aborting s _ refl (
            branch_sound t _ freezing s _ refl
              (branch_sound t _ frozen s _ refl (branch_sound t _ thawed s _ refl (λ e. cc))))))))

-- The map of states is the inverse of their names: a text stands for a state exactly if it is that state's name.
pub state_of_iff : (t : Text) (s : State) → (state_of t ≡ some s) ↔ (t ≡ state_name s)
state_of_iff t s = (state_of_sound t s, λ e. rw e (state_of-state_name s))

module _ {W : Type 0} (h : LxcApi W) (name : Text) (w : W) where
  -- The state of a container is asked of liblxc, without changing the world: where its answer is the name of a state, that
  -- state is returned, and where it is the name of none, the exception of a map without the key is thrown.
  pub get_state_cases :
      ((s : State) × (h.state name w ≡ state_name s) × (get_state h name w ≡ (ok s, w)))
      ⊎ (((s : State) → h.state name w ≢ state_name s)
          × (get_state h name w ≡ (raised out_of_range, w)))
  unfolding get_state ◌>>=◌
  get_state_cases = elim (Option-cases (state_of (h.state name w))) [
    | inl unknown ↦ inr (λ s e. cc ((state_of_iff (h.state name w) s).1 e), rw unknown)
    | inr (s, e) ↦ inl (s, (state_of_iff (h.state name w) s).0 e, rw e)
  ]

  pub get_state-ok : (s : State) → h.state name w ≡ state_name s → get_state h name w ≡ (ok s, w)
  unfolding get_state ◌>>=◌
  get_state-ok s e = rw ((state_of_iff (h.state name w) s).1 e)

  -- The command of a graceful shutdown.
  abbrev pub stop_command : Text → ℤ → Exec W Bool
  stop_command path timeout = c_call (
      h.execute_and_wait (lit "/usr/bin/lxc-stop") (
        lit "lxc-stop"
        ∷ lit "-n"
        ∷ name
        ∷ lit "-P"
        ∷ path
        ∷ lit "-t"
        ∷ to_string timeout
        ∷ lit "--nokill"
        ∷ []))

  shutdown-stopped :
      (path : Text) (timeout : ℤ)
      → h.state name w ≡ state_name stopped
      → lxc_shutdown h name path timeout w ≡ (ok true, w)
  unfolding lxc_shutdown ◌>>=◌
  shutdown-stopped path timeout e = rw (get_state-ok stopped e)

  shutdown-running :
      (path : Text) (timeout : ℤ)
      → h.state name w ≡ state_name running
      → lxc_shutdown h name path timeout w ≡ stop_command path timeout w
  unfolding lxc_shutdown ◌>>=◌
  shutdown-running path timeout e = rw (get_state-ok running e)

  shutdown-other :
      (path : Text) (timeout : ℤ) (s : State)
      → eq_state s stopped ≡ false
      → eq_state s running ≡ false
      → h.state name w ≡ state_name s
      → lxc_shutdown h name path timeout w ≡ (ok false, w)
  unfolding lxc_shutdown ◌>>=◌
  shutdown-other path timeout s not_stopped not_running e =
      rw (get_state-ok s e, not_stopped, not_running)

  -- A graceful shutdown, by the state of the container. A stopped container is shut down already. A running one gets the
  -- command of liblxc with the container's name, its path and the timeout, and what the command says is the result. In any
  -- other state the shutdown fails, and no command is run.
  pub lxc_shutdown_cases :
      (path : Text) (timeout : ℤ) (s : State)
      → h.state name w ≡ state_name s
      → ((s ≡ stopped) × (lxc_shutdown h name path timeout w ≡ (ok true, w)))
        ⊎ (((s ≡ running) × (lxc_shutdown h name path timeout w ≡ stop_command path timeout w))
            ⊎ ((s ≢ stopped)
                × (s ≢ running)
                × (lxc_shutdown h name path timeout w ≡ (ok false, w))))
  lxc_shutdown_cases path timeout stopped e = inl (refl, shutdown-stopped path timeout e)
  lxc_shutdown_cases path timeout running e = inr (inl (refl, shutdown-running path timeout e))
  lxc_shutdown_cases path timeout s e =
      inr (inr (λ e'. cc, λ e'. cc, shutdown-other path timeout s refl refl e))
