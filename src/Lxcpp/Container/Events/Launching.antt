-- ===== src/Lxcpp/Container/Events/Launching.antt =====
-- What a start of a container (libs/lxcpp/container-impl.cpp, commands/start.cpp) has done where it returns.
use vasum.Prelude.{
  ◌∙◌, ◌≡◌, ◌≢◌, ◌⊎◌, inl, inr, refl, sym, ap, Bool, true, false, List, ◌++◌, length, not,
  Bool-cases,
}
use vasum.Prelude.Int.{ℤ, pos, eq_ℤ, eq_ℤ_iff}
use vasum.Prelude.Exec.{
  Outcome, ok, raised, Exec, gets, when, throw, process_setup, forbidden_action, configure,
  on_world, on_part, bind-inv,
}
use vasum.Prelude.Returns.{ok-injective}
use vasum.Lxcpp.ContainerConfig.{ContainerConfig, PtyConfig, PtysConfig, stopped, starting}
use vasum.Lxcpp.Container.{ContainerHost, Container, self}
use vasum.Lxcpp.Container.Terminals.{prepare}
use vasum.Lxcpp.Container.Stale.{prepare_grow}
use vasum.Lxcpp.Container.Lifecycle.{on_terminals, container_prep, start_execute, launch, start}
use vasum.Lxcpp.Container.Events.Moves.{begun, Outcome-cases, start-Moves}
use vasum.Lxcpp.Container.Events.Starting.{IsReady, start_cases}

-- What is done between a state and the one that a start leaves: the terminals that the configuration asks for stand behind those
-- that were there, and a guard was forked with the configuration that is left, and set up without an error.
pub record Launched {W : Type 0} (h : ContainerHost W) (s t : Container × W) : Type 0 where
  pub new : List PtyConfig
  pub ptys : t.0.config.terminals.ptys ≡ s.0.config.terminals.ptys ++ new
  pub as_many : length new ≡ s.0.config.terminals.count
  pub state : t.0.config.state ≡ starting
  pub guard : ℤ
  pub before : W
  pub between : W
  pub forked : h.fork_daemonize t.0.config before ≡ (ok guard, between)
  pub waited : h.waitpid guard between ≡ (ok (pos 0), t.1)

module _ {W : Type 0} where
  on_world_lem :
      {A : Type 0} (m : Exec W A) (s t : Container × W) {a : A}
      → on_world m s ≡ (ok a, t)
      → (m s.1 ≡ (ok a, t.1)) × (t.0 ≡ s.0)
  unfolding on_world
  on_world_lem m s t e = ((λ i. ((e i).0, (e i).1.1)), ap (λ r. r.1.0) (sym e))

  on_terminals_lem :
      (m : Exec (PtysConfig × W) (Unit {0})) (s t : Container × W) {a : Unit {0}}
      → on_terminals m s ≡ (ok a, t)
      → (m (s.0.config.terminals, s.1) ≡ (ok a, (t.0.config.terminals, t.1)))
        × (t.0.config.state ≡ s.0.config.state)
  unfolding on_terminals on_part
  on_terminals_lem m s t e = (
    (λ i. ((e i).0, ((e i).1.0.config.terminals, (e i).1.1))),
    ap (λ r. r.1.0.config.state) (sym e),
  )

  when_passed :
      (b : Bool) (s t : Container × W) {a : Unit {0}}
      → when b (throw process_setup) s ≡ (ok a, t)
      → (b ≡ false) × (t ≡ s)
  unfolding when throw
  when_passed true s t e = cc
  when_passed false s t e = (refl, ap (λ r. r.1) (sym e))

is_zero : (n : ℤ) → not (eq_ℤ n (pos 0)) ≡ false → n ≡ pos 0
is_zero n e = elim (Bool-cases (eq_ℤ n (pos 0))) [
  | inl same ↦ (eq_ℤ_iff n (pos 0)).0 same
  | inr other ↦ cc (rw other at e)
]

module _ {W : Type 0} (h : ContainerHost W) where
  start_execute_lem :
      (c : ContainerConfig) (s t : Container × W) {a : Unit {0}}
      → start_execute h c s ≡ (ok a, t)
      → (guard : ℤ) × (between : W) × (h.fork_daemonize c s.1 ≡ (ok guard, between))
        × (h.waitpid guard between ≡ (ok (pos 0), t.1))
        × (t.0 ≡ s.0)
  unfolding start_execute
  start_execute_lem c s t e =
      let (guard, u, p, e1) = bind-inv (on_world (h.fork_daemonize c)) _ s e in
      let (status, v, q, e2) = bind-inv (on_world (h.waitpid guard)) _ u e1 in
      let (forked, same_u) = on_world_lem (h.fork_daemonize c) s u p in
      let (waited, same_v) = on_world_lem (h.waitpid guard) u v q in
      let (passed, last) = when_passed (not (eq_ℤ status (pos 0))) v t e2 in
      let zero' : status ≡ pos 0 = is_zero status passed in
      (
        guard,
        u.1,
        forked,
        waited ∙ (λ i. (ok (zero' i), (sym last i).1)),
        ap (λ x. x.0) last ∙ same_v ∙ same_u,
      )

  launch-Launched : (s t : Container × W) → launch h (begun h s) ≡ (ok tt, t) → Launched h s t
  unfolding launch container_prep self gets
  launch-Launched s t e =
      let (_, u, p, e1) = bind-inv (on_terminals (prepare h)) _ (begun h s) e in
      let (c, v, q, e2) = bind-inv self _ u e1 in
      let same_c : c ≡ u.0.config = ok-injective (ap (λ r. r.0) (sym q)) in
      let same_v : v ≡ u = ap (λ r. r.1) (sym q) in
      let (guard, between, forked, waited, same_t) = start_execute_lem c v t e2 in
      let (made, state) = on_terminals_lem (prepare h) (begun h s) u p in
      let (new, grown, as_many, _) = prepare_grow h _ _ made in
      let same : t.0.config ≡ u.0.config =
        ap (λ x. x.config) same_t ∙ ap (λ x. x.0.config) same_v in
      record {
        new = new;
        ptys = ap (λ x. x.terminals.ptys) same ∙ grown;
        as_many = as_many;
        state = ap (λ x. x.state) same ∙ state;
        guard = guard;
        before = v.1;
        between = between;
        forked = ap (λ x. h.fork_daemonize x v.1) (same ∙ sym same_c) ∙ forked;
        waited = waited;
      }

  -- How a start ends. Unless the container is stopped, it throws, and changes nothing. Where the configuration is not ready,
  -- it throws, and the container is left in the starting state. Otherwise, if it returns, the terminals that the configuration
  -- asks for stand behind those that were there, a guard was forked with the configuration that is left, and the status that
  -- was waited for is 0; and if it does not return, the container is left in the starting state too.
  pub start_ends :
      (s t : Container × W) (r : Outcome (Unit {0}))
      → start h s ≡ (r, t)
      → ((s.0.config.state ≢ stopped) × (r ≡ raised forbidden_action) × (t ≡ s))
        ⊎ ((s.0.config.state ≡ stopped)
            × (¬ IsReady h s.0.config)
            × (r ≡ raised configure)
            × (t ≡ begun h s))
        ⊎ ((s.0.config.state ≡ stopped)
            × IsReady h s.0.config
            × (((r ≡ ok tt) × Launched h s t) ⊎ ((r ≢ ok tt) × (t.0.config.state ≡ starting))))
  start_ends s t r e = elim (start_cases h s) [
    | inl (n, same) ↦ let out = sym e ∙ same in inl (n, ap (λ p. p.0) out, ap (λ p. p.1) out)
    | inr (inl (st, unready, same)) ↦
        let out = sym e ∙ same in inr (inl (st, unready, ap (λ p. p.0) out, ap (λ p. p.1) out))
    | inr (inr (st, ready, same)) ↦ inr (
        inr (
          st,
          ready,
          elim (Outcome-cases r) [
            | inl (a, o) ↦ inl (o, launch-Launched s t (sym same ∙ e ∙ (λ i. (o i, t))))
            | inr (inl (x, o)) ↦ inr ((λ k. cc (o, k)), left s t r st e)
            | inr (inr o) ↦ inr ((λ k. cc (o, k)), left s t r st e)
          ],
        ))
  ]
    where
      left :
          (s t : Container × W) (r : Outcome (Unit {0}))
          → s.0.config.state ≡ stopped
          → start h s ≡ (r, t)
          → t.0.config.state ≡ starting
      left s t r st e = elim (start-Moves h s) [
        | inl (_, now) ↦ ap (λ p. p.1.0.config.state) (sym e) ∙ now
        | inr (n, _) ↦ absurd (n st)
      ]
