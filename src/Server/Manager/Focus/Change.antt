-- ===== src/Server/Manager/Focus/Change.antt =====
-- What refocusing (refocus of server/zones-manager.cpp) makes of the active zone.
use mathlib.Core.Path.{subst}
use vasum.Prelude.{
  ◌≡◌, ◌∙◌, ◌⊎◌, inl, inr, refl, sym, ap, Bool, true, false, List, [], ◌∷◌, Text, ◌==◌, eq_iff,
  none, some, is_some, is_empty, find_if, Bool-cases, Option-cases,
}
use vasum.Prelude.Exec.{
  Outcome, ok, gets, Exec, pure, when, modify, ◌>>=◌, ◌>>◌, on_world, bind-inv,
}
use vasum.Prelude.Keeps.{Settles, Settles-bind}
use vasum.Prelude.Int.{ltb_ℤ, pos}
use vasum.Lxc.{c_call, State, running, eq_state, state_name}
use vasum.Server.Host.{Host}
use vasum.Server.Zone.{Zone}
use vasum.Server.Zone
use vasum.Server.Zone.States.{is_running-state}
use vasum.Server.Manager.{
  Manager, Method, find_zone, at_zone, on_zones, on_zone, for_each_zone, set_active_zone_id, self,
}
use vasum.Server.Manager.Focus.{id_of, send_to, focus_host, focus_zone, focus_internal, refocus}
use vasum.Server.Manager.Focus.Target.{runs, some_runs, target, refocus-target}

some-injective : {a b : Text} → some a ≡ some b → a ≡ b
some-injective e = cc

-- Whether the zone of the id has a running container, as far as the states say.
abbrev up : (Text → State) → Text → Bool
up states id = eq_state (states id) running

known-runs :
    (states : Text → State) (id : Text) (zs : List Zone)
    → is_some (find_zone id zs) ≡ true
    → some_runs states (find_zone id zs) ≡ up states id
unfolding find_zone
known-runs states id [] e = cc
known-runs states id (z ∷ zs) e = elim (Bool-cases (z.id == id)) [
  | inl same ↦ rw same (ap (up states) ((eq_iff z.id id).0 same))
  | inr other ↦ rw other (known-runs states id zs (rw other at e))
]

is_empty-true : (id : Text) → is_empty id ≡ true → id ≡ []
is_empty-true [] e = refl
is_empty-true (c ∷ cs) e = cc

-- A zone that runs, found by its id.
abbrev IsUp : (Text → State) → List Zone → Text → Type 0
IsUp states zs id = (is_some (find_zone id zs) ≡ true) × (up states id ≡ true)

some_runs-IsUp :
    (states : Text → State) (id : Text) (zs : List Zone)
    → some_runs states (find_zone id zs) ≡ true
    → IsUp states zs id
some_runs-IsUp states id zs e = elim (Option-cases (find_zone id zs)) [
  | inl none' ↦ cc (rw none' at e)
  | inr (z, found) ↦
      let known : is_some (find_zone id zs) ≡ true = rw found refl in
      (known, sym (known-runs states id zs known) ∙ e)
]

find_if-IsUp :
    (states : Text → State) (id : Text) (zs : List Zone)
    → id_of (find_if (runs states) zs) ≡ some id
    → IsUp states zs id
unfolding find_zone
find_if-IsUp states id [] e = cc
find_if-IsUp states id (z ∷ zs) e = elim (Bool-cases (runs states z)) [
  | inl yes' ↦
      let same : z.id ≡ id = some-injective (rw yes' at e) in
      (rw ((eq_iff z.id id).1 same) refl, ap (up states) (sym same) ∙ yes')
  | inr no' ↦ elim (Bool-cases (z.id == id)) [
    | inl same ↦ (rw same refl, (find_if-IsUp states id zs (rw no' at e)).1)
    | inr other ↦ rw other (find_if-IsUp states id zs (rw no' at e))
  ]
]

module _ {W : Type 0} (h : Host W) (w : W) (states : Text → State)
    (answers : (id : Text) → h.lxc.state id w ≡ state_name (states id)) where
  at_zone-is_running :
      (id : Text) (zs : List Zone)
      → is_some (find_zone id zs) ≡ true
      → at_zone (Zone.is_running h) id (zs, w) ≡ (ok (up states id), (zs, w))
  unfolding at_zone find_zone
  at_zone-is_running id [] e = cc
  at_zone-is_running id (z ∷ zs) e = elim (Bool-cases (z.id == id)) [
    | inl same ↦
        rw (same, is_running-state h z w (states z.id) (answers z.id))
          (ap (λ i. (ok (up states i), (z ∷ zs, w))) ((eq_iff z.id id).0 same))
    | inr other ↦ rw (other, at_zone-is_running id zs (rw other at e)) refl
  ]

  target-IsUp :
      (s : Manager) (id : Text) → target h w states answers s ≡ some id → IsUp states s.zones id
  target-IsUp s id e =
      elim (Bool-cases (some_runs states (find_zone s.dynamic.default_id s.zones))) [
        | inl yes' ↦
            let same : s.dynamic.default_id ≡ id = some-injective (rw yes' at e) in
            subst (IsUp states s.zones) same
              (some_runs-IsUp states s.dynamic.default_id s.zones yes')
        | inr no' ↦ find_if-IsUp states id s.zones (rw no' at e)
      ]

  target-new :
      (s : Manager) (id : Text)
      → some_runs states (find_zone s.active_zone_id s.zones) ≡ false
      → target h w states answers s ≡ some id
      → id == s.active_zone_id ≡ false
  target-new s id down e = elim (Bool-cases (id == s.active_zone_id)) [
    | inr other ↦ other
    | inl same ↦
        let (known, runs_now) =
          subst (IsUp states s.zones) ((eq_iff id s.active_zone_id).0 same) (target-IsUp s id e) in
        cc (known-runs states s.active_zone_id s.zones known, runs_now, down)
  ]

  -- Whether the terminal of the zone was activated.
  abbrev pub activation : Manager → Text → Outcome Bool
  activation s id = (on_zone id (Zone.activate_vt h) (s, w)).0

  -- What the active zone is after refocusing.
  abbrev pub Refocused : Manager → Manager × W → Type 0
  Refocused s t =
      ((some_runs states (find_zone s.active_zone_id s.zones) ≡ true) × (t ≡ (s, w)))
      ⊎ ((some_runs states (find_zone s.active_zone_id s.zones) ≡ false)
          × (target h w states answers s ≡ none)
          × (t.0.active_zone_id ≡ []))
      ⊎ ((some_runs states (find_zone s.active_zone_id s.zones) ≡ false)
          × ((id : Text) × (target h w states answers s ≡ some id)
              × (((activation s id ≡ ok true) × (t.0.active_zone_id ≡ id))
                  ⊎ ((activation s id ≡ ok false) × (t.0.active_zone_id ≡ s.active_zone_id)))))

  active-Settles :
      (id : Text) → Settles (λ (t : Manager × W). t.0.active_zone_id ≡ id) (set_active_zone_id id)
  unfolding set_active_zone_id modify
  active-Settles id = record { settled = λ s t a e. ap (λ r. r.1.0.active_zone_id) (sym e) }

  -- The host's terminal, where it has one.
  abbrev show_host : Manager → Method W (Unit {0})
  show_host s =
      when (ltb_ℤ (pos 0) s.config.host_vt)
        do on_world (c_call (h.activate_vt s.config.host_vt)); pure tt

  host_focused :
      (s : Manager) (t : Manager × W) → focus_host h (s, w) ≡ (ok tt, t) → t.0.active_zone_id ≡ []
  unfolding focus_host self gets when ◌>>=◌
  host_focused s t e = elim (Bool-cases (is_empty s.active_zone_id)) [
    | inl none' ↦
        ap (λ r. r.1.0.active_zone_id) (sym (rw none' at e)) ∙ is_empty-true s.active_zone_id none'
    | inr some' ↦
        (Settles-bind (show_host s) (λ _. set_active_zone_id []) (λ _. active-Settles [])).settled
          (s, w) t tt (rw some' at e)
  ]

  -- What is left of focus_zone, once the zone is known to run.
  abbrev switch : Text → Bool → Method W (Unit {0})
  switch id activated = when activated do for_each_zone (send_to h id); set_active_zone_id id

  switched :
      (id : Text) (activated : Bool) (u t : Manager × W)
      → switch id activated u ≡ (ok tt, t)
      → ((activated ≡ true) × (t.0.active_zone_id ≡ id)) ⊎ ((activated ≡ false) × (t ≡ u))
  unfolding when
  switched id true u t e = inl (
    refl,
    (Settles-bind (for_each_zone (send_to h id)) (λ _. set_active_zone_id id)
          (λ _. active-Settles id)).settled
        u t tt e,
  )
  switched id false u t e = inr (refl, ap (λ r. r.1) (sym e))

  on_zone_active :
      {A : Type 0} (id : Text) (m : Exec (Zone × W) A) (s : Manager × W)
      → (on_zone id m s).1.0.active_zone_id ≡ s.0.active_zone_id
  unfolding on_zone on_zones
  on_zone_active id m s = refl

  is_running_there :
      (s : Manager) (id : Text)
      → IsUp states s.zones id
      → on_zone id (Zone.is_running h) (s, w) ≡ (ok true, (s, w))
  unfolding on_zone on_zones
  is_running_there s id (known, now) = rw (at_zone-is_running id s.zones known, now) refl

  finished :
      (s : Manager) (id : Text) (t : Manager × W)
      → (on_zone id (Zone.activate_vt h) >>= switch id) (s, w) ≡ (ok tt, t)
      → ((activation s id ≡ ok true) × (t.0.active_zone_id ≡ id))
        ⊎ ((activation s id ≡ ok false) × (t.0.active_zone_id ≡ s.active_zone_id))
  finished s id t e =
      let (activated, u, p, e1) = bind-inv (on_zone id (Zone.activate_vt h)) (switch id) (s, w) e in
      let kept = on_zone_active id (Zone.activate_vt h) (s, w) in
      elim (switched id activated u t e1) [
        | inl (yes', now) ↦ inl (ap (λ r. r.0) p ∙ ap ok yes', now)
        | inr (no', same) ↦ inr (
          ap (λ r. r.0) p ∙ ap ok no',
          ap (λ r. r.0.active_zone_id) same ∙ ap (λ r. r.1.0.active_zone_id) (sym p) ∙ kept,
        )
      ]

  zone_focused :
      (s : Manager) (id : Text) (t : Manager × W)
      → id == s.active_zone_id ≡ false
      → IsUp states s.zones id
      → focus_zone h id (s, w) ≡ (ok tt, t)
      → ((activation s id ≡ ok true) × (t.0.active_zone_id ≡ id))
        ⊎ ((activation s id ≡ ok false) × (t.0.active_zone_id ≡ s.active_zone_id))
  unfolding focus_zone self ◌>>=◌
  zone_focused s id t other is_up e = finished s id t (rw (other, is_running_there s id is_up) at e)

  -- In a world in which liblxc names a state for every container, a refocusing that returns leaves everything as it is while the
  -- active zone runs. Where it does not, or there is none, and no zone runs, there is no active zone afterwards. Else the
  -- default zone, if that runs, or else the first zone that runs, is the active one if its terminal can be activated, and if
  -- not, the active zone stays.
  pub refocus-Refocused :
      (s : Manager) (t : Manager × W) → refocus h (s, w) ≡ (ok tt, t) → Refocused s t
  unfolding focus_internal
  refocus-Refocused s t e =
      let went = sym (refocus-target h w states answers s) ∙ e in
      elim (Bool-cases (some_runs states (find_zone s.active_zone_id s.zones))) [
        | inl up' ↦ inl (up', ap (λ r. r.1) (sym (rw up' at went)))
        | inr down ↦ elim (Option-cases (target h w states answers s)) [
          | inl none' ↦ inr (inl (down, none', host_focused s t (rw (down, none') at went)))
          | inr (id, some') ↦ inr (
              inr (
                down,
                (
                  id,
                  some',
                  zone_focused s id t (target-new s id down some') (target-IsUp s id some')
                      (rw (down, some') at went),
                ),
              ))
        ]
      ]
