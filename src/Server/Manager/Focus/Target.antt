-- ===== src/Server/Manager/Focus/Target.antt =====
-- Which zone the manager brings to the foreground (refocus and getNextToForegroundZoneIterator of
-- server/zones-manager.cpp), in a world whose containers have given states.
use vasum.Prelude.{
  ℕ, suc, ◌<◌, ◌≡◌, refl, ◌∙◌, inl, inr, Bool, false, List, [], ◌∷◌, ◌++◌, Text, ◌==◌, arith,
  Option, none, some, is_some, find_if, length, Bool-cases, Option-cases, if◌then◌else◌,
}
use vasum.Prelude.Exec.{ok, pure, ◌>>=◌, on_world}
use vasum.Lxc.{State, running, eq_state, state_name}
use vasum.Server.Host.{Host}
use vasum.Server.Zone.{Zone}
use vasum.Server.Zone.States.{is_running-state}
use vasum.Server.Manager.{Manager, find_zone, ask, self}
use vasum.Server.Manager.Focus.{
  later, index_of, id_of, zone_is_running, is_running_in, find_first, choose_focus, refocus,
  focus_internal, get_next_to_foreground_zone,
}
use vasum.Server.Manager.Focus.Circular.{drop, take, circular_find_next-find_if}

-- The state of the zone's container is that of a running one.
abbrev pub runs : (Text → State) → Zone → Bool
runs states z = eq_state (states z.id) running

abbrev pub some_runs : (Text → State) → Option Zone → Bool
some_runs states none = false
some_runs states (some z) = runs states z

some_eq : {a b : ℕ} → some a ≡ some b → a ≡ b
some_eq e = cc

later-bound :
    (o : Option ℕ) (n i : ℕ) → ((k : ℕ) → o ≡ some k → k < n) → later o ≡ some i → i < suc n
later-bound none n i bound e = cc
later-bound (some k) n i bound e =
    let below = bound k refl in let same : suc k ≡ i = some_eq e in omega (arith, below, same)

index_of-bound : (id : Text) (zs : List Zone) (i : ℕ) → index_of id zs ≡ some i → i < length zs
unfolding index_of
index_of-bound id [] i e = cc
index_of-bound id (z ∷ zs) i e = elim (Bool-cases (z.id == id)) [
  | inl same ↦ (let at : 0 ≡ i = some_eq (rw same at e) in omega (arith, at))
  | inr other ↦
      later-bound (index_of id zs) (length zs) i (λ k. index_of-bound id zs k) (rw other at e)
]

is_some-later : (o : Option ℕ) → is_some o ≡ is_some (later o)
is_some-later none = refl
is_some-later (some i) = refl

index_of-none : (id : Text) (zs : List Zone) → is_some (find_zone id zs) ≡ is_some (index_of id zs)
unfolding index_of find_zone
index_of-none id [] = refl
index_of-none id (z ∷ zs) = elim (Bool-cases (z.id == id)) [
  | inl e ↦ rw e refl
  | inr e ↦ rw e (index_of-none id zs ∙ is_some-later (index_of id zs))
]

module _ {W : Type 0} (h : Host W) (w : W) (states : Text → State)
    (answers : (id : Text) → h.lxc.state id w ≡ state_name (states id)) where
  pub zone_is_running-runs : (z : Zone) → zone_is_running h z w ≡ (ok (runs states z), w)
  unfolding zone_is_running ask
  zone_is_running-runs z = rw (is_running-state h z w (states z.id) (answers z.id))

  find_first-find_if :
      (zs : List Zone) → find_first (zone_is_running h) zs w ≡ (ok (find_if (runs states) zs), w)
  unfolding find_first ◌>>=◌
  find_first-find_if [] = refl
  find_first-find_if (z ∷ zs) = elim (Bool-cases (runs states z)) [
    | inl up ↦ rw (zone_is_running-runs z, up) refl
    | inr down ↦ rw (zone_is_running-runs z, down, find_first-find_if zs) refl
  ]

  is_running_in-some_runs :
      (s : Manager) (found : Option Zone)
      → is_running_in h found (s, w) ≡ (ok (some_runs states found), (s, w))
  unfolding is_running_in on_world pure
  is_running_in-some_runs s none = refl
  is_running_in-some_runs s (some z) = rw (zone_is_running-runs z)

  -- The default zone where it runs, or else the first zone that runs, or else the host.
  abbrev pub target : Manager → Option Text
  target s =
      if some_runs states (find_zone s.dynamic.default_id s.zones)
      then some s.dynamic.default_id
      else id_of (find_if (runs states) s.zones)

  choose_focus-target : (s : Manager) → choose_focus h (s, w) ≡ (ok (target s), (s, w))
  unfolding choose_focus ◌>>=◌ self on_world
  choose_focus-target s =
      elim (Bool-cases (some_runs states (find_zone s.dynamic.default_id s.zones))) [
        | inl up ↦ rw (is_running_in-some_runs s (find_zone s.dynamic.default_id s.zones), up) refl
        | inr down ↦
            rw
              (
                is_running_in-some_runs s (find_zone s.dynamic.default_id s.zones),
                down,
                find_first-find_if s.zones,
              )
              refl
      ]

  -- In a world in which liblxc names a state for every container, refocusing leaves everything as it is while the
  -- active zone runs. Where it does not, or there is none, the focus goes to the default zone if that runs, or else
  -- to the first zone that runs, or else to the host.
  pub refocus-target :
      (s : Manager)
      → refocus h (s, w) ≡ (
          if some_runs states (find_zone s.active_zone_id s.zones)
          then (ok tt, (s, w))
          else focus_internal h (target s) (s, w))
  unfolding refocus ◌>>=◌ self
  refocus-target s = elim (Bool-cases (some_runs states (find_zone s.active_zone_id s.zones))) [
    | inl up ↦ rw (is_running_in-some_runs s (find_zone s.active_zone_id s.zones), up) refl
    | inr down ↦
        rw
          (
            is_running_in-some_runs s (find_zone s.active_zone_id s.zones),
            down,
            choose_focus-target s,
          )
          refl
  ]

  -- The first zone that runs, of those behind the active zone and then those in front of it, or of all where no zone
  -- is active.
  abbrev pub next_of : List Zone → Option ℕ → Option Zone
  next_of zones none = find_if (runs states) zones
  next_of zones (some i) = find_if (runs states) (drop (suc i) zones ++ take i zones)

  -- In such a world, in which liblxc names a state for every container, the zone that the switch of the foreground
  -- goes to is the first one that runs among those behind the active zone, in their order, and then those in front
  -- of it; where no zone is active, it is the first one that runs. There is none exactly if there is no such zone.
  -- The manager and its world stay as they are.
  pub get_next_to_foreground_zone-next_of :
      (s : Manager)
      → get_next_to_foreground_zone h (s, w)
        ≡ (ok (next_of s.zones (index_of s.active_zone_id s.zones)), (s, w))
  unfolding get_next_to_foreground_zone ◌>>=◌ self on_world
  get_next_to_foreground_zone-next_of s = elim (Option-cases (index_of s.active_zone_id s.zones)) [
    | inl e ↦ rw (index_of-none s.active_zone_id s.zones, e, find_first-find_if s.zones) refl
    | inr (i, e) ↦
        rw
          (
            index_of-none s.active_zone_id s.zones,
            e,
            circular_find_next-find_if (zone_is_running h) (runs states) w s.zones i
                zone_is_running-runs (index_of-bound s.active_zone_id s.zones i e),
          )
          refl
  ]
