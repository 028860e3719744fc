-- ===== src/Server/Manager/Focus.antt =====
-- Which zone is in the foreground (server/zones-manager.cpp): the circular search, focusing and refocusing.
pub mod Circular
pub mod Target
pub mod Change
pub mod Keeps
pub mod Replies
use vasum.Prelude.{
  ℕ, zero, suc, ◌+◌, Bool, true, false, ◌&&◌, List, [], ◌∷◌, ◌++◌, Text, ◌==◌, Option, none, some,
  is_some, is_empty, not, nat_eq, length, if◌then◌else◌,
}
use vasum.Prelude.Int.{ℤ, pos, ltb_ℤ}
use vasum.Prelude.Exec.{
  Outcome, ok, raised, crashed, Exec, pure, crash, gets, modify, when, ◌>>=◌, ◌>>◌, on_world,
}
use vasum.Lxc.{c_call}
use vasum.Server.Host.{Host}
use vasum.Server.Zone.{Zone}
use vasum.Server.Zone
use vasum.Server.Manager.{
  Manager, Method, find_zone, on_zone, for_each_zone, set_active_zone_id, self, ask,
}

abbrev get_elem? : {A : Type 0} → List A → ℕ → Option A
get_elem? [] i = none
get_elem? (x ∷ xs) zero = some x
get_elem? (x ∷ xs) (suc i) = get_elem? xs i

abbrev pub later : Option ℕ → Option ℕ
later none = none
later (some i) = some (suc i)

-- The position of the first zone of the id.
pub index_of : Text → List Zone → Option ℕ
index_of id [] = none
index_of id (z ∷ zs) = let rest = index_of id zs in if z.id == id then some 0 else later rest

module _ {W A : Type 0} (pred : A → Exec W Bool) where
  -- The loop of circularFindNext, from a position; the fuel is the number of rounds left.
  circular_loop : ℕ → List A → ℕ → ℕ → Exec W (Option A)
  circular_loop zero xs current next w = (crashed, w)
  circular_loop (suc fuel) xs current next w =
      let i = if nat_eq (next + 1) (length xs) then 0 else next + 1 in
      if nat_eq i current then (ok none, w) else elim (get_elem? xs i) [
        | none ↦ (crashed, w)
        | some x ↦
            let (r, w') = pred x w in
            elim r [
              | ok true ↦ (ok (some x), w')
              | ok false ↦ circular_loop fuel xs current i w'
              | raised e ↦ (raised e, w')
              | crashed ↦ (crashed, w')
            ]
      ]

  pub circular_find_next : List A → Option ℕ → Exec W (Option A)
  unfolding circular_loop
  circular_find_next [] current = pure none
  circular_find_next (x ∷ xs) none = pure none
  circular_find_next (x ∷ xs) (some current) =
      circular_loop (length (x ∷ xs)) (x ∷ xs) current current

  -- std::find_if
  unfoldable pub find_first : List A → Exec W (Option A)
  find_first [] = pure none
  find_first (x ∷ xs) = do hit ← pred x; if hit then pure (some x) else find_first xs

abbrev pub id_of : Option Zone → Option Text
id_of none = none
id_of (some z) = some z.id

module _ {W : Type 0} (h : Host W) where
  -- zoneIsRunning
  unfoldable pub zone_is_running : Zone → Exec W Bool
  zone_is_running z = ask z (Zone.is_running h)

  -- iter != end && get(iter).isRunning()
  unfoldable pub is_running_in : Option Zone → Method W Bool
  unfolding zone_is_running
  is_running_in none = pure false
  is_running_in (some z) = on_world (zone_is_running z)

  -- The body of the loop of focusInternal, for the zone that gets the focus.
  send_to : Text → Zone → Exec (Zone × W) (Unit {0})
  send_to id z = do
    alive ← Zone.is_running h
    when alive (if z.id == id then Zone.go_foreground h else Zone.go_background h)

  focus_host : Method W (Unit {0})
  focus_host = do
    s ← self
    when (not (is_empty s.active_zone_id)) do
      when (ltb_ℤ (pos 0) s.config.host_vt)
          do on_world (c_call (h.activate_vt s.config.host_vt)); pure tt
      set_active_zone_id []

  focus_zone : Text → Method W (Unit {0})
  unfolding send_to
  focus_zone id = do
    s ← self
    when (not (id == s.active_zone_id)) do
      alive ← on_zone id (Zone.is_running h)
      if not alive then crash else do
        activated ← on_zone id (Zone.activate_vt h)
        when activated do for_each_zone (send_to id); set_active_zone_id id

  unfoldable pub focus_internal : Option Text → Method W (Unit {0})
  unfolding focus_host focus_zone
  focus_internal none = focus_host
  focus_internal (some id) = focus_zone id

  -- The default zone if it runs, or else any running zone, or else the host.
  choose_focus : Method W (Option Text)
  choose_focus = do
    s ← self
    alive ← is_running_in (find_zone s.dynamic.default_id s.zones)
    if alive
        then pure (some s.dynamic.default_id)
        else do found ← on_world (find_first zone_is_running s.zones); pure (id_of found)

  unfoldable pub refocus : Method W (Unit {0})
  unfolding choose_focus
  refocus = do
    s ← self
    alive ← is_running_in (find_zone s.active_zone_id s.zones)
    when (not alive) do target ← choose_focus; focus_internal target

  pub focus : Text → Method W (Unit {0})
  focus id = do s ← self; focus_internal (id_of (find_zone id s.zones))

  -- The iterator of the foreground zone is read without a test for the end.
  pub get_running_foreground_zone_id : Method W Text
  get_running_foreground_zone_id = do
    s ← self
    if is_empty s.active_zone_id then pure [] else do
      alive ← on_zone s.active_zone_id (Zone.is_running h)
      pure (if alive then s.active_zone_id else [])

  pub get_next_to_foreground_zone : Method W (Option Zone)
  get_next_to_foreground_zone = do
    s ← self
    if is_some (find_zone s.active_zone_id s.zones)
        then on_world
            (circular_find_next zone_is_running s.zones (index_of s.active_zone_id s.zones))
        else on_world (find_first zone_is_running s.zones)

  pub get_next_to_foreground_zone_id : Method W Text
  get_next_to_foreground_zone_id = do
    next ← get_next_to_foreground_zone
    pure (elim next [ none ↦ [] | some z ↦ z.id ])

  pub switching_sequence_monitor_notify : Method W (Unit {0})
  switching_sequence_monitor_notify = do
    next ← get_next_to_foreground_zone
    when (is_some next) (focus_internal (id_of next))
