-- ===== src/Server/Manager/Shape.antt =====
-- What most operations of server/zones-manager.cpp leave as it is: which zones there are, which are recorded for the
-- next start, and who holds the queue.
use mathlib.Core.Path.{subst}
use vasum.Prelude.{◌≡◌, refl, sym, ap, List, [], ◌∷◌, Text, ◌==◌, Bool-cases, inl, inr}
use vasum.Prelude.Exec.{Exec, Outcome, ok, raised, crashed, gets, modify, on_world}
use vasum.Prelude.Keeps.{Keeps, keeps_rules}
use vasum.Server.Zone.{Zone}
use vasum.Server.Zone.Lifecycle.{KeepsId}
use vasum.Server.Manager.{
  Manager, Reply, at_zone, each_zone, next_zone, on_zones, on_zone, for_each_zone, reply,
  set_active_zone_id, self,
}

-- The ids of the zones, in order.
abbrev pub ids : List Zone → List Text
ids [] = []
ids (z ∷ zs) = z.id ∷ ids zs

module _ {W A : Type 0} where
  at_zone-ids :
      (m : Exec (Zone × W) A)
      → KeepsId m
      → (id : Text) (zs : List Zone) (w : W) → ids (at_zone m id (zs, w)).1.0 ≡ ids zs
  unfolding at_zone
  at_zone-ids m k id [] w = refl
  at_zone-ids m k id (z ∷ zs) w = elim (Bool-cases (z.id == id)) [
    | inl e ↦ rw e (ap (λ i. i ∷ ids zs) ((k z.id).after (z, w) refl))
    | inr e ↦ rw e (ap (◌∷◌ z.id) (at_zone-ids m k id zs w))
  ]

module _ {W : Type 0} (m : Zone → Exec (Zone × W) (Unit {0})) (k : (z : Zone) → KeepsId (m z)) where
  next_zone-ids :
      (rest : W → Outcome (Unit {0}) × (List Zone × W)) (z z' : Zone) (zs : List Zone)
      (r : Outcome (Unit {0})) (w : W)
      → z'.id ≡ z.id
      → ((v : W) → ids (rest v).1.0 ≡ ids zs)
      → ids (next_zone rest z' zs r w).1.0 ≡ ids (z ∷ zs)
  next_zone-ids rest z z' zs (ok u) w same ih = cc (ih w)
  next_zone-ids rest z z' zs (raised e) w same ih = cc
  next_zone-ids rest z z' zs crashed w same ih = cc

  each_zone-ids : (zs : List Zone) (w : W) → ids (each_zone m (zs, w)).1.0 ≡ ids zs
  unfolding each_zone
  each_zone-ids [] w = refl
  each_zone-ids (z ∷ zs) w =
      let here = m z (z, w) in
      next_zone-ids (λ v. each_zone m (zs, v)) z here.1.0 zs here.0 here.1.1
        ((k z z.id).after (z, w) refl) (each_zone-ids zs)

-- A predicate on the ids of the zones, the recorded ids and the holder of the queue.
module _ {W : Type 0} (P : List Text → List Text → Text → Type 0) where
  abbrev pub Shape : Manager × W → Type 0
  Shape s = P (ids s.0.zones) s.0.dynamic.zone_ids s.0.exclusive_id_lock

  pub Shape-on_zone :
      {A : Type 0} (id : Text) (m : Exec (Zone × W) A) → KeepsId m → Keeps Shape (on_zone id m)
  unfolding on_zone on_zones
  Shape-on_zone id m k = record {
    after = λ s p.
        subst (λ is. P is s.0.dynamic.zone_ids s.0.exclusive_id_lock)
          (sym (at_zone-ids m k id s.0.zones s.1)) p;
  }

  pub Shape-for_each_zone :
      (m : Zone → Exec (Zone × W) (Unit {0}))
      → ((z : Zone) → KeepsId (m z))
      → Keeps Shape (for_each_zone m)
  unfolding for_each_zone on_zones
  Shape-for_each_zone m k = record {
    after = λ s p.
        subst (λ is. P is s.0.dynamic.zone_ids s.0.exclusive_id_lock)
          (sym (each_zone-ids m k s.0.zones s.1)) p;
  }

  pub Shape-reply : (r : Reply) → Keeps Shape (reply r)
  unfolding reply modify
  Shape-reply r = record { after = λ s p. p }

  pub Shape-set_active_zone_id : (id : Text) → Keeps Shape (set_active_zone_id id)
  unfolding set_active_zone_id modify
  Shape-set_active_zone_id id = record { after = λ s p. p }

  pub Shape-self : Keeps Shape self
  unfolding self gets
  Shape-self = record { after = λ s p. p }

  pub Shape-on_world : {A : Type 0} (m : Exec W A) → Keeps Shape (on_world m)
  unfolding on_world
  Shape-on_world m = record { after = λ s p. p }

pub ruleset shape_rules = (
  keeps_rules, Shape-on_zone, Shape-for_each_zone, Shape-reply, Shape-set_active_zone_id,
  Shape-self, Shape-on_world,
)
