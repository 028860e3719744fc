-- ===== src/Server/Manager/Create/Defaults.antt =====
-- The default zone (updateDefaultId of server/zones-manager.cpp): who is it after the operations that end by choosing it.
use vasum.Prelude.{
  ◌≡◌, refl, sym, ap, ◌∙◌, ◌++◌, ◌⊎◌, inl, inr, Bool, true, ◌&&◌, ◌||◌, List, [], ◌∷◌, Text,
  eq_refl, is_empty, is_some, nat_eq, length, arith, Bool-cases,
}
use vasum.Prelude.Exec.{ok, ◌>>=◌, on_world}
use vasum.Prelude.Keeps.{Ends, Settles, Settles-Ends, Settles-bind}
use vasum.Server.Host.{Host}
use vasum.Server.Zone.{Zone}
use vasum.Server.Manager.{Manager, self, find_zone}
use vasum.Server.Manager.Shape.{ids}
use vasum.Server.Manager.Create.Results.{create_zone-Stands}
use vasum.Server.Manager.Create.{first_id, save_dynamic_config, update_default_id, create_zone}

-- The default id is that of a zone, or there are no zones and it is empty.
abbrev pub HasDefault : {W : Type 0} → Manager × W → Type 0
HasDefault s =
    ((s.0.zones ≡ []) × (s.0.dynamic.default_id ≡ []))
    ⊎ (is_some (find_zone s.0.dynamic.default_id s.0.zones) ≡ true)

default_of_test :
    (zones : List Zone) (id : Text) (found : Bool)
    → (nat_eq (length zones) 0 && is_empty id || found) ≡ true
    → ((zones ≡ []) × (id ≡ [])) ⊎ (found ≡ true)
default_of_test [] [] found e = inl (refl, refl)
default_of_test [] (c ∷ cs) found e = inr e
default_of_test (z ∷ zs) id found e = inr (ground arith)

append_nonempty : (is : List Text) (id : Text) → [] ≡ is ++ id ∷ [] → ⊥
append_nonempty [] id e = cc
append_nonempty (i ∷ is) id e = cc

module _ {W : Type 0} (h : Host W) where
  first_id-HasDefault :
      (zones : List Zone)
      → ((zones ≡ []) × (first_id h zones ≡ []))
        ⊎ (is_some (find_zone (first_id h zones) zones) ≡ true)
  unfolding find_zone
  first_id-HasDefault [] = inl (refl, refl)
  first_id-HasDefault (z ∷ zs) = inr (rw (eq_refl z.id) refl)

  pub Ends-update_default_id : Ends (HasDefault {W = W}) (update_default_id h)
  unfolding update_default_id self ◌>>=◌ save_dynamic_config on_world
  Ends-update_default_id = record {
    reached = λ s.
        elim (Bool-cases (
          nat_eq (length s.0.zones) 0 && is_empty s.0.dynamic.default_id
          || is_some (find_zone s.0.dynamic.default_id s.0.zones))) [
            | inl fine ↦ rw fine (
                default_of_test s.0.zones s.0.dynamic.default_id
                  (is_some (find_zone s.0.dynamic.default_id s.0.zones)) fine)
            | inr wrong ↦ rw wrong (first_id-HasDefault s.0.zones)
          ];
  }

  create_zone-Settles :
      (id template : Text) → Settles (HasDefault {W = W}) (create_zone h id template)
  unfolding create_zone
  create_zone-Settles id template =
      search (Settles-bind, Settles-Ends, Ends-update_default_id) depth 16

  -- Where a creation returns, the default id is that of a zone.
  pub create_zone-HasDefault :
      (id template : Text) (s : Manager × W)
      → (create_zone h id template s).0 ≡ ok tt
      → is_some (
          find_zone
            (create_zone h id template s).1.0.dynamic.default_id
            (create_zone h id template s).1.0.zones)
        ≡ true
  create_zone-HasDefault id template s e =
      elim ((create_zone-Settles id template).settled s _ tt
        (λ i. (e i, (create_zone h id template s).1))) [
          | inl (none_left, unset) ↦ absurd (
              append_nonempty (ids s.0.zones) id
                (sym (ap ids none_left) ∙ (create_zone-Stands h id s template e).0))
          | inr found ↦ found
        ]
