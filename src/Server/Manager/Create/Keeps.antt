-- ===== src/Server/Manager/Create/Keeps.antt =====
-- What creating and destroying zones (server/zones-manager.cpp) do to the ids of the zones, to the recorded ids and to
-- the holder of the queue.
use mathlib.Core.Path.{subst}
use vasum.Prelude.{
  ◌≡◌, refl, sym, ap, ◌∙◌, Bool, false, List, [], ◌∷◌, ◌++◌, Text, ◌==◌, is_some, Bool-cases, inl,
  inr, length, nat_eq,
}
use vasum.Prelude.Exec.{Outcome, ok, raised, crashed, modify, when, ◌>>=◌, ◌>>◌, on_world, continue}
use vasum.Prelude.Keeps.{Keeps, Keeps-modify}
use vasum.Server.Host.{Host, ZoneDynamicConfig}
use vasum.Server.Zone.Creation
use vasum.Server.Zone.{Zone}
use vasum.Server.Zone.Lifecycle.{KeepsId-set_destroy_on_exit, KeepsId-delete_zone, Returns-new_zone}
use vasum.Server.Manager.{Manager, Method, find_zone, host_id, enabled_file_name, self}
use vasum.Server.Manager.Shape.{ids, Shape, shape_rules}
use vasum.Server.Manager.Ids.{NotIn, drop_id, ids-append, ids-erase_first, find_zone-NotIn}
use vasum.Server.Manager.Focus.Keeps.{Shape-refocus}
use vasum.Server.Manager.Create.{
  save_dynamic_config, set_default_id, update_default_id, insert_zone, assign_vt,
  generate_new_config, or_remove_files, copy_image, build_zone, create_zone, set_records, drop_zone,
  erase_zone, destroy_zone,
}

-- What a predicate on the ids, the recorded ids and the holder needs for these operations to keep it.
pub record Closed (P : List Text → List Text → Text → Type 0) : Type 0 where
  pub grow :
      (id : Text) (is records : List Text) (lock : Text)
      → P is records lock
      → id == host_id ≡ false
      → NotIn id is
      → P (is ++ id ∷ []) records lock
  pub shrink :
      (id : Text) (is records : List Text) (lock : Text)
      → P is records lock
      → P (drop_id id is) records lock
  pub record_ids :
      (is records records' : List Text) (lock : Text) → P is records lock → P is records' lock

module _ {W : Type 0} (h : Host W) (P : List Text → List Text → Text → Type 0) where
  pub Shape-save_dynamic_config : Keeps (Shape P) (save_dynamic_config h)
  unfolding save_dynamic_config
  Shape-save_dynamic_config = search shape_rules depth 16

  Shape-set_default_id : (id : Text) → Keeps (Shape P) (set_default_id h id)
  unfolding modify
  Shape-set_default_id id = record { after = λ s p. p }

  pub Shape-update_default_id : Keeps (Shape P) (update_default_id h)
  unfolding update_default_id
  Shape-update_default_id =
      search (shape_rules, Shape-save_dynamic_config, Shape-set_default_id) depth 16

  Shape-assign_vt : (d : ZoneDynamicConfig) → Keeps (Shape P) (assign_vt h d)
  unfolding assign_vt
  Shape-assign_vt d = search shape_rules depth 16

  pub Shape-generate_new_config :
      (id template : Text) → Keeps (Shape P) (generate_new_config h id template)
  unfolding generate_new_config
  Shape-generate_new_config id template = search (shape_rules, Shape-assign_vt) depth 20

  pub Shape-or_remove_files :
      (path : Text) (m : Method W (Unit {0}))
      → Keeps (Shape P) m
      → Keeps (Shape P) (or_remove_files h path m)
  Shape-or_remove_files path m k = search shape_rules depth 16

  pub Shape-copy_image : (image path : Text) → Keeps (Shape P) (copy_image h image path)
  unfolding copy_image
  Shape-copy_image image path = search shape_rules depth 16

  pub Shape-enabled_file :
      (b : Bool) (path : Text) → Keeps (Shape P) (when b (on_world (h.create_enabled_file path)))
  Shape-enabled_file b path = search shape_rules depth 8

  module _ (c : Closed P) where
    -- The zone goes to the back of the list.
    inserted :
        (id : Text) (z : Zone) (s : Manager × W)
        → z.id ≡ id
        → id == host_id ≡ false
        → NotIn id (ids s.0.zones)
        → Shape P s
        → Shape P (record s.0 { zones = s.0.zones ++ z ∷ [] }, s.1)
    inserted id z s same not_host n p =
        subst (λ is. P is s.0.dynamic.zone_ids s.0.exclusive_id_lock)
          (sym (ids-append s.0.zones z ∙ ap (λ i. ids s.0.zones ++ i ∷ []) same))
          (c.grow id (ids s.0.zones) s.0.dynamic.zone_ids s.0.exclusive_id_lock p not_host n)

    placed :
        (id path : Text) (r : Outcome Zone) (s : Manager) (w : W)
        → ((z : Zone) → r ≡ ok z → z.id ≡ id)
        → id == host_id ≡ false
        → NotIn id (ids s.zones)
        → Shape P (s, w)
        → Shape P
            (continue r
              (λ z.
                modify (λ t. (record t.0 { zones = t.0.zones ++ z ∷ [] }, t.1))
                >> when
                    (nat_eq (length (s.zones ++ z ∷ [])) 1)
                    (on_world (h.create_enabled_file path)))
              (s, w)).1
    unfolding ◌>>=◌
    placed id path (ok z) s w same not_host n p =
        (Shape-enabled_file (nat_eq (length (s.zones ++ z ∷ [])) 1) path).after
          (record s { zones = s.zones ++ z ∷ [] }, w)
          (inserted id z (s, w) (same z refl) not_host n p)
    placed id path (raised e) s w same not_host n p = p
    placed id path crashed s w same not_host n p = p

    pub Shape-insert_zone : (id template : Text) → Keeps (Shape P) (insert_zone h id template)
    unfolding insert_zone self ◌>>=◌ on_world
    Shape-insert_zone id template = record {
      after = λ s p. elim (Bool-cases (id == host_id)) [
        | inl e ↦ rw e p
        | inr e ↦ elim (Bool-cases (is_some (find_zone id s.0.zones))) [
          | inl f ↦ rw (e, f) p
          | inr f ↦
              let m =
                Creation.new_zone h id s.0.config.zones_path template s.0.config.db_path
                  s.0.config.zone_template_dir s.0.config.run_mount_point_prefix in
              rw (e, f)
                (placed id (h.lxc.create_file_path (s.0.config.zones_path ∷ enabled_file_name ∷ []))
                  (m s.1).0 s.0 (m s.1).1
                  (λ z ez.
                    (Returns-new_zone h id s.0.config.zones_path template s.0.config.db_path
                        s.0.config.zone_template_dir s.0.config.run_mount_point_prefix).result
                      s.1 (m s.1).1 z (ap (λ r. (r, (m s.1).1)) ez))
                  e (find_zone-NotIn id s.0.zones f) p)
        ]
      ];
    }

    Shape-build_zone : (id template : Text) → Keeps (Shape P) (build_zone h id template)
    unfolding build_zone
    Shape-build_zone id template =
        search (shape_rules, Shape-copy_image, Shape-generate_new_config, Shape-insert_zone) depth
          24

    Shape-set_records : (f : List Text → List Text) → Keeps (Shape P) (set_records h f)
    unfolding set_records
    Shape-set_records f = Keeps-modify _ (λ s p.
        c.record_ids (ids s.0.zones) s.0.dynamic.zone_ids (f s.0.dynamic.zone_ids)
          s.0.exclusive_id_lock p)

    pub Shape-create_zone : (id template : Text) → Keeps (Shape P) (create_zone h id template)
    unfolding create_zone
    Shape-create_zone id template =
        search
          (
            shape_rules, Shape-build_zone, Shape-set_records, Shape-save_dynamic_config,
            Shape-update_default_id,
          )
          depth 24

    Shape-drop_zone : (id : Text) → Keeps (Shape P) (drop_zone h id)
    unfolding drop_zone
    Shape-drop_zone id = Keeps-modify _ (λ s p.
        subst (λ is. P is s.0.dynamic.zone_ids s.0.exclusive_id_lock)
          (sym (ids-erase_first id s.0.zones))
          (c.shrink id (ids s.0.zones) s.0.dynamic.zone_ids s.0.exclusive_id_lock p))

    Shape-erase_zone : (id : Text) → Keeps (Shape P) (erase_zone h id)
    unfolding erase_zone
    Shape-erase_zone id = search (shape_rules, KeepsId-delete_zone, Shape-drop_zone) depth 16

    pub Shape-destroy_zone : (id : Text) → Keeps (Shape P) (destroy_zone h id)
    unfolding destroy_zone
    Shape-destroy_zone id =
        search
          (
            shape_rules, KeepsId-set_destroy_on_exit, Shape-erase_zone, Shape-set_records,
            Shape-save_dynamic_config, Shape-update_default_id, Shape-refocus,
          )
          depth 24
