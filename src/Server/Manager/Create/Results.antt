-- ===== src/Server/Manager/Create/Results.antt =====
-- What a creation and a destruction that return (createZone and destroyZone of server/zones-manager.cpp) leave in the list
-- of the zones and in the recorded ids.
use vasum.Prelude.{◌≡◌, refl, ap, ◌∙◌, List, [], ◌∷◌, ◌++◌, Text, ◌==◌, is_some, remove_if}
use vasum.Prelude.Exec.{invalid_zone_id, ok, throw, modify, when}
use vasum.Prelude.Keeps.{Keeps-when, Keeps-throw, Keeps-bind}
use vasum.Prelude.Turns.{
  Turns, Turns-Keeps, Turns-throw, Turns-catch, Turns-bind, Turns-bind-Returns, Turns-before,
  Turns-after, Turns-modify, Returns-on_world,
}
use vasum.Server.Host.{Host}
use vasum.Server.Zone.{Zone}
use vasum.Server.Zone.Lifecycle.{Returns-new_zone}
use vasum.Server.Manager.{Manager, Method, host_id, self, find_zone}
use vasum.Server.Manager.Shape.{ids, Shape, shape_rules, Shape-on_world, Shape-self, Shape-on_zone}
use vasum.Server.Manager.Ids.{
  ids-append, ids-erase_first, drop_id, NotIn, drop_id-append, remove_if-append,
}
use vasum.Server.Manager.Focus.Keeps.{Shape-refocus}
use vasum.Server.Zone.Lifecycle.{KeepsId-set_destroy_on_exit, KeepsId-delete_zone}
use vasum.Server.Manager.Create.{
  insert_zone, copy_image, generate_new_config, build_zone, create_zone, set_records, drop_zone,
  erase_zone, destroy_zone, or_remove_files,
}
use vasum.Server.Manager.Create.Keeps.{
  Shape-save_dynamic_config, Shape-update_default_id, Shape-generate_new_config, Shape-copy_image,
  Shape-enabled_file, Shape-or_remove_files,
}

-- The ids of the zones, the recorded ids and the holder of the queue are these.
abbrev pub Stands : List Text → List Text → Text → List Text → List Text → Text → Type 0
Stands is records lock is' records' lock' = (is' ≡ is) × (records' ≡ records) × (lock' ≡ lock)

module _ {W : Type 0} (h : Host W) (is records : List Text) (lock : Text) where
  -- The condition before.
  abbrev Here : List Text → List Text → Text → Type 0
  Here = Stands is records lock

  append-Turns :
      (z : Zone) (id : Text)
      → z.id ≡ id
      → Turns
          (Shape {W = W} (Stands is records lock))
          (Shape (Stands (is ++ id ∷ []) records lock))
          (modify (λ t. (record t.0 { zones = t.0.zones ++ z ∷ [] }, t.1)))
  append-Turns z id same = Turns-modify _ (λ s p. (
    ids-append s.0.zones z ∙ ap (λ i. ids s.0.zones ++ i ∷ []) same ∙ ap (λ l. l ++ id ∷ []) p.0,
    p.1,
    p.2,
  ))

  pub insert_zone-Turns :
      (id template : Text)
      → Turns (Shape Here) (Shape (Stands (is ++ id ∷ []) records lock)) (insert_zone h id template)
  unfolding insert_zone
  insert_zone-Turns id template = Turns-before self _ (Shape-self Here) (λ s.
      Turns-before (when (id == host_id) (throw invalid_zone_id)) _ (Keeps-when _ _ (Keeps-throw _))
        (λ _.
          Turns-before (when (is_some (find_zone id s.zones)) (throw invalid_zone_id)) _
            (Keeps-when _ _ (Keeps-throw _))
            (λ _.
              Turns-bind-Returns _ _ (Returns-on_world _ (Returns-new_zone h id _ _ _ _ _))
                (Turns-Keeps _ (Shape-on_world Here _))
                (λ z same.
                  Turns-after _ _ (append-Turns z id same)
                    (λ _. Shape-enabled_file h (Stands (is ++ id ∷ []) records lock) _ _)))))

  or_remove_files-Turns :
      (Q : Manager × W → Type 0) (path : Text) (m : Method W (Unit {0}))
      → Turns (Shape Here) Q m
      → Turns (Shape Here) Q (or_remove_files h path m)
  or_remove_files-Turns Q path m k =
      Turns-catch _ m _ k
        (λ e. Turns-bind _ _ (Turns-Keeps _ (record { after = λ s p. tt })) (λ _. Turns-throw e))

  build_zone-Turns :
      (id template : Text)
      → Turns (Shape Here) (Shape (Stands (is ++ id ∷ []) records lock)) (build_zone h id template)
  unfolding build_zone
  build_zone-Turns id template = Turns-before self _ (Shape-self Here) (λ s.
      Turns-before (copy_image h s.config.zone_image_path _) _ (Shape-copy_image h Here _ _) (λ _.
        Turns-before (or_remove_files h _ (generate_new_config h id _)) _
          (Shape-or_remove_files h Here _ _ (Shape-generate_new_config h Here id _))
          (λ _. or_remove_files-Turns _ _ _ (insert_zone-Turns id _))))

  set_records-Turns :
      (f : List Text → List Text)
      → Turns
          (Shape {W = W} (Stands is records lock))
          (Shape (Stands is (f records) lock))
          (set_records h f)
  unfolding set_records
  set_records-Turns f = Turns-modify _ (λ s p. (p.0, ap f p.1, p.2))

  drop_zone-Turns :
      (id : Text)
      → Turns (Shape {W = W} Here) (Shape (Stands (drop_id id is) records lock)) (drop_zone h id)
  unfolding drop_zone
  drop_zone-Turns id =
      Turns-modify _ (λ s p. (ids-erase_first id s.0.zones ∙ ap (drop_id id) p.0, p.1, p.2))

  erase_zone-Turns :
      (id : Text)
      → Turns (Shape Here) (Shape (Stands (drop_id id is) records lock)) (erase_zone h id)
  unfolding erase_zone
  erase_zone-Turns id =
      Turns-before _ _ (Shape-on_zone Here id _ (KeepsId-delete_zone h)) (λ _. drop_zone-Turns id)

module _ {W : Type 0} (h : Host W) (is records : List Text) (lock : Text) where
  create_zone-Turns :
      (id template : Text)
      → Turns
          (Shape (Stands is records lock))
          (Shape (Stands (is ++ id ∷ []) (records ++ id ∷ []) lock))
          (create_zone h id template)
  unfolding create_zone
  create_zone-Turns id template =
      let here = Stands is records lock in
      let there = Stands (is ++ id ∷ []) (records ++ id ∷ []) lock in
      Turns-before _ _ (Keeps-when _ _ (Keeps-throw _)) (λ _.
        Turns-before _ _ (Keeps-when _ _ (Keeps-throw _)) (λ _.
          Turns-before self _ (Shape-self here) (λ s.
            Turns-before _ _ (Keeps-when _ _ (Keeps-throw _)) (λ _.
              Turns-before _ _ (Shape-on_world here _) (λ taken.
                Turns-before _ _ (Keeps-when _ _ (Keeps-throw _)) (λ _.
                  Turns-bind _ _ (build_zone-Turns h is records lock id template) (λ _.
                    Turns-after _ _
                      (set_records-Turns h (is ++ id ∷ []) records lock (λ rs. rs ++ id ∷ []))
                      (λ _.
                        Keeps-bind _ _ (Shape-save_dynamic_config h there)
                          (λ _. Shape-update_default_id h there)))))))))

  destroy_zone-Turns :
      (id : Text)
      → Turns
          (Shape (Stands is records lock))
          (Shape (Stands (drop_id id is) (remove_if (λ i. i == id) records) lock))
          (destroy_zone h id)
  unfolding destroy_zone
  destroy_zone-Turns id =
      let here = Stands is records lock in
      let dropped = Stands (drop_id id is) records lock in
      let there = Stands (drop_id id is) (remove_if (λ i. i == id) records) lock in
      Turns-before self _ (Shape-self here) (λ s.
        Turns-before _ _ (Keeps-when _ _ (Keeps-throw _)) (λ _.
          Turns-before _ _ (Shape-on_zone here id _ (KeepsId-set_destroy_on_exit h)) (λ _.
            Turns-bind _ _ (erase_zone-Turns h is records lock id) (λ _.
              Turns-before self _ (Shape-self dropped) (λ t.
                Turns-before _ _ (search shape_rules depth 12) (λ _.
                  Turns-after _ _
                    (set_records-Turns h (drop_id id is) records lock (remove_if (λ i. i == id)))
                    (λ _. Keeps-bind _ _ (Shape-save_dynamic_config h there) (λ _.
                      Keeps-bind _ _ (Shape-update_default_id h there)
                        (λ _. Shape-refocus h there)))))))))

module _ {W : Type 0} (h : Host W) (id : Text) (s : Manager × W) where
  -- A creation that returns puts the new id behind the ids of the zones and behind the recorded ids, and leaves the lock of
  -- the queue as it was.
  pub create_zone-Stands :
      (template : Text)
      → (create_zone h id template s).0 ≡ ok tt
      → Shape
          (Stands
            (ids s.0.zones ++ id ∷ [])
            (s.0.dynamic.zone_ids ++ id ∷ [])
            s.0.exclusive_id_lock)
          (create_zone h id template s).1
  create_zone-Stands template e =
      (create_zone-Turns h (ids s.0.zones) s.0.dynamic.zone_ids s.0.exclusive_id_lock id
          template).outcome
        s _ tt (refl, refl, refl) (λ i. (e i, (create_zone h id template s).1))

  -- A destruction that returns takes the first zone of the id out of the list and every record of the id out of the recorded
  -- ids, and leaves the lock of the queue as it was.
  pub destroy_zone-Stands :
      (destroy_zone h id s).0 ≡ ok tt
      → Shape
          (Stands
            (drop_id id (ids s.0.zones))
            (remove_if (λ i. i == id) s.0.dynamic.zone_ids)
            s.0.exclusive_id_lock)
          (destroy_zone h id s).1
  destroy_zone-Stands e =
      (destroy_zone-Turns h (ids s.0.zones) s.0.dynamic.zone_ids s.0.exclusive_id_lock id).outcome s
        _ tt (refl, refl, refl) (λ i. (e i, (destroy_zone h id s).1))

  -- Where the id is neither that of a zone nor recorded, a creation that returns and then a destruction that returns leave
  -- the ids of the zones, the recorded ids and the lock of the queue as they were before.
  pub destroy_zone-create_zone :
      (template : Text)
      → NotIn id (ids s.0.zones)
      → NotIn id s.0.dynamic.zone_ids
      → (create_zone h id template s).0 ≡ ok tt
      → (destroy_zone h id (create_zone h id template s).1).0 ≡ ok tt
      → Shape
          (Stands (ids s.0.zones) s.0.dynamic.zone_ids s.0.exclusive_id_lock)
          (destroy_zone h id (create_zone h id template s).1).1
  destroy_zone-create_zone template no_zone no_record created destroyed =
      let t = (create_zone h id template s).1 in
      let reached =
        (destroy_zone-Turns h (ids s.0.zones ++ id ∷ []) (s.0.dynamic.zone_ids ++ id ∷ [])
            s.0.exclusive_id_lock id).outcome
          t _ tt (create_zone-Stands template created)
          (λ i. (destroyed i, (destroy_zone h id t).1)) in
      (
        reached.0 ∙ drop_id-append id (ids s.0.zones) no_zone,
        reached.1 ∙ remove_if-append id s.0.dynamic.zone_ids no_record,
        reached.2,
      )
