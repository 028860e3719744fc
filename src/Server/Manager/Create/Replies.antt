-- ===== src/Server/Manager/Create/Replies.antt =====
-- Creating and destroying zones (server/zones-manager.cpp) sets no result.
use vasum.Prelude.{List, [], ◌∷◌, ◌++◌, Text}
use vasum.Prelude.Exec.{modify}
use vasum.Server.Host.{Host}
use vasum.Server.Zone.{Zone}
use vasum.Server.Manager.{Manager}
use vasum.Server.Manager.Replies.{Quiet, quiet_rules}
use vasum.Server.Manager.Create.{
  save_dynamic_config, set_default_id, set_records, update_default_id, insert_zone, assign_vt,
  generate_new_config, copy_image, build_zone, create_zone,
}

module _ {W : Type 0} (h : Host W) where
  Quiet-save_dynamic_config : Quiet (save_dynamic_config h)
  unfolding save_dynamic_config
  Quiet-save_dynamic_config replies = search quiet_rules depth 16

  Quiet-set_default_id : (id : Text) → Quiet (set_default_id h id)
  unfolding modify
  Quiet-set_default_id id replies = record { after = λ s p. p }

  Quiet-set_records : (f : List Text → List Text) → Quiet (set_records h f)
  unfolding set_records modify
  Quiet-set_records f replies = record { after = λ s p. p }

  Quiet-update_default_id : Quiet (update_default_id h)
  unfolding update_default_id
  Quiet-update_default_id replies =
      search (quiet_rules, Quiet-save_dynamic_config, Quiet-set_default_id) depth 16

  Quiet-generate_new_config : (id template : Text) → Quiet (generate_new_config h id template)
  unfolding generate_new_config assign_vt
  Quiet-generate_new_config id template replies = search quiet_rules depth 24

  Quiet-append :
      (z : Zone)
      → Quiet (modify (λ (t : Manager × W). (record t.0 { zones = t.0.zones ++ z ∷ [] }, t.1)))
  unfolding modify
  Quiet-append z replies = record { after = λ s p. p }

  Quiet-insert_zone : (id template : Text) → Quiet (insert_zone h id template)
  unfolding insert_zone
  Quiet-insert_zone id template replies = search (quiet_rules, Quiet-append) depth 24

  Quiet-build_zone : (id template : Text) → Quiet (build_zone h id template)
  unfolding build_zone copy_image
  Quiet-build_zone id template replies =
      search (quiet_rules, Quiet-generate_new_config, Quiet-insert_zone) depth 24

  pub Quiet-create_zone : (id template : Text) → Quiet (create_zone h id template)
  unfolding create_zone
  Quiet-create_zone id template replies =
      search
        (
          quiet_rules, Quiet-build_zone, Quiet-set_records, Quiet-save_dynamic_config,
          Quiet-update_default_id,
        )
        depth 24
