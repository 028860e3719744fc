-- ===== src/Server/Manager/Handlers/Keeps.antt =====
-- What the handlers of server/zones-manager.cpp do to the ids of the zones, to the recorded ids and to the holder of the
-- queue.
use vasum.Prelude.{false, List, Text, Option, none, some}
use vasum.Prelude.Exec.{pure}
use vasum.Prelude.Keeps.{Keeps, Keeps-bind, Keeps-pure}
use vasum.Server.Host.{Host}
use vasum.Server.Zone.{Zone}
use vasum.Server.Zone.Lifecycle.{
  KeepsId-is_running, KeepsId-is_stopped, KeepsId-is_paused, KeepsId-go_background, KeepsId-start,
  KeepsId-stop, KeepsId-suspend, KeepsId-resume,
}
use vasum.Server.Manager.{Method, find_zone, reply, self, error, invalid_id}
use vasum.Server.Manager.Shape.{Shape, shape_rules, Shape-self, Shape-reply}
use vasum.Server.Manager.Focus.Keeps.{
  Shape-is_running_in, Shape-focus_internal, Shape-refocus, Shape-get_running_foreground,
}
use vasum.Server.Manager.Create.Keeps.{Closed, Shape-create_zone, Shape-destroy_zone}
use vasum.Server.Manager.Queue.Keeps.{Shape-try_add_task}
use vasum.Server.Manager.Handlers.{
  with_zone, state_text, handle_get_zone_ids_call, handle_get_active_zone_id_call,
  handle_get_zone_info_call, handle_set_active_zone_call, handle_switch_to_default_call,
  handle_create_zone_call, handle_destroy_zone_call, handle_shutdown_zone_call,
  handle_start_zone_call, handle_lock_zone_call, handle_unlock_zone_call,
  handle_clean_up_zones_root_call,
}

module _ {W : Type 0} (h : Host W) (P : List Text → List Text → Text → Type 0) where
  pub Shape-found :
      {A : Type 0} (o : Option Zone) (m : Method W A) (f : Zone → Method W A)
      → Keeps (Shape P) m
      → ((z : Zone) → Keeps (Shape P) (f z))
      → Keeps (Shape P) (elim o as (λ x. Method W A) [ none ↦ m | some z ↦ f z ])
  Shape-found none m f km kf = km
  Shape-found (some z) m f km kf = kf z

  pub Shape-with_zone :
      (id : Text) (body : Zone → Method W (Unit {0}))
      → ((z : Zone) → Keeps (Shape P) (body z))
      → Keeps (Shape P) (with_zone id body)
  unfolding with_zone
  Shape-with_zone id body k =
      Keeps-bind self _ (Shape-self P) (λ s.
        Shape-found (find_zone id s.zones) (reply (error invalid_id)) body (Shape-reply P _) k)

  Shape-state_text : (id caller : Text) → Keeps (Shape P) (state_text h caller id)
  unfolding state_text
  Shape-state_text id caller =
      search (shape_rules, KeepsId-is_running, KeepsId-is_stopped, KeepsId-is_paused) depth 16

  pub Shape-get_zone_ids : (caller : Text) → Keeps (Shape P) (handle_get_zone_ids_call h caller)
  unfolding handle_get_zone_ids_call
  Shape-get_zone_ids caller = search shape_rules depth 16

  pub Shape-get_active_zone_id :
      (caller : Text) → Keeps (Shape P) (handle_get_active_zone_id_call h caller)
  unfolding handle_get_active_zone_id_call
  Shape-get_active_zone_id caller = search (shape_rules, Shape-get_running_foreground) depth 16

  pub Shape-get_zone_info :
      (caller id : Text) → Keeps (Shape P) (handle_get_zone_info_call h caller id)
  unfolding handle_get_zone_info_call
  Shape-get_zone_info caller id = search (shape_rules, Shape-with_zone, Shape-state_text) depth 16

  pub Shape-set_active_zone :
      (caller id : Text) → Keeps (Shape P) (handle_set_active_zone_call h caller id)
  unfolding handle_set_active_zone_call
  Shape-set_active_zone caller id =
      search
        (shape_rules, Shape-try_add_task, Shape-with_zone, KeepsId-is_running, Shape-focus_internal)
        depth 20

  pub Shape-switch_to_default :
      (caller : Text) → Keeps (Shape P) (handle_switch_to_default_call h caller)
  unfolding handle_switch_to_default_call
  Shape-switch_to_default caller = Shape-try_add_task P caller _ (
      Keeps-bind self _ (Shape-self P) λ s.
        Keeps-bind _ _
          (Shape-found (find_zone s.active_zone_id s.zones) (pure false) _ (Keeps-pure _) λ active.
            Shape-found (find_zone s.dynamic.default_id s.zones) (pure false) _ (Keeps-pure _)
              λ default. search (shape_rules, Shape-is_running_in) depth 8)
          (λ allowed. search (shape_rules, Shape-focus_internal) depth 16))

  module _ (c : Closed P) where
    pub Shape-handle_create_zone :
        (caller id template : Text) → Keeps (Shape P) (handle_create_zone_call h caller id template)
    unfolding handle_create_zone_call
    Shape-handle_create_zone caller id template =
        search (shape_rules, Shape-try_add_task, Shape-create_zone h P c) depth 20

    pub Shape-handle_destroy_zone :
        (caller id : Text) → Keeps (Shape P) (handle_destroy_zone_call h caller id)
    unfolding handle_destroy_zone_call
    Shape-handle_destroy_zone caller id =
        search (shape_rules, Shape-try_add_task, Shape-destroy_zone h P c) depth 20

  pub Shape-shutdown_zone :
      (caller id : Text) → Keeps (Shape P) (handle_shutdown_zone_call h caller id)
  unfolding handle_shutdown_zone_call
  Shape-shutdown_zone caller id =
      search (shape_rules, Shape-try_add_task, Shape-with_zone, KeepsId-stop, Shape-refocus) depth
        20

  pub Shape-start_zone : (caller id : Text) → Keeps (Shape P) (handle_start_zone_call h caller id)
  unfolding handle_start_zone_call
  Shape-start_zone caller id =
      search (shape_rules, Shape-try_add_task, Shape-with_zone, KeepsId-start, Shape-focus_internal)
        depth 20

  pub Shape-lock_zone : (caller id : Text) → Keeps (Shape P) (handle_lock_zone_call h caller id)
  unfolding handle_lock_zone_call
  Shape-lock_zone caller id =
      search
        (
          shape_rules, Shape-try_add_task, Shape-with_zone, KeepsId-is_running,
          KeepsId-go_background, KeepsId-suspend, Shape-refocus,
        )
        depth 24

  pub Shape-unlock_zone : (caller id : Text) → Keeps (Shape P) (handle_unlock_zone_call h caller id)
  unfolding handle_unlock_zone_call
  Shape-unlock_zone caller id =
      search (shape_rules, Shape-try_add_task, Shape-with_zone, KeepsId-is_paused, KeepsId-resume)
        depth 24

  pub Shape-clean_up : (caller : Text) → Keeps (Shape P) (handle_clean_up_zones_root_call h caller)
  unfolding handle_clean_up_zones_root_call
  Shape-clean_up caller = search (shape_rules, Shape-try_add_task) depth 20
