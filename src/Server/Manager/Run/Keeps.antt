-- ===== src/Server/Manager/Run/Keeps.antt =====
-- What starting, restoring, stopping and switching (server/zones-manager.cpp) do to the ids of the zones, to the recorded
-- ids and to the holder of the queue.
use vasum.Prelude.{List, [], ◌∷◌, Text, Bool}
use vasum.Prelude.Keeps.{Keeps, Keeps-bind, Keeps-modify}
use vasum.Server.Host.{Host}
use vasum.Server.Zone.Lifecycle.{KeepsId-restore, KeepsId-stop, KeepsId-set_detach_on_exit}
use vasum.Server.Manager.Shape.{Shape, shape_rules}
use vasum.Server.Manager.Focus.Keeps.{Shape-refocus}
use vasum.Server.Manager.Create.Keeps.{Closed, Shape-insert_zone, Shape-update_default_id}
use vasum.Server.Manager.Create.{insert_zone}
use vasum.Server.Manager.Run.{
  template_path_of, insert_all, set_is_running, start, restore_all, shutdown_all, stop,
  set_zones_detach_on_exit, set_detach_on_exit,
}

module _ {W : Type 0} (h : Host W) (P : List Text → List Text → Text → Type 0) where
  Shape-template_path_of : (id : Text) → Keeps (Shape P) (template_path_of h id)
  unfolding template_path_of
  Shape-template_path_of id = search shape_rules depth 16

  pub Shape-set_is_running : (b : Bool) → Keeps (Shape P) (set_is_running h b)
  unfolding set_is_running
  Shape-set_is_running b = Keeps-modify _ (λ s p. p)

  Shape-set_detach_on_exit : Keeps (Shape P) (set_detach_on_exit h)
  unfolding set_detach_on_exit
  Shape-set_detach_on_exit = Keeps-modify _ (λ s p. p)

  module _ (c : Closed P) where
    Shape-insert_all : (is : List Text) → Keeps (Shape P) (insert_all h is)
    unfolding insert_all
    Shape-insert_all [] = search shape_rules depth 8
    Shape-insert_all (id ∷ is) =
        Keeps-bind (template_path_of h id) _ (Shape-template_path_of id) λ path.
          Keeps-bind (insert_zone h id path) _ (Shape-insert_zone h P c id path)
            λ _. Shape-insert_all is

    pub Shape-start : Keeps (Shape P) (start h)
    unfolding start
    Shape-start =
        search (shape_rules, Shape-set_is_running, Shape-insert_all, Shape-update_default_id) depth
          16

  pub Shape-restore_all : Keeps (Shape P) (restore_all h)
  unfolding restore_all
  Shape-restore_all = search (shape_rules, KeepsId-restore, Shape-refocus) depth 16

  Shape-shutdown_all : Keeps (Shape P) (shutdown_all h)
  unfolding shutdown_all
  Shape-shutdown_all = search (shape_rules, KeepsId-stop, Shape-refocus) depth 16

  pub Shape-stop : Keeps (Shape P) (stop h)
  unfolding stop
  Shape-stop = search (shape_rules, Shape-set_is_running, Shape-shutdown_all) depth 16

  pub Shape-set_zones_detach_on_exit : Keeps (Shape P) (set_zones_detach_on_exit h)
  unfolding set_zones_detach_on_exit
  Shape-set_zones_detach_on_exit =
      search (shape_rules, Shape-set_detach_on_exit, KeepsId-set_detach_on_exit) depth 16
