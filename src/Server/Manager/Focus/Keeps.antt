-- ===== src/Server/Manager/Focus/Keeps.antt =====
-- Focusing (server/zones-manager.cpp) neither adds nor removes zones, and leaves the records and the queue alone.
use vasum.Prelude.{List, Text, Option, none, some}
use vasum.Prelude.Keeps.{Keeps}
use vasum.Server.Host.{Host}
use vasum.Server.Zone.{Zone}
use vasum.Server.Zone.Lifecycle.{
  KeepsId, id_rules, KeepsId-is_running, KeepsId-go_foreground, KeepsId-go_background,
  KeepsId-activate_vt,
}
use vasum.Server.Manager.Shape.{Shape, shape_rules}
use vasum.Server.Manager.Focus.{
  send_to, is_running_in, focus_host, focus_zone, focus_internal, choose_focus, refocus, focus,
  get_running_foreground_zone_id, get_next_to_foreground_zone, switching_sequence_monitor_notify,
}

module _ {W : Type 0} (h : Host W) (P : List Text → List Text → Text → Type 0) where
  KeepsId-send_to : (id : Text) (z : Zone) → KeepsId (send_to h id z)
  unfolding send_to
  KeepsId-send_to id z i =
      search (id_rules, KeepsId-is_running, KeepsId-go_foreground, KeepsId-go_background) depth 16

  pub Shape-is_running_in : (o : Option Zone) → Keeps (Shape P) (is_running_in h o)
  unfolding is_running_in
  Shape-is_running_in none = search shape_rules depth 8
  Shape-is_running_in (some z) = search shape_rules depth 8

  Shape-focus_zone : (id : Text) → Keeps (Shape P) (focus_zone h id)
  unfolding focus_zone
  Shape-focus_zone id =
      search (shape_rules, KeepsId-send_to, KeepsId-is_running, KeepsId-activate_vt) depth 20

  Shape-focus_host : Keeps (Shape P) (focus_host h)
  unfolding focus_host
  Shape-focus_host = search shape_rules depth 16

  pub Shape-focus_internal : (o : Option Text) → Keeps (Shape P) (focus_internal h o)
  unfolding focus_internal
  Shape-focus_internal none = Shape-focus_host
  Shape-focus_internal (some id) = Shape-focus_zone id

  Shape-choose_focus : Keeps (Shape P) (choose_focus h)
  unfolding choose_focus
  Shape-choose_focus = search (shape_rules, Shape-is_running_in) depth 16

  pub Shape-refocus : Keeps (Shape P) (refocus h)
  unfolding refocus
  Shape-refocus =
      search (shape_rules, Shape-is_running_in, Shape-choose_focus, Shape-focus_internal) depth 16

  pub Shape-focus : (id : Text) → Keeps (Shape P) (focus h id)
  unfolding focus
  Shape-focus id = search (shape_rules, Shape-focus_internal) depth 16

  pub Shape-get_running_foreground : Keeps (Shape P) (get_running_foreground_zone_id h)
  unfolding get_running_foreground_zone_id
  Shape-get_running_foreground = search (shape_rules, KeepsId-is_running) depth 16

  Shape-get_next : Keeps (Shape P) (get_next_to_foreground_zone h)
  unfolding get_next_to_foreground_zone
  Shape-get_next = search shape_rules depth 16

  pub Shape-notify : Keeps (Shape P) (switching_sequence_monitor_notify h)
  unfolding switching_sequence_monitor_notify
  Shape-notify = search (shape_rules, Shape-get_next, Shape-focus_internal) depth 16
