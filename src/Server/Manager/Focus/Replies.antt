-- ===== src/Server/Manager/Focus/Replies.antt =====
-- Focusing (server/zones-manager.cpp) sets no result.
use vasum.Prelude.{Text, Option, none, some}
use vasum.Server.Host.{Host}
use vasum.Server.Zone.{Zone}
use vasum.Server.Manager.Replies.{Quiet, quiet_rules}
use vasum.Server.Manager.Focus.{
  is_running_in, focus_host, focus_zone, focus_internal, choose_focus, refocus,
  get_running_foreground_zone_id,
}

module _ {W : Type 0} (h : Host W) where
  pub Quiet-is_running_in : (o : Option Zone) → Quiet (is_running_in h o)
  unfolding is_running_in
  Quiet-is_running_in none replies = search quiet_rules depth 8
  Quiet-is_running_in (some z) replies = search quiet_rules depth 8

  Quiet-focus_zone : (id : Text) → Quiet (focus_zone h id)
  unfolding focus_zone
  Quiet-focus_zone id replies = search quiet_rules depth 20

  Quiet-focus_host : Quiet (focus_host h)
  unfolding focus_host
  Quiet-focus_host replies = search quiet_rules depth 16

  pub Quiet-focus_internal : (o : Option Text) → Quiet (focus_internal h o)
  unfolding focus_internal
  Quiet-focus_internal none = Quiet-focus_host
  Quiet-focus_internal (some id) = Quiet-focus_zone id

  pub Quiet-refocus : Quiet (refocus h)
  unfolding refocus choose_focus
  Quiet-refocus replies = search (quiet_rules, Quiet-is_running_in, Quiet-focus_internal) depth 20

  pub Quiet-get_running_foreground : Quiet (get_running_foreground_zone_id h)
  unfolding get_running_foreground_zone_id
  Quiet-get_running_foreground replies = search quiet_rules depth 16
