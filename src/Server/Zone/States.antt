-- ===== src/Server/Zone/States.antt =====
-- What a zone says of its own state (server/zone.cpp), by the state that its container has.
use vasum.Prelude.{◌≡◌}
use vasum.Prelude.Exec.{ok, ◌>>=◌, on_world}
use vasum.Lxc.{State, running, eq_state, state_name}
use vasum.Lxc.States.{get_state-ok}
use vasum.Server.Host.{Host}
use vasum.Server.Zone.{Zone, on_container, is_running}

module _ {W : Type 0} (h : Host W) (z : Zone) (w : W) (s : State) where
  pub is_running-state :
      h.lxc.state z.id w ≡ state_name s → is_running h (z, w) ≡ (ok (eq_state s running), (z, w))
  unfolding is_running ◌>>=◌ on_container on_world
  is_running-state e = rw (get_state-ok h.lxc z.id w s e)
