-- ===== src/Server/Zone/Network.antt =====
-- The calls on a zone's network devices, and the file that is created inside it (server/zone.cpp).
use vasum.Prelude.{List, Text, if◌then◌else◌}
use vasum.Prelude.Int.{ℤ}
use vasum.Prelude.Exec.{zone_operation, Exec, pure, throw, gets, ◌>>=◌, on_world}
use vasum.Lxc.{c_call}
use vasum.Server.Host.{NetdevCall, Host}
use vasum.Server.Zone.{Zone, on_container}

module _ {W : Type 0} (h : Host W) where
  abbrev Method : Type 0 → Type 0
  Method A = Exec (Zone × W) A

  -- LxcZone::createFile hands out a descriptor.
  unfoldable pub create_file : Text → ℤ → ℤ → Method ℤ
  create_file path flags mode = do
    (done, fd) ← on_container h (λ id. c_call (h.create_file_in_zone id path flags mode))
    if done then pure fd else throw zone_operation

  unfoldable pub netdev_call : NetdevCall → Method (Unit {0})
  netdev_call call = do
    pid ← on_container h (λ id. gets (h.lxc.init_pid id))
    on_world (h.netdev pid call)

  unfoldable pub get_netdev_attrs : Text → Method (List (Text × Text))
  get_netdev_attrs dev = do
    pid ← on_container h (λ id. gets (h.lxc.init_pid id))
    on_world (h.netdev_attrs pid dev)

  unfoldable pub get_netdev_list : Method (List Text)
  get_netdev_list = do
    pid ← on_container h (λ id. gets (h.lxc.init_pid id))
    on_world (h.netdev_list pid)
