-- ===== src/Server/Provision/Examples.antt =====
-- Runs of the provisions, over a host that logs its calls, and the theorems at concrete inputs.
use mathlib.Core.List.{reverse}
use vasum.Prelude.{ℕ, ◌≡◌, refl, ◌⊎◌, List, [], ◌∷◌, ◌++◌, Text, lit, Any, arith, ap, get_or}
use vasum.Prelude.Int.{pos}
use vasum.Prelude.Decimal.{to_string}
use vasum.Prelude.Exec.{
  Outcome, ok, raised, provision_exists, provision_not_found, Exec, ◌>>=◌, ◌>>◌, on_world,
}
use vasum.Server.Provision.{
  Provision, file, mount, get_id, ZoneProvision, ProvisionHost, declare_file, remove, provide,
  umount, start, stop,
}
use vasum.Server.Provision.Entries.{HasId, NoneHas, UniqueIds}
use vasum.Server.Provision.Declare.{
  after_save, with_provisions, declare_file_cases, remove_declared,
}
use vasum.Server.Provision.Mounts.{provide_all, umount_all, start-stop}

-- The world is the list of the calls made, newest first.
abbrev pub log : Text → Exec (List Text) (Unit {0})
log call calls = (ok tt, call ∷ calls)

abbrev pub log_host : ProvisionHost (List Text)
log_host = record {
  save_provisions = λ path prefix ps. log (lit "save");
  join_path = λ root path. root ++ lit "/" ++ path;
  normalize = λ path. path;
  create_dirs = λ path mode. log (lit "mkdir " ++ path);
  create_fifo = λ path mode. log (lit "mkfifo " ++ path);
  create_file = λ path flags mode. log (lit "creat " ++ path);
  copy_file = λ from to. log (lit "copy " ++ to);
  mount_fs = λ source target type flags options. log (lit "mount " ++ target);
  umount_fs = λ target. log (lit "umount " ++ target);
  create_link = λ source target. log (lit "link " ++ target);
}

abbrev tmpfs : Text → Provision
tmpfs target = mount (lit "none") target (lit "tmpfs") (pos 0) []

abbrev hosts : Provision
hosts = file (pos 2) (lit "etc/hosts") (pos 0) (pos 420)

abbrev pub zone_provision : ZoneProvision
zone_provision = record {
  provisions = tmpfs (lit "run") ∷ tmpfs (lit "tmp") ∷ [];
  root_path = lit "/z";
  db_path = lit "/db";
  db_prefix = lit "zone.z";
  valid_link_prefixes = lit "/tmp/" ∷ [];
  provisioned = [];
}

provision_log :
    ((start log_host >> stop log_host) (zone_provision, [])).1.1
    ≡ lit "umount /z/run" ∷ lit "umount /z/tmp" ∷ lit "mount /z/tmp" ∷ lit "mount /z/run" ∷ []
unfolding start stop ◌>>=◌ on_world
provision_log = refl

abbrev byte : ℕ → Outcome Text → ℕ
byte n (ok s) = get_or s n 0
byte n r = 0

zone_provision-UniqueIds : UniqueIds zone_provision.provisions
unfolding get_id to_string
zone_provision-UniqueIds =
    ((_, refl, (λ e. omega (arith, ap (byte 11) e), tt)), ((_, refl, tt), tt))

start-stop_example : (start log_host >> stop log_host) (zone_provision, []) ≡ (
  ok tt,
  (
    zone_provision,
    umount_all log_host
        (lit "/z")
        (reverse zone_provision.provisions)
        (provide_all log_host zone_provision zone_provision.provisions []),
  ),
)
unfolding provide umount
start-stop_example =
    start-stop log_host zone_provision [] (λ w. refl, (λ w. refl, tt)) (λ target w. refl) refl

declare_file_cases_example :
    (Any (λ p. hosts ≡ p) zone_provision.provisions
      × (declare_file log_host (pos 2) (lit "etc/hosts") (pos 0) (pos 420) (zone_provision, [])
          ≡ (raised provision_exists, (zone_provision, []))))
    ⊎ ((¬ Any (λ p. hosts ≡ p) zone_provision.provisions)
        × UniqueIds (zone_provision.provisions ++ hosts ∷ [])
        × (id : Text) × HasId id hosts
        × (declare_file log_host (pos 2) (lit "etc/hosts") (pos 0) (pos 420) (zone_provision, [])
            ≡ after_save id
                (with_provisions zone_provision (zone_provision.provisions ++ hosts ∷ []))
                (log (lit "save") [])))
declare_file_cases_example =
    declare_file_cases log_host zone_provision [] (pos 2) (lit "etc/hosts") (pos 0) (pos 420)
      zone_provision-UniqueIds

hosts_id : Text
hosts_id = lit "file etc/hosts 2 0 420"

hosts-HasId : HasId hosts_id hosts
unfolding get_id to_string hosts_id
hosts-HasId = refl

hosts-NoneHas : NoneHas hosts_id zone_provision.provisions
unfolding get_id to_string hosts_id
hosts-NoneHas = (λ e. omega (arith, ap (byte 0) e), (λ e. omega (arith, ap (byte 0) e), tt))

remove_declared_example :
    (remove log_host hosts_id
        (with_provisions zone_provision (zone_provision.provisions ++ hosts ∷ []), [])
      ≡ (ok tt, (zone_provision, [])))
    × (remove log_host hosts_id (zone_provision, [])
        ≡ (raised provision_not_found, (zone_provision, [])))
remove_declared_example =
    remove_declared log_host zone_provision [] hosts hosts_id zone_provision-UniqueIds hosts-NoneHas
      hosts-HasId
