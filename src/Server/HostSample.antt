-- ===== src/Server/HostSample.antt =====
-- A host over which the examples run: its world is the log of the calls that change something, the newest first. Each
-- container is in the state that `states` gives it.
use vasum.Prelude.{Bool, true, false, List, [], ◌∷◌, ◌++◌, Text, lit, ◌==◌}
use vasum.Prelude.Int.{ℤ, pos, negsuc}
use vasum.Prelude.Exec.{ok, Exec}
use vasum.Lxc.{LxcApi}
use vasum.Server.Host.{Host, ZoneConfig, ZoneDynamicConfig, ZonesManagerDynamicConfig}
use vasum.Server.Manager.{ZonesManagerConfig, Manager}
use vasum.Server.Provision.Examples.{log, log_host, zone_provision}
use vasum.Server.Zone.{Zone, state_running}

abbrev call : Text → List Text → Bool × List Text
call name calls = (true, name ∷ calls)

abbrev answer : {A : Type 0} → A → Exec (List Text) A
answer a calls = (ok a, calls)

abbrev pub sample_lxc : (Text → Text) → LxcApi (List Text)
sample_lxc states = record {
  container_new = λ path name calls. (true, calls);
  state = λ name calls. states name;
  is_running = λ name calls. states name == lit "RUNNING";
  is_defined = λ name calls. true;
  init_pid = λ name calls. pos 7;
  execute_and_wait = λ program args. call program;
  destroy = λ name. call (lit "destroy " ++ name);
  stop = λ name. call (lit "stop " ++ name);
  freeze = λ name. call (lit "freeze " ++ name);
  unfreeze = λ name. call (lit "unfreeze " ++ name);
  create_file_path = λ parts. lit "path";
  save_file_content = λ path content. log content;
  stat = λ path. answer (record { is_chr = true; is_blk = false; major = 1; minor = 3 });
}

abbrev pub zone_config : ZoneConfig
zone_config = record {
  zone_template = lit "t.sh";
  init_with_args = [];
  switch_to_default_after_timeout = true;
  cpu_quota_foreground = negsuc 0;
  cpu_quota_background = pos 1000;
  valid_link_prefixes = [];
  shutdown_timeout = pos 10;
}

abbrev pub zone_dynamic : ℤ → ZoneDynamicConfig
zone_dynamic vt = record {
  requested_state = state_running;
  ipv4_gateway = [];
  ipv4 = [];
  vt = vt;
  run_mount_point = [];
}

abbrev pub sample_host : (Text → Text) → Host (List Text)
sample_host states = record {
  lxc = sample_lxc states;
  provisions = log_host;
  load_zone_config = λ db template prefix. answer zone_config;
  load_zone_dynamic = λ db template prefix. answer (zone_dynamic (negsuc 0));
  load_provisions = λ db template prefix. answer [];
  load_template_path = λ db prefix. answer (lit "t.conf");
  save_zone_dynamic = λ db dynamic prefix. log (lit "save zone");
  save_template_path = λ db path prefix. log (lit "save template");
  save_manager_dynamic = λ db dynamic prefix. log (lit "save manager");
  absolute_path = λ path base. path;
  regex_replace = λ text pattern by. text;
  activate_vt = λ vt. call (lit "vt");
  netdev = λ pid netdev_call. log (lit "netdev");
  netdev_attrs = λ pid dev. answer [];
  netdev_list = λ pid. answer [];
  create_file_in_zone = λ id path flags mode calls. ((true, pos 3), calls);
  proxy_call_async = λ bus path interface method. log (lit "proxy");
  launcher_path = lit "launcher";
  path_exists = λ path calls. false;
  launch_as_root = λ args. call (lit "launch");
  create_enabled_file = λ path. log (lit "enable");
  remove_enabled_file = λ path. log (lit "disable");
  list_directory = λ path. answer [];
  remove_all = λ path name. log (lit "remove " ++ name);
  rename = λ path from to. log (lit "rename " ++ from);
}

abbrev pub manager_config : ZonesManagerConfig
manager_config = record {
  db_path = lit "/db";
  zones_path = lit "/zones";
  clean_up_zones_path = false;
  zone_image_path = [];
  zone_template_dir = lit "/templates";
  host_vt = pos 0;
  available_vts = pos 3 ∷ pos 2 ∷ [];
  input_enabled = false;
  run_mount_point_prefix = [];
  proxy_call_rules = [];
}

abbrev pub manager_dynamic : ZonesManagerDynamicConfig
manager_dynamic = record { zone_ids = lit "a" ∷ lit "b" ∷ []; default_id = lit "a" }

abbrev pub sample_zone : Text → ℤ → Zone
sample_zone id vt = record {
  id = id;
  zones_path = lit "/zones";
  db_path = lit "/db";
  config = zone_config;
  dynamic = zone_dynamic vt;
  run_mount_point = [];
  root_path = lit "/zones";
  detach_on_exit = false;
  destroy_on_exit = false;
  provision = zone_provision;
}

-- A manager of two zones; client 1 holds the lock of its queue.
abbrev pub locked_manager : Manager
locked_manager = record {
  is_running = true;
  config = manager_config;
  dynamic = manager_dynamic;
  zones = sample_zone (lit "a") (pos 2) ∷ sample_zone (lit "b") (pos 3) ∷ [];
  active_zone_id = lit "a";
  detach_on_exit = false;
  exclusive_id_lock = lit "ipc1";
  replies = [];
}

abbrev pub all_running : Text → Text
all_running id = lit "RUNNING"
