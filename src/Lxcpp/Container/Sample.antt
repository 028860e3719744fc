-- ===== src/Lxcpp/Container/Sample.antt =====
-- A host over which the examples of containers run (libs/lxcpp/container-impl.cpp): its world counts the calls that
-- change something.
use vasum.Prelude.{ℕ, suc, true, ◌++◌, lit, none}
use vasum.Prelude.Int.{pos}
use vasum.Prelude.Exec.{Exec, ok}
use vasum.Lxcpp.ContainerConfig.{ContainerConfig}
use vasum.Lxcpp.Container.{ContainerHost, Container, first_config}

abbrev call : Exec ℕ (Unit {0})
call n = (ok tt, suc n)

abbrev pub sample_host : ContainerHost ℕ
sample_host = record {
  assert_is_dir = λ path n. (ok tt, n);
  assert_is_absolute = λ path n. (ok tt, n);
  dir_name = λ path. path;
  socket_path_of = λ work_path name. work_path ++ name ++ lit ".socket";
  path_in = λ directory name. directory ++ lit "/" ++ name;
  new_client = λ path. call;
  watch = λ path. call;
  is_executable = λ path n. true;
  client_start = call;
  call_async = λ c. call;
  invoke = λ f. call;
  open_pty = λ n. (ok (pos n, lit "/dev/pts/0"), suc n);
  open_pty_at = λ path n. (ok (pos n, lit "0"), suc n);
  chown = λ path uid. call;
  close = λ fd. call;
  fork_daemonize = λ c n. (ok (pos 7), suc n);
  waitpid = λ pid n. (ok (pos 0), n);
  attach = λ c env n. (ok (pos 0), n);
}

abbrev pub sample_config : ContainerConfig
sample_config = first_config (lit "box") (lit "/root") (lit "/work") (lit "/workbox.socket")

abbrev pub sample : Container
sample = record {
  config = sample_config;
  started_callback = none;
  stopped_callback = none;
  connected_callback = none;
}
