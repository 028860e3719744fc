-- ===== src/Lxcpp/Container/Terminals.antt =====
-- The pseudoterminals of a container (libs/lxcpp/commands/prep-pty-terminal.cpp).
use vasum.Prelude.{ℕ, zero, suc, List, [], ◌∷◌, ◌++◌, Text, lit, is_empty, if◌then◌else◌}
use vasum.Prelude.Int.{ℤ}
use vasum.Prelude.Exec.{Exec, pure, gets, modify, ◌>>=◌, ◌>>◌, on_world}
use vasum.Lxcpp.ContainerConfig.{PtyConfig, PtysConfig}
use vasum.Lxcpp.Container.{ContainerHost}

module _ {W : Type 0} where
  unfoldable pub add_pty : ℤ × Text → Exec (PtysConfig × W) (Unit {0})
  add_pty pty = modify (λ s.
      (record s.0 { ptys = s.0.ptys ++ record { master_fd = pty.0; pts_name = pty.1 } ∷ [] }, s.1))

module _ {W : Type 0} (h : ContainerHost W) where
  -- A new terminal, in the directory of the configuration where it names one.
  unfoldable pub open_pty : PtysConfig → Exec W (ℤ × Text)
  open_pty t = if is_empty t.devpts_path then h.open_pty else do
    pty ← h.open_pty_at (h.path_in t.devpts_path (lit "ptmx"))
    h.chown (h.path_in t.devpts_path pty.1) t.uid
    pure pty

  unfoldable pub open_ptys : ℕ → Exec (PtysConfig × W) (Unit {0})
  unfolding open_pty add_pty
  open_ptys zero = pure tt
  open_ptys (suc n) = do t ← gets (λ s. s.0); pty ← on_world (open_pty t); add_pty pty; open_ptys n

  -- execute()
  unfoldable pub prepare : Exec (PtysConfig × W) (Unit {0})
  unfolding open_ptys
  prepare = do t ← gets (λ s. s.0); open_ptys t.count

  unfoldable pub close_all : List PtyConfig → Exec W (Unit {0})
  close_all [] = pure tt
  close_all (p ∷ ps) = do h.close p.master_fd; close_all ps

  -- revert()
  unfoldable pub revert : Exec (PtysConfig × W) (Unit {0})
  unfolding close_all
  revert = do t ← gets (λ s. s.0); on_world (close_all t.ptys)
