-- ===== src/Lxcpp/Container/Stale.antt =====
-- What is left of the pseudoterminals of a container when it is started again (libs/lxcpp/commands/prep-pty-terminal.cpp).
use mathlib.Core.List.{append_assoc, append-nil}
use vasum.Prelude.{
  ℕ, zero, suc, ◌+◌, ◌≡◌, refl, sym, ap, ◌∙◌, List, [], ◌∷◌, ◌++◌, length, length-append, arith,
}
use vasum.Prelude.Int.{ℤ}
use vasum.Prelude.Exec.{Exec, ok, pure, gets, modify, on_world, bind-inv}
use vasum.Prelude.Returns.{ok-injective}
use vasum.Lxcpp.ContainerConfig.{PtyConfig, PtysConfig}
use vasum.Lxcpp.Container.{ContainerHost}
use vasum.Lxcpp.Container.Terminals.{open_pty, add_pty, open_ptys, prepare, close_all, revert}

module _ {W : Type 0} where
  on_world_part :
      {A : Type 0} (m : Exec W A) (s t : PtysConfig × W) {a : A}
      → on_world m s ≡ (ok a, t)
      → t.0 ≡ s.0
  unfolding on_world
  on_world_part m s t e = ap (λ r. r.1.0) (sym e)

  add_pty_lem :
      (pty : ℤ × _) (s t : PtysConfig × W) {a : Unit {0}}
      → add_pty pty s ≡ (ok a, t)
      → (t.0.ptys ≡ s.0.ptys ++ record { master_fd = pty.0; pts_name = pty.1 } ∷ [])
        × (t.0.count ≡ s.0.count)
  unfolding add_pty modify
  add_pty_lem pty s t e = (ap (λ r. r.1.0.ptys) (sym e), ap (λ r. r.1.0.count) (sym e))

module _ {W : Type 0} (h : ContainerHost W) where
  -- `n` terminals came behind the ones of `s`.
  abbrev pub Grown : ℕ → PtysConfig × W → PtysConfig × W → Type 0
  Grown n s t =
      (new : List PtyConfig) × (t.0.ptys ≡ s.0.ptys ++ new)
      × (length new ≡ n)
      × (t.0.count ≡ s.0.count)

  open_ptys_grow :
      (n : ℕ) (s t : PtysConfig × W) {a : Unit {0}} → open_ptys h n s ≡ (ok a, t) → Grown n s t
  unfolding open_ptys pure gets
  open_ptys_grow zero s t e =
      let same : t ≡ s = ap (λ r. r.1) (sym e) in
      rw same ([], sym (append-nil s.0.ptys), refl, refl)
  open_ptys_grow (suc n) s t e =
      let (c, u, p, e1) = bind-inv (gets (λ s. s.0)) _ s e in
      let (pty, v, q, e2) = bind-inv (on_world (open_pty h c)) _ u e1 in
      let (_, w, r, e3) = bind-inv (add_pty pty) _ v e2 in
      let (new, grown, count, same) = open_ptys_grow n w t e3 in
      let same_u : u.0 ≡ s.0 = ap (λ r. r.1.0) (sym p) in
      let same_v : v.0 ≡ s.0 = on_world_part (open_pty h c) u v q ∙ same_u in
      let (added, kept) = add_pty_lem pty v w r in
      let one : PtyConfig = record { master_fd = pty.0; pts_name = pty.1 } in
      (
        one ∷ new,
        grown
            ∙ ap (λ l. l ++ new) (added ∙ ap (λ x. x.ptys ++ one ∷ []) same_v)
            ∙ append_assoc s.0.ptys (one ∷ []) new,
        ap suc count,
        same ∙ kept ∙ ap (λ x. x.count) same_v,
      )

  -- Where it returns, as many terminals as are asked for are put behind those that are there.
  pub prepare_grow :
      (s t : PtysConfig × W) {a : Unit {0}} → prepare h s ≡ (ok a, t) → Grown s.0.count s t
  unfolding prepare gets
  prepare_grow s t e =
      let (c, u, p, e1) = bind-inv (gets (λ s. s.0)) _ s e in
      let same_u : u ≡ s = ap (λ r. r.1) (sym p) in
      let same_c : c ≡ s.0 = ok-injective (ap (λ r. r.0) (sym p)) in
      let (new, grown, count, same) = open_ptys_grow c.count u t e1 in
      (
        new,
        grown ∙ ap (λ x. x.0.ptys ++ new) same_u,
        count ∙ ap (λ x. x.count) same_c,
        same ∙ ap (λ x. x.0.count) same_u,
      )

  -- Closing them leaves the list as it is.
  revert_same : (s t : PtysConfig × W) {a : Unit {0}} → revert h s ≡ (ok a, t) → t.0 ≡ s.0
  unfolding revert gets
  revert_same s t e =
      let (c, u, p, e1) = bind-inv (gets (λ s. s.0)) _ s e in
      on_world_part (close_all h c.ptys) u t e1 ∙ ap (λ r. r.1.0) (sym p)

  -- Where the terminals were made, closed and made again, each of which returned: those of the second time stand behind
  -- those of the first, which are closed, and behind whatever was there before; there are twice as many as asked for.
  pub prepare_twice :
      (s t u v : PtysConfig × W)
      → prepare h s ≡ (ok tt, t)
      → revert h t ≡ (ok tt, u)
      → prepare h u ≡ (ok tt, v)
      → (old new : List PtyConfig) × (t.0.ptys ≡ s.0.ptys ++ old)
        × (v.0.ptys ≡ t.0.ptys ++ new)
        × (length v.0.ptys ≡ length s.0.ptys + s.0.count + s.0.count)
  prepare_twice s t u v first closed second =
      let (old, grown, count, same) = prepare_grow s t first in
      let (new, grown', count', same') = prepare_grow u v second in
      let left = revert_same t u closed in
      let ends : v.0.ptys ≡ t.0.ptys ++ new = grown' ∙ ap (λ x. x.ptys ++ new) left in
      let again : u.0.count ≡ s.0.count = ap (λ x. x.count) left ∙ same in
      (
        old,
        new,
        grown,
        ends,
        omega (
          arith,
          ap length ends,
          ap length grown,
          length-append {0} t.0.ptys new,
          length-append {0} s.0.ptys old,
          count,
          count',
          again,
        ),
      )
