-- ===== src/Server/Provision/Left.antt =====
-- What stopping the provisions of a zone (server/zone-provision.cpp) leaves provisioned, where unmounting may fail.
use vasum.Prelude.{◌≡◌, refl, Bool, true, false, List, [], ◌∷◌, All, if◌then◌else◌}
use vasum.Prelude.Exec.{Outcome, ok, raised, crashed, Exec, ◌>>=◌, on_world, bind-inv, pure}
use vasum.Server.Provision.{
  Provision, file, mount, link, unset, ZoneProvision, ProvisionHost, stop_one, stop_loop, stop,
}

abbrev pub IsMount : Provision → Type 0
IsMount (mount source target type flags options) = Unit {0}
IsMount p = ⊥

module _ {W : Type 0} (h : ProvisionHost W) where
  stop_one-left :
      (self : ZoneProvision) (p : Provision) (w v : W)
      → stop_one h self p w ≡ (ok false, v)
      → IsMount p
  unfolding stop_one ◌>>=◌
  stop_one-left self (file type path flags mode) w v e = cc
  stop_one-left self (mount source target type flags options) w v e = tt
  stop_one-left self (link source target) w v e = cc
  stop_one-left self unset w v e = cc

  left-cons :
      (p : Provision) (done : Bool) (rest left : List Provision)
      → (done ≡ false → IsMount p)
      → All IsMount rest
      → (if done then rest else p ∷ rest) ≡ left
      → All IsMount left
  left-cons p true rest left one all e = rw (← e) all
  left-cons p false rest left one all e = rw (← e) (one refl, all)

  keep_if : Provision → Bool → List Provision → Exec W (List Provision)
  keep_if p done rest = pure (if done then rest else p ∷ rest)

  keep_if-inv :
      (p : Provision) (done : Bool) (rest left : List Provision) (w v : W)
      → keep_if p done rest w ≡ (ok left, v)
      → (if done then rest else p ∷ rest) ≡ left
  unfolding keep_if pure
  keep_if-inv p done rest left w v e = cc

  stop_loop-bind :
      (self : ZoneProvision) (p : Provision) (ps : List Provision)
      → stop_loop h self (p ∷ ps)
        ≡ (stop_one h self p >>= λ done. stop_loop h self ps >>= keep_if p done)
  unfolding stop_loop keep_if
  stop_loop-bind self p ps = refl

  stop_loop-left :
      (self : ZoneProvision) (ps left : List Provision) (w v : W)
      → stop_loop h self ps w ≡ (ok left, v)
      → All IsMount left
  stop_loop-left self [] left w v e =
      let same : [] ≡ left = unfold stop_loop pure in cc in rw (← same) tt
  stop_loop-left self (p ∷ ps) left w v e =
      let e' = rw (stop_loop-bind self p ps) at e in
      let (done, u, one, more) = bind-inv (stop_one h self p) _ w e' in
      let (rest, u', loop, kept) = bind-inv (stop_loop h self ps) (keep_if p done) u more in
      left-cons p done rest left (λ d. stop_one-left self p w u (rw d at one))
        (stop_loop-left self ps rest u u' loop) (keep_if-inv p done rest left u' v kept)

  stop_left_by :
      (self : ZoneProvision) (w : W) (r : Outcome (List Provision)) (u : W)
      → stop_loop h self self.provisioned w ≡ (r, u)
      → (stop h (self, w)).0 ≡ ok tt
      → All IsMount (stop h (self, w)).1.0.provisioned
  unfolding stop ◌>>=◌ on_world
  stop_left_by self w (ok left) u loop e =
      rw loop (stop_loop-left self self.provisioned left w u loop)
  stop_left_by self w (raised x) u loop e = cc (rw loop at e)
  stop_left_by self w crashed u loop e = cc (rw loop at e)

-- Whatever the host's calls do, when a stop returns, all that it leaves provisioned are mounts.
pub stop-left :
    {W : Type 0} (h : ProvisionHost W) (self : ZoneProvision) (w : W)
    → (stop h (self, w)).0 ≡ ok tt
    → All IsMount (stop h (self, w)).1.0.provisioned
stop-left h self w e =
    let r = stop_loop h self self.provisioned w in stop_left_by h self w r.0 r.1 refl e
