-- ===== src/Server/Provision/Mounts.antt =====
-- Starting and stopping the provisions of a zone (server/zone-provision.cpp): mounts are undone in
-- the reverse of the order in which they were made.
use mathlib.Core.List.{reverse, reverse-cons, append_assoc, append-nil}
use vasum.Prelude.{
  ◌≡◌, refl, sym, ap, ◌∙◌, Bool, true, List, [], ◌∷◌, ◌++◌, Text, All, if◌then◌else◌,
}
use vasum.Prelude.Exec.{ok, Exec, ◌>>=◌, ◌>>◌, on_world, bind-ok}
use vasum.Server.Provision.{
  Provision, file, mount, link, unset, ZoneProvision, ProvisionHost, provide, umount, start_one,
  start_loop, start, stop_one, stop_loop, stop,
}

-- The call succeeds from every state of the world.
abbrev pub Succeeds : {W : Type 0} → Exec W (Unit {0}) → Type 0
Succeeds {W} m = (w : W) → (m w).0 ≡ ok tt

abbrev with_provisioned : ZoneProvision → List Provision → ZoneProvision
with_provisioned self ps = record self { provisioned = ps }

module _ {W : Type 0} (h : ProvisionHost W) where
  -- What providing the declarations in order does to the world.
  abbrev pub provide_all : ZoneProvision → List Provision → W → W
  provide_all self [] w = w
  provide_all self (p ∷ ps) w = provide_all self ps (provide h self p w).1

  -- What unmounting the mounts among the entries in order does to the world.
  abbrev pub umount_all : Text → List Provision → W → W
  umount_all root [] w = w
  umount_all root (mount source target type flags options ∷ ps) w =
      umount_all root ps (umount h root target w).1
  umount_all root (p ∷ ps) w = umount_all root ps w

  provide-with_provisioned :
      (self : ZoneProvision) (ps : List Provision) (p : Provision)
      → provide h (with_provisioned self ps) p ≡ provide h self p
  unfolding provide
  provide-with_provisioned self ps (file type path flags mode) = refl
  provide-with_provisioned self ps (mount source target type flags options) = refl
  provide-with_provisioned self ps (link source target) = refl
  provide-with_provisioned self ps unset = refl

  provide_all-with_provisioned :
      (self : ZoneProvision) (qs ps : List Provision) (w : W)
      → provide_all (with_provisioned self qs) ps w ≡ provide_all self ps w
  provide_all-with_provisioned self qs [] w = refl
  provide_all-with_provisioned self qs (p ∷ ps) w =
      rw (provide-with_provisioned self qs p)
        (provide_all-with_provisioned self qs ps (provide h self p w).1)

  start_one-ok :
      (self : ZoneProvision) (p : Provision) (w : W)
      → (provide h self p w).0 ≡ ok tt
      → start_one h p (self, w)
        ≡ (ok tt, (with_provisioned self (p ∷ self.provisioned), (provide h self p w).1))
  unfolding start_one ◌>>=◌ on_world
  start_one-ok self p w e = rw e

  start_loop-cons :
      (p : Provision) (ps : List Provision)
      → start_loop h (p ∷ ps) ≡ (start_one h p >> start_loop h ps)
  unfolding start_loop
  start_loop-cons p ps = refl

  All-with_provisioned :
      (self : ZoneProvision) (qs ps : List Provision)
      → All (λ p. Succeeds (provide h self p)) ps
      → All (λ p. Succeeds (provide h (with_provisioned self qs) p)) ps
  All-with_provisioned self qs [] good = tt
  All-with_provisioned self qs (p ∷ ps) good =
      (rw (provide-with_provisioned self qs p) good.0, All-with_provisioned self qs ps good.1)

  start_loop-ok :
      (self : ZoneProvision) (ps : List Provision) (w : W)
      → All (λ p. Succeeds (provide h self p)) ps
      → start_loop h ps (self, w)
        ≡ (ok tt, (with_provisioned self (reverse ps ++ self.provisioned), provide_all self ps w))
  start_loop-ok self [] w good = unfold start_loop ◌>>=◌ in refl
  start_loop-ok self (p ∷ ps) w good =
      let mid = with_provisioned self (p ∷ self.provisioned) in
      let rest =
        start_loop-ok mid ps (provide h self p w).1
          (All-with_provisioned self (p ∷ self.provisioned) ps good.1) in
      rw (start_loop-cons p ps) (
        bind-ok (start_one h p) (λ _. start_loop h ps) (self, w) (start_one-ok self p w (good.0 w))
        ∙ rest
        ∙ cc (
          provide_all-with_provisioned self (p ∷ self.provisioned) ps (provide h self p w).1,
          ap (λ l. l ++ self.provisioned) (reverse-cons p ps),
          append_assoc (reverse ps) (p ∷ []) self.provisioned,
        ))

  stop_one-ok :
      (self : ZoneProvision) (p : Provision) (w : W)
      → ((target : Text) → Succeeds (umount h self.root_path target))
      → stop_one h self p w ≡ (ok true, umount_all self.root_path (p ∷ []) w)
  unfolding stop_one ◌>>=◌
  stop_one-ok self (file type path flags mode) w good = refl
  stop_one-ok self (mount source target type flags options) w good = rw (good target w)
  stop_one-ok self (link source target) w good = refl
  stop_one-ok self unset w good = refl

  umount_all-cons :
      (root : Text) (p : Provision) (ps : List Provision) (w : W)
      → umount_all root ps (umount_all root (p ∷ []) w) ≡ umount_all root (p ∷ ps) w
  umount_all-cons root (file type path flags mode) ps w = refl
  umount_all-cons root (mount source target type flags options) ps w = refl
  umount_all-cons root (link source target) ps w = refl
  umount_all-cons root unset ps w = refl

  stop_loop-cons :
      (self : ZoneProvision) (p : Provision) (ps : List Provision) (w w₁ w₂ : W) (done : Bool)
      (rest : List Provision)
      → stop_one h self p w ≡ (ok done, w₁)
      → stop_loop h self ps w₁ ≡ (ok rest, w₂)
      → stop_loop h self (p ∷ ps) w ≡ (ok (if done then rest else p ∷ rest), w₂)
  unfolding stop_loop ◌>>=◌
  stop_loop-cons self p ps w w₁ w₂ done rest e₁ e₂ = rw (e₁, e₂)

  stop_loop-ok :
      (self : ZoneProvision) (ps : List Provision) (w : W)
      → ((target : Text) → Succeeds (umount h self.root_path target))
      → stop_loop h self ps w ≡ (ok [], umount_all self.root_path ps w)
  stop_loop-ok self [] w good = unfold stop_loop ◌>>=◌ in refl
  stop_loop-ok self (p ∷ ps) w good =
      stop_loop-cons self p ps w (umount_all self.root_path (p ∷ []) w) _ true []
        (stop_one-ok self p w good)
        (stop_loop-ok self ps (umount_all self.root_path (p ∷ []) w) good)
      ∙ ap (λ v. (ok [], v)) (umount_all-cons self.root_path p ps w)

  start-ok :
      (self : ZoneProvision) (w : W)
      → All (λ p. Succeeds (provide h self p)) self.provisions
      → start h (self, w) ≡ (
        ok tt,
        (
          with_provisioned self (reverse self.provisions ++ self.provisioned),
          provide_all self self.provisions w,
        ),
      )
  start-ok self w good = unfold start ◌>>=◌ in start_loop-ok self self.provisions w good

  stop-ok :
      (self : ZoneProvision) (w : W)
      → ((target : Text) → Succeeds (umount h self.root_path target))
      → stop h (self, w)
        ≡ (ok tt, (with_provisioned self [], umount_all self.root_path self.provisioned w))
  unfolding stop ◌>>=◌ on_world
  stop-ok self w good = rw (stop_loop-ok self self.provisioned w good)

-- A start and then a stop, from nothing provisioned, where the host's calls for the declarations and for
-- unmounting succeed: the declarations are
-- provided in order, the mounts among them are unmounted in the reverse order, and nothing stays
-- provisioned.
pub start-stop :
    {W : Type 0} (h : ProvisionHost W) (self : ZoneProvision) (w : W)
    → All (λ p. Succeeds (provide h self p)) self.provisions
    → ((target : Text) → Succeeds (umount h self.root_path target))
    → self.provisioned ≡ []
    → (start h >> stop h) (self, w) ≡ (
      ok tt,
      (
        self,
        umount_all h self.root_path
            (reverse self.provisions)
            (provide_all h self self.provisions w),
      ),
    )
start-stop {W} h self w good gone fresh =
    bind-ok (start h) (λ _. stop h) (self, w) (start-ok h self w good)
    ∙ stop-ok h (with_provisioned self (reverse self.provisions ++ self.provisioned)) _ gone
    ∙ ap (λ l. (ok tt, (with_provisioned self [], unmounted (reverse self.provisions ++ l)))) fresh
    ∙ ap (λ l. (ok tt, (with_provisioned self [], unmounted l)))
        (append-nil (reverse self.provisions))
    ∙ ap (λ l. (ok tt, (with_provisioned self l, unmounted (reverse self.provisions)))) (sym fresh)
  where
    unmounted : List Provision → W
    unmounted l = umount_all h self.root_path l (provide_all h self self.provisions w)
