-- ===== src/Lxcpp/ProvisionConfig/Items.antt =====
-- The provisions of a container as a whole (libs/lxcpp/provision-config.cpp).
use vasum.Prelude.{◌≡◌, refl, Bool, true, false, List, arith, eq_iff, ◌&&◌}
use vasum.Prelude.Int.{eq_ℤ_iff}
use vasum.Prelude.Exec.{Outcome, ok, raised, crashed}
use vasum.Lxcpp.ProvisionConfig.{
  FileType, Item, file, mount, link, file_eq, mount_eq, link_eq, add_item, remove_item,
  ProvisionConfig, file_type_int, add, remove, with_list,
}
use vasum.Prelude.Returns.{ok-injective}
use vasum.Lxcpp.ProvisionConfig.Lists.{
  Decides, Distinct, remove-add_item, add_item-Distinct, remove_item-Distinct,
}

and_parts : (a b : Bool) → a && b ≡ true → (a ≡ true) × (b ≡ true)
and_parts true b h = (refl, h)
and_parts false b h = cc h

file_type_injective : (a b : FileType) → file_type_int a ≡ file_type_int b → a ≡ b
file_type_injective a b e = ground arith

file_eq-Decides : Decides file_eq
unfolding file_eq
file_eq-Decides = record {
  iff = λ a b. (
    λ h. ground (
      arith,
      eq_ℤ_iff (file_type_int a.file_type) (file_type_int b.file_type),
      file_type_injective a.file_type b.file_type,
      eq_iff a.path b.path,
      eq_ℤ_iff a.flags b.flags,
      eq_ℤ_iff a.mode b.mode,
    ),
    λ h. ground (
      arith,
      eq_ℤ_iff (file_type_int a.file_type) (file_type_int b.file_type),
      eq_iff a.path b.path,
      eq_ℤ_iff a.flags b.flags,
      eq_ℤ_iff a.mode b.mode,
    ),
  );
}

mount_eq-Decides : Decides mount_eq
unfolding mount_eq
mount_eq-Decides = record {
  iff = λ a b. (
    λ h. ground (
      arith,
      eq_iff a.source b.source,
      eq_iff a.target b.target,
      eq_iff a.fs_type b.fs_type,
      eq_ℤ_iff a.flags b.flags,
      eq_iff a.options b.options,
    ),
    λ h. ground (
      arith,
      eq_iff a.source b.source,
      eq_iff a.target b.target,
      eq_iff a.fs_type b.fs_type,
      eq_ℤ_iff a.flags b.flags,
      eq_iff a.options b.options,
    ),
  );
}

link_eq-Decides : Decides link_eq
unfolding link_eq
link_eq-Decides = record {
  iff = λ a b. (
    λ h. ground (arith, eq_iff a.source b.source, eq_iff a.target b.target),
    λ h. ground (arith, eq_iff a.source b.source, eq_iff a.target b.target),
  );
}

with_list-inv :
    {A : Type 0} (put : List A → ProvisionConfig) (r : Outcome (List A)) {p : ProvisionConfig}
    → with_list put r ≡ ok p
    → (l : List A) × (r ≡ ok l) × (put l ≡ p)
with_list-inv put (ok l) e = (l, refl, ok-injective e)
with_list-inv put (raised x) e = cc
with_list-inv put crashed e = cc

-- Whatever was added can be removed, and that leaves the provisions as they were before: the three lists, in their order.
pub remove-add : (p p' : ProvisionConfig) (a : Item) → add p a ≡ ok p' → remove p' a ≡ ok p
unfolding add remove
remove-add p p' (file f) e =
    let (l, added, put) = with_list-inv _ (add_item file_eq p.files f) e in
    let back = remove-add_item file_eq file_eq-Decides p.files l f added in
    rw (← put) (rw back refl)
remove-add p p' (mount m) e =
    let (l, added, put) = with_list-inv _ (add_item mount_eq p.mounts m) e in
    let back = remove-add_item mount_eq mount_eq-Decides p.mounts l m added in
    rw (← put) (rw back refl)
remove-add p p' (link k) e =
    let (l, added, put) = with_list-inv _ (add_item link_eq p.links k) e in
    let back = remove-add_item link_eq link_eq-Decides p.links l k added in
    rw (← put) (rw back refl)

-- No provision is in the lists twice.
pub record AllDistinct (p : ProvisionConfig) : Type 0 where
  pub of_files : Distinct p.files
  pub of_mounts : Distinct p.mounts
  pub of_links : Distinct p.links

pub add-AllDistinct :
    (p p' : ProvisionConfig) (a : Item) → AllDistinct p → add p a ≡ ok p' → AllDistinct p'
unfolding add
add-AllDistinct p p' (file f) h e =
    let (l, added, put) = with_list-inv _ (add_item file_eq p.files f) e in
    let d = add_item-Distinct file_eq file_eq-Decides p.files l f h.of_files added in
    rw (← put) (record { of_files = d; of_mounts = h.of_mounts; of_links = h.of_links })
add-AllDistinct p p' (mount m) h e =
    let (l, added, put) = with_list-inv _ (add_item mount_eq p.mounts m) e in
    let d = add_item-Distinct mount_eq mount_eq-Decides p.mounts l m h.of_mounts added in
    rw (← put) (record { of_files = h.of_files; of_mounts = d; of_links = h.of_links })
add-AllDistinct p p' (link k) h e =
    let (l, added, put) = with_list-inv _ (add_item link_eq p.links k) e in
    let d = add_item-Distinct link_eq link_eq-Decides p.links l k h.of_links added in
    rw (← put) (record { of_files = h.of_files; of_mounts = h.of_mounts; of_links = d })

pub remove-AllDistinct :
    (p p' : ProvisionConfig) (a : Item) → AllDistinct p → remove p a ≡ ok p' → AllDistinct p'
unfolding remove
remove-AllDistinct p p' (file f) h e =
    let (l, left, put) = with_list-inv _ (remove_item file_eq p.files f) e in
    let d = remove_item-Distinct file_eq file_eq-Decides p.files l f h.of_files left in
    rw (← put) (record { of_files = d; of_mounts = h.of_mounts; of_links = h.of_links })
remove-AllDistinct p p' (mount m) h e =
    let (l, left, put) = with_list-inv _ (remove_item mount_eq p.mounts m) e in
    let d = remove_item-Distinct mount_eq mount_eq-Decides p.mounts l m h.of_mounts left in
    rw (← put) (record { of_files = h.of_files; of_mounts = d; of_links = h.of_links })
remove-AllDistinct p p' (link k) h e =
    let (l, left, put) = with_list-inv _ (remove_item link_eq p.links k) e in
    let d = remove_item-Distinct link_eq link_eq-Decides p.links l k h.of_links left in
    rw (← put) (record { of_files = h.of_files; of_mounts = h.of_mounts; of_links = d })
