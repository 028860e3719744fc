-- ===== src/Lxcpp/Container/Sound.antt =====
-- A sound configuration of a container (libs/lxcpp/container-impl.cpp), which the methods that configure it keep.
use mathlib.Core.Path.{subst}
use vasum.Prelude.{
  ℕ, ◌≤◌, ◌<◌, ◌≡◌, ◌≢◌, ◌⊎◌, inl, inr, refl, sym, Bool, true, List, [], ◌∷◌, Text, length,
  length-append, is_empty, nat_eq, arith, leb, Bool-cases,
}
use vasum.Prelude.Exec.{ok, ◌>>=◌, ◌>>◌}
use vasum.Prelude.Keeps.{Keeps}
use vasum.Lxcpp.UserNamespace.{IdRange, UserNsConfig, add_map}
use vasum.Lxcpp.ProvisionConfig.{ProvisionConfig}
use vasum.Lxcpp.ProvisionConfig.Items.{AllDistinct, add-AllDistinct, remove-AllDistinct}
use vasum.Lxcpp.ContainerConfig.{ContainerConfig, PtysConfig}
use vasum.Lxcpp.Container.{ContainerHost, Method, change}
use vasum.Lxcpp.Container.Keeps.{
  OnConfig, OnConfig-change, OnConfig-update_by, Keeps-guarded, config_rules,
}
use vasum.Lxcpp.Container.Settings.{
  Setting, set_up, host_name_call, terminal_count_call, uid_map_call, gid_map_call, declare_call,
  remove_declared_call, with_user,
}

-- A container that maps ids is in a user namespace. It maps at most five ranges of users and as many of groups, has a host
-- name and a terminal, and declares nothing twice.
pub record Sound (users : UserNsConfig) (new_user : Bool) (host_name : Text) (terminals : ℕ)
    (provisions : ProvisionConfig) : Type 0 where
  pub mapped : ((users.uid_maps ≡ []) × (users.gid_maps ≡ [])) ⊎ (new_user ≡ true)
  pub few_uids : length users.uid_maps ≤ 5
  pub few_gids : length users.gid_maps ≤ 5
  pub named : host_name ≢ []
  pub terminal : 0 < terminals
  pub distinct : AllDistinct provisions

abbrev pub IsSound : ContainerConfig → Type 0
IsSound c = Sound c.user_ns c.namespaces.new_user c.host_name c.terminals.count c.provisions

-- The same, in a user namespace.
abbrev IsSoundUser : ContainerConfig → Type 0
IsSoundUser c = IsSound c × (c.namespaces.new_user ≡ true)

length-add_map :
    (map : List IdRange) (r : IdRange) {map' : List IdRange}
    → add_map map r ≡ ok map'
    → length map' ≤ 5
unfolding add_map
length-add_map map r e = elim (Bool-cases (leb 5 (length map))) [
  | inl full ↦ ground (arith, full)
  | inr room ↦ ground (arith, room, length-append {0} map (r ∷ []))
]

-- A change that makes more true, for what follows it.
Keeps-after_change :
    {W : Type 0} (P Q : ContainerConfig → Type 0) (f : ContainerConfig → ContainerConfig)
    (m : Method W (Unit {0}))
    → ((c : ContainerConfig) → P c → Q (f c))
    → ((c : ContainerConfig) → Q c → P c)
    → Keeps (OnConfig Q) m
    → Keeps (OnConfig P) (do change f; m)
unfolding ◌>>=◌ change
Keeps-after_change P Q f m up down k = record {
  after = λ s p. down _ (k.after (record s.0 { config = f s.0.config }, s.1) (up s.0.config p));
}

pub terminals_changed :
    (c : ContainerConfig) (t : PtysConfig)
    → t.count ≡ c.terminals.count
    → IsSound c
    → IsSound (record c { terminals = t })
terminals_changed c t e p =
    subst (λ n. Sound c.user_ns c.namespaces.new_user c.host_name n c.provisions) (sym e) p

module _ {W : Type 0} (h : ContainerHost W) where
  add_uid_map-IsSound : (r : IdRange) → Keeps (OnConfig {W = W} IsSound) (set_up h (uid_map_call r))
  unfolding set_up
  add_uid_map-IsSound r =
      Keeps-after_change IsSound IsSoundUser with_user _
        (λ c p. (
          record {
            mapped = inr refl;
            few_uids = p.few_uids;
            few_gids = p.few_gids;
            named = p.named;
            terminal = p.terminal;
            distinct = p.distinct;
          },
          refl,
        ))
        (λ c p. p.0)
        (OnConfig-update_by IsSoundUser _ _ (λ c maps p e. (
          record {
            mapped = inr p.1;
            few_uids = length-add_map _ r e;
            few_gids = p.0.few_gids;
            named = p.0.named;
            terminal = p.0.terminal;
            distinct = p.0.distinct;
          },
          p.1,
        )))

  add_gid_map-IsSound : (r : IdRange) → Keeps (OnConfig {W = W} IsSound) (set_up h (gid_map_call r))
  unfolding set_up
  add_gid_map-IsSound r =
      Keeps-after_change IsSound IsSoundUser with_user _
        (λ c p. (
          record {
            mapped = inr refl;
            few_uids = p.few_uids;
            few_gids = p.few_gids;
            named = p.named;
            terminal = p.terminal;
            distinct = p.distinct;
          },
          refl,
        ))
        (λ c p. p.0)
        (OnConfig-update_by IsSoundUser _ _ (λ c maps p e. (
          record {
            mapped = inr p.1;
            few_uids = p.0.few_uids;
            few_gids = length-add_map _ r e;
            named = p.0.named;
            terminal = p.0.terminal;
            distinct = p.0.distinct;
          },
          p.1,
        )))

  pub set_up-IsSound : (e : Setting) → Keeps (OnConfig {W = W} IsSound) (set_up h e)
  unfolding set_up
  set_up-IsSound (uid_map_call r) = add_uid_map-IsSound r
  set_up-IsSound (gid_map_call r) = add_gid_map-IsSound r
  set_up-IsSound (host_name_call t) = Keeps-guarded (is_empty t) _ _ (λ some'.
      OnConfig-change IsSound _ (λ c p. record {
        mapped = p.mapped;
        few_uids = p.few_uids;
        few_gids = p.few_gids;
        named = ground (arith, some');
        terminal = p.terminal;
        distinct = p.distinct;
      }))
  set_up-IsSound (terminal_count_call n) = Keeps-guarded (nat_eq n 0) _ _ (λ some'.
      OnConfig-change IsSound _ (λ c p. record {
        mapped = p.mapped;
        few_uids = p.few_uids;
        few_gids = p.few_gids;
        named = p.named;
        terminal = ground (arith, some');
        distinct = p.distinct;
      }))
  set_up-IsSound (declare_call item) = OnConfig-update_by IsSound _ _ (λ c l p e. record {
    mapped = p.mapped;
    few_uids = p.few_uids;
    few_gids = p.few_gids;
    named = p.named;
    terminal = p.terminal;
    distinct = add-AllDistinct c.provisions l item p.distinct e;
  })
  set_up-IsSound (remove_declared_call item) = OnConfig-update_by IsSound _ _ (λ c l p e. record {
    mapped = p.mapped;
    few_uids = p.few_uids;
    few_gids = p.few_gids;
    named = p.named;
    terminal = p.terminal;
    distinct = remove-AllDistinct c.provisions l item p.distinct e;
  })
  set_up-IsSound e =
      search (config_rules, OnConfig-change IsSound, OnConfig-update_by IsSound) depth 12
