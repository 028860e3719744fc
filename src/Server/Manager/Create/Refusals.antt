-- ===== src/Server/Manager/Create/Refusals.antt =====
-- The ids that createZone and destroyZone of server/zones-manager.cpp refuse.
use vasum.Prelude.{
  ℕ, none, ◌≤◌, ◌≡◌, ◌≢◌, refl, sym, ◌++◌, ◌⊎◌, inl, inr, Bool, true, false, List, [], ◌∷◌, Text,
  lit, ◌==◌, eq_iff, All, is_empty, is_some, Bool-cases, arith,
}
use vasum.Prelude.Exec.{invalid_zone_id, raised, ◌>>=◌, ◌>>◌, on_world}
use vasum.Server.Host.{Host}
use vasum.Server.Zone.{Zone}
use vasum.Server.Manager.{Manager, Method, enabled_file_name, self, find_zone}
use vasum.Server.Manager.Names.{is_alnum_byte, is_alnum, is_prohibited}
use vasum.Server.Manager.Create.{
  build_zone, set_records, save_dynamic_config, update_default_id, create_zone, destroy_zone,
}

-- An ASCII digit or letter.
abbrev pub IsAlnum : ℕ → Type 0
IsAlnum c = ((b'0' ≤ c) × (c ≤ b'9')) ⊎ (((b'A' ≤ c) × (c ≤ b'Z')) ⊎ ((b'a' ≤ c) × (c ≤ b'z')))

-- Not empty, only letters and digits, and not one of the reserved names.
pub record IsName (id : Text) : Type 0 where
  pub some_byte : id ≢ []
  pub alnum : All IsAlnum id
  pub not_enabled : id ≢ enabled_file_name
  pub not_log : id ≢ lit "lxc-monitord.log"

abbrev Decides : Bool → Type 0 → Type 0
Decides b P = ((b ≡ true) × P) ⊎ ((b ≡ false) × ¬ P)

is_alnum_byte-Decides : (c : ℕ) → Decides (is_alnum_byte c) (IsAlnum c)
unfolding is_alnum_byte
is_alnum_byte-Decides c = ground arith

is_alnum-Decides : (id : Text) → Decides (is_alnum id) (All IsAlnum id)
unfolding is_alnum
is_alnum-Decides [] = inl (refl, tt)
is_alnum-Decides (c ∷ cs) = elim (is_alnum_byte-Decides c) [
  | inr (e, n) ↦ inr (rw e refl, (λ a. n a.0))
  | inl (e, p) ↦ elim (is_alnum-Decides cs) [
    | inl (e', ps) ↦ inl (rw (e, e') refl, (p, ps))
    | inr (e', n) ↦ inr (rw (e, e') refl, (λ a. n a.1))
  ]
]

reserved-Decides :
    (id : Text)
    → ((is_prohibited id ≡ false) × (id ≢ enabled_file_name) × (id ≢ lit "lxc-monitord.log"))
      ⊎ ((is_prohibited id ≡ true) × ¬ IsName id)
unfolding is_prohibited
reserved-Decides id = elim (Bool-cases (enabled_file_name == id)) [
  | inl e ↦ inr (rw e refl, (λ n. n.not_enabled (sym ((eq_iff enabled_file_name id).0 e))))
  | inr e ↦ elim (Bool-cases (lit "lxc-monitord.log" == id)) [
    | inl e' ↦
        inr (rw (e, e') refl, (λ n. n.not_log (sym ((eq_iff (lit "lxc-monitord.log") id).0 e'))))
    | inr e' ↦ inl (
      rw (e, e') refl,
      (λ s. cc (e, (eq_iff enabled_file_name id).1 (sym s))),
      (λ s. cc (e', (eq_iff (lit "lxc-monitord.log") id).1 (sym s))),
    )
  ]
]

find_zone-Decides :
    (id : Text) (zs : List Zone)
    → ((is_some (find_zone id zs) ≡ false) × All (λ z. z.id ≢ id) zs)
      ⊎ ((is_some (find_zone id zs) ≡ true) × ¬ All (λ z. z.id ≢ id) zs)
unfolding find_zone
find_zone-Decides id [] = inl (refl, tt)
find_zone-Decides id (z ∷ zs) = elim (Bool-cases (z.id == id)) [
  | inl e ↦ inr (rw e refl, (λ a. a.0 ((eq_iff z.id id).0 e)))
  | inr e ↦ elim (find_zone-Decides id zs) [
    | inl (e', ps) ↦ inl (rw (e, e') refl, ((λ s. cc (e, (eq_iff z.id id).1 s)), ps))
    | inr (e', n) ↦ inr (rw (e, e') refl, (λ a. n a.1))
  ]
]

is_empty-true : (id : Text) → is_empty id ≡ true → id ≡ []
is_empty-true [] e = refl
is_empty-true (c ∷ cs) e = cc

is_empty-false : (id : Text) → is_empty id ≡ false → id ≢ []
is_empty-false [] e same = cc
is_empty-false (c ∷ cs) e same = cc

module _ {W : Type 0} (h : Host W) (id : Text) (s : Manager × W) where
  -- Something at the place of the zone's files.
  abbrev pub is_occupied : Bool
  is_occupied = h.path_exists (h.provisions.join_path s.0.config.zones_path id) s.1

  -- The id is a name, no zone has it, and there is nothing of that name in the zones' path.
  pub record IsFree : Type 0 where
    pub name : IsName id
    pub unknown : All (λ z. z.id ≢ id) s.0.zones
    pub unoccupied : is_occupied ≡ false

  -- The rest of createZone.
  abbrev pub creation : Text → Method W (Unit {0})
  creation template = do
    build_zone h id template
    set_records h (λ records. records ++ id ∷ [])
    save_dynamic_config h
    update_default_id h

  -- A creation of a zone whose id is not free is refused with the exception for invalid ids, and neither the manager nor its
  -- world changes: where the id is empty, has a byte that is no ASCII letter or digit, is one of the two reserved names, or is
  -- that of a zone, or where something stands at the place of the zone's files. With any other id
  -- the rest of createZone is run: the building of the zone, its record, the saving and the new default id.
  pub create_zone_cases :
      (template : Text)
      → (IsFree × (create_zone h id template s ≡ creation template s))
        ⊎ (¬ IsFree × (create_zone h id template s ≡ (raised invalid_zone_id, s)))
  unfolding create_zone ◌>>=◌ self on_world
  create_zone_cases template = elim (Bool-cases (is_empty id)) [
    | inl none' ↦ inr ((λ f. f.name.some_byte (is_empty-true id none')), rw none' refl)
    | inr filled ↦ elim (is_alnum-Decides id) [
      | inr (e, n) ↦ inr ((λ f. n f.name.alnum), rw (filled, e) refl)
      | inl (e, alnum) ↦ elim (reserved-Decides id) [
        | inr (r, n) ↦ inr ((λ f. n f.name), rw (filled, e, r) refl)
        | inl (r, not_enabled, not_log) ↦ elim (find_zone-Decides id s.0.zones) [
          | inr (k, n) ↦ inr ((λ f. n f.unknown), rw (filled, e, r, k) refl)
          | inl (k, unknown) ↦ elim (Bool-cases is_occupied) [
            | inl o ↦ inr ((λ f. cc (o, f.unoccupied)), rw (filled, e, r, k, o) refl)
            | inr o ↦ inl (
              record {
                name = record {
                  some_byte = is_empty-false id filled;
                  alnum = alnum;
                  not_enabled = not_enabled;
                  not_log = not_log;
                };
                unknown = unknown;
                unoccupied = o;
              },
              rw (filled, e, r, k, o) refl,
            )
          ]
        ]
      ]
    ]
  ]

  pub destroy_zone-unknown :
      find_zone id s.0.zones ≡ none → destroy_zone h id s ≡ (raised invalid_zone_id, s)
  unfolding destroy_zone ◌>>=◌ self
  destroy_zone-unknown unknown = rw unknown refl
