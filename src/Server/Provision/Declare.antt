-- ===== src/Server/Provision/Declare.antt =====
-- Declaring, listing and removing (server/zone-provision.cpp): the list of declarations keeps one entry for each id.
use vasum.Prelude.{
  ◌≡◌, refl, sym, ap, ◌∙◌, ◌⊎◌, inl, inr, true, false, List, [], ◌∷◌, ◌++◌, Text, lit, Any, arith,
}
use vasum.Prelude.Int.{ℤ}
use vasum.Prelude.Decimal.{to_string}
use vasum.Prelude.Exec.{
  provision_exists, provision_not_found, Outcome, ok, raised, crashed, ◌>>=◌, on_world, continue,
  pure,
}
use vasum.Server.Provision.{
  Provision, file, get_id, ZoneProvision, ProvisionHost, find_id, erase_id, declare_provision,
  declare_file, remove,
}
use vasum.Server.Provision.Ids.{get_id-file_injective}
use vasum.Server.Provision.Entries.{
  HasId, NoneHas, UniqueIds, UniqueIds-append, UniqueIds-erase, find_id-append, find_id-missing,
  erase_id-append, find-cases, Any-map, Any-NoneHas,
}

-- The state after a write to the key-value store, and the id or the store's exception as the result.
abbrev pub after_save :
    {W : Type 0}
    → Text
    → ZoneProvision
    → Outcome (Unit {0}) × W
    → Outcome Text × (ZoneProvision × W)
after_save id self (ok u, w) = (ok id, (self, w))
after_save id self (raised e, w) = (raised e, (self, w))
after_save id self (crashed, w) = (crashed, (self, w))

abbrev pub with_provisions : ZoneProvision → List Provision → ZoneProvision
with_provisions self ps = record self { provisions = ps }

continue_save :
    {W : Type 0} (id : Text) (self : ZoneProvision) (r : Outcome (Unit {0})) (w : W)
    → continue r (λ _. pure id) (self, w) ≡ after_save id self (r, w)
unfolding pure
continue_save id self (ok u) w = refl
continue_save id self (raised e) w = refl
continue_save id self crashed w = refl

module _ {W : Type 0} (h : ProvisionHost W) (self : ZoneProvision) (w : W) where
  declare_present :
      (p : Provision) (id : Text)
      → HasId id p
      → find_id id self.provisions ≡ ok true
      → declare_provision h p (self, w) ≡ (raised provision_exists, (self, w))
  unfolding declare_provision ◌>>=◌
  declare_present p id has found = rw (has, found)

  declare_absent :
      (p : Provision) (id : Text)
      → HasId id p
      → find_id id self.provisions ≡ ok false
      → declare_provision h p (self, w)
        ≡ after_save id
            (with_provisions self (self.provisions ++ p ∷ []))
            (h.save_provisions self.db_path self.db_prefix (self.provisions ++ p ∷ []) w)
  unfolding declare_provision ◌>>=◌ on_world
  declare_absent p id has found =
      let r = h.save_provisions self.db_path self.db_prefix (self.provisions ++ p ∷ []) w in
      rw (has, found) (continue_save id (with_provisions self (self.provisions ++ p ∷ [])) r.0 r.1)

text_id : ℤ → Text → ℤ → ℤ → Text
text_id type path flags mode =
    lit "file "
    ++ (path
        ++ lit " "
        ++ (to_string type ++ lit " " ++ (to_string flags ++ lit " " ++ to_string mode)))

IsFile-HasId :
    (type : ℤ) (path : Text) (flags mode : ℤ) (id : Text) (p : Provision)
    → HasId id (file type path flags mode)
    → HasId id p
    → file type path flags mode ≡ p
IsFile-HasId type path flags mode id p a b =
    sym (get_id-file_injective p type path flags mode (b ∙ sym a))

-- Declaring a file, over declarations whose ids are distinct. If the very same file is declared already,
-- the call throws that it exists and changes nothing. Otherwise the file is added at the end, the ids
-- stay distinct, and the new list is what goes to the key-value store; the call returns the file's id,
-- or throws what the store threw, with the file kept in the list.
pub declare_file_cases :
    {W : Type 0} (h : ProvisionHost W) (self : ZoneProvision) (w : W) (type : ℤ) (path : Text)
    (flags mode : ℤ)
    → UniqueIds self.provisions
    → (Any (λ p. file type path flags mode ≡ p) self.provisions
        × (declare_file h type path flags mode (self, w) ≡ (raised provision_exists, (self, w))))
      ⊎ ((¬ Any (λ p. file type path flags mode ≡ p) self.provisions)
          × UniqueIds (self.provisions ++ file type path flags mode ∷ [])
          × (id : Text) × HasId id (file type path flags mode)
          × (declare_file h type path flags mode (self, w)
              ≡ after_save id
                  (with_provisions self (self.provisions ++ file type path flags mode ∷ []))
                  (h.save_provisions self.db_path self.db_prefix
                    (self.provisions ++ file type path flags mode ∷ [])
                    w)))
unfolding declare_file
declare_file_cases h self w type path flags mode u =
    let p = file type path flags mode in
    let id = text_id type path flags mode in
    let has : HasId id p = unfold get_id text_id in refl in
    elim (find-cases id self.provisions u) [
      | inl (e, a) ↦ inl (
        Any-map (λ q. IsFile-HasId type path flags mode id q has) self.provisions a,
        declare_present h self w p id has e,
      )
      | inr (e, n) ↦ inr (
        λ a.
            Any-NoneHas id self.provisions n (Any-map (λ q same. rw same at has) self.provisions a),
        UniqueIds-append id self.provisions p u n has,
        id,
        has,
        declare_absent h self w p id has e,
      )
    ]

module _ {W : Type 0} (h : ProvisionHost W) (self : ZoneProvision) (w : W) where
  remove_present :
      (item : Text)
      → find_id item self.provisions ≡ ok true
      → remove h item (self, w) ≡ (ok tt, (with_provisions self (erase_id item self.provisions), w))
  unfolding remove ◌>>=◌
  remove_present item e = rw e

  remove_absent :
      (item : Text)
      → find_id item self.provisions ≡ ok false
      → remove h item (self, w) ≡ (raised provision_not_found, (self, w))
  unfolding remove ◌>>=◌
  remove_absent item e = rw e

-- Removing by id, over declarations whose ids are distinct: what was declared last under a new id is
-- taken out again, which gives the declarations from before; an id that no declaration has is refused, and
-- nothing changes.
pub remove_declared :
    {W : Type 0} (h : ProvisionHost W) (self : ZoneProvision) (w : W) (p : Provision) (id : Text)
    → UniqueIds self.provisions
    → NoneHas id self.provisions
    → HasId id p
    → (remove h id (with_provisions self (self.provisions ++ p ∷ []), w) ≡ (ok tt, (self, w)))
      × (remove h id (self, w) ≡ (raised provision_not_found, (self, w)))
remove_declared h self w p id u n has = (
  remove_present h (with_provisions self (self.provisions ++ p ∷ [])) w id
        (find_id-append id self.provisions p u has)
      ∙ ap (λ ps. (ok tt, (with_provisions self ps, w)))
          (erase_id-append id self.provisions p u n has),
  remove_absent h self w id (find_id-missing id self.provisions u n),
)

-- Whatever is removed, declarations whose ids are distinct keep distinct ids.
pub remove-UniqueIds :
    {W : Type 0} (h : ProvisionHost W) (self : ZoneProvision) (w : W) (item : Text)
    → UniqueIds self.provisions
    → UniqueIds (remove h item (self, w)).1.0.provisions
remove-UniqueIds h self w item u = elim (find-cases item self.provisions u) [
  | inl (e, a) ↦ rw (remove_present h self w item e) (UniqueIds-erase item self.provisions u)
  | inr (e, n) ↦ rw (remove_absent h self w item e) u
]

-- Removing never writes to the key-value store: whatever the id, and whether or not it is found, the
-- world outside is left as it was, so the stored declarations still hold the one that was removed.
pub remove-unsaved :
    {W : Type 0} (h : ProvisionHost W) (self : ZoneProvision) (w : W) (item : Text)
    → (remove h item (self, w)).1.1 ≡ w
unfolding remove ◌>>=◌
remove-unsaved h self w item = ground arith
