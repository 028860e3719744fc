-- ===== src/Lxc/Devices.antt =====
-- What granting and revoking a device writes (common/lxc/cgroup.cpp).
use vasum.Prelude.{
  ℕ, ◌≤◌, ◌<◌, ◌≡◌, refl, ◌⊎◌, inl, inr, Bool, true, false, ◌||◌, [], ◌∷◌, ◌++◌, Text, lit, arith,
  is_empty, nat_eq, Bool-cases, if◌then◌else◌,
}
use vasum.Prelude.Int.{pos}
use vasum.Prelude.Decimal.{to_string}
use vasum.Prelude.Exec.{Outcome, ok, raised, crashed, Exec, pure, continue, ◌>>=◌}
use vasum.Lxc.{LxcApi, DeviceStat, flags_to_permissions, set_device_access}

-- The permissions that an access stands for: reading but for write-only flags, writing but for read-only flags, and making
-- the node; all three where the access is taken away.
abbrev pub permissions : Bool → ℕ → Text
permissions false flags = lit "rwm"
permissions true flags =
    (if nat_eq flags 1 then [] else lit "r")
    ++ ((if nat_eq flags 0 then [] else lit "w") ++ lit "m")

-- The flags of an access: O_RDONLY, O_WRONLY or O_RDWR where it is granted.
abbrev pub IsAccess : Bool → ℕ → Type 0
IsAccess false flags = Unit {0}
IsAccess true flags = flags < 3

IsAccess-cases : (grant : Bool) (flags : ℕ) → IsAccess grant flags ⊎ ((grant ≡ true) × (3 ≤ flags))
IsAccess-cases false flags = inl tt
IsAccess-cases true flags = ground arith

flags_to_permissions-access :
    (grant : Bool) (flags : ℕ)
    → IsAccess grant flags
    → flags_to_permissions grant flags ≡ permissions grant flags
unfolding flags_to_permissions
flags_to_permissions-access false flags h = refl
flags_to_permissions-access true flags h = ground arith

permissions-visible :
    (grant : Bool) (flags : ℕ) → IsAccess grant flags → is_empty (permissions grant flags) ≡ false
permissions-visible false flags h = refl
permissions-visible true flags h = ground arith

flags_to_permissions-none :
    (grant : Bool) (flags : ℕ) → grant ≡ true → 3 ≤ flags → flags_to_permissions grant flags ≡ []
unfolding flags_to_permissions
flags_to_permissions-none false flags g h = cc
flags_to_permissions-none true flags g h = ground arith

-- A line of the device controller: the type of the node, its numbers, and the permissions.
abbrev pub entry : DeviceStat → Text → Text
entry s perm =
    (if s.is_chr then lit "c" else lit "b")
    ++ (lit " "
        ++ (to_string (pos s.major) ++ (lit ":" ++ (to_string (pos s.minor) ++ (lit " " ++ perm)))))

abbrev pub access_file : Bool → Text
access_file grant = if grant then lit "devices.allow" else lit "devices.deny"

-- The result of a write, with success as the value.
abbrev pub succeed : {W : Type 0} → Outcome (Unit {0}) × W → Outcome Bool × W
succeed (ok u, w) = (ok true, w)
succeed (raised e, w) = (raised e, w)
succeed (crashed, w) = (crashed, w)

continue-true :
    {W : Type 0} (r : Outcome (Unit {0})) (w : W) → continue r (λ _. pure true) w ≡ succeed (r, w)
unfolding pure
continue-true (ok u) w = refl
continue-true (raised e) w = refl
continue-true crashed w = refl

module _ {W : Type 0} (h : LxcApi W) (id device : Text) (grant : Bool) (flags : ℕ) (w w' : W)
    (s : DeviceStat) (found : h.stat device w ≡ (ok s, w')) where
  -- The write that gives or takes the access.
  abbrev pub write : Exec W (Unit {0})
  write =
      h.save_file_content
        (h.create_file_path
          (lit "/sys/fs/cgroup" ∷ lit "devices" ∷ lit "lxc" ∷ id ∷ access_file grant ∷ []))
        (entry s (permissions grant flags))

  -- Giving or taking the access to a path that could be looked up: where it is a character or block device, and the flags
  -- of a grant are those of reading, writing or both, then one line with the type of the node, its numbers and the
  -- permissions goes to the container's file of allowed or denied devices, and the call succeeds if the write does.
  -- Otherwise it fails, and nothing is written.
  pub set_device_access_cases :
      (((s.is_chr || s.is_blk) ≡ true)
        × IsAccess grant flags
        × (set_device_access h id device grant flags w ≡ succeed (write w')))
      ⊎ ((((s.is_chr || s.is_blk) ≡ false) ⊎ ((grant ≡ true) × (3 ≤ flags)))
          × (set_device_access h id device grant flags w ≡ (ok false, w')))
  unfolding set_device_access ◌>>=◌
  set_device_access_cases = elim (Bool-cases (s.is_chr || s.is_blk)) [
    | inr other ↦ inr (inl other, rw (found, other) refl)
    | inl node ↦ elim (IsAccess-cases grant flags) [
      | inl access ↦ inl (
        node,
        access,
        rw
            (
              found,
              node,
              flags_to_permissions-access grant flags access,
              permissions-visible grant flags access,
            )
            (continue-true (write w').0 (write w').1),
      )
      | inr (granted, bad) ↦ inr (
        inr (granted, bad),
        rw (found, node, flags_to_permissions-none grant flags granted bad) refl,
      )
    ]
  ]
