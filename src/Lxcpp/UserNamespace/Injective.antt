-- ===== src/Lxcpp/UserNamespace/Injective.antt =====
-- When the maps that UserNSConfig builds keep the ids of a container apart on the host, and when they do not
-- (libs/lxcpp/userns-config.cpp).
use vasum.Prelude.{
  ℕ, ◌+◌, ◌-◌, ◌≤◌, ◌<◌, ◌≡◌, ◌⊎◌, inl, inr, true, List, [], ◌∷◌, ◌++◌, All, Any, All-append, arith,
  Bool-cases, any,
}
use mathlib.Core.Path.{subst}
use vasum.Prelude.Exec.{ok}
use vasum.Lxcpp.UserNamespace.{
  IdRange, max_id, is_map_correct, overlaps, add_map, conv_cont_to_host_id,
}
use vasum.Lxcpp.UserNamespace.Ranges.{
  IsRange, MapsTo, StartsOutside, accepted-IsRange, no_overlap, conv_cont_to_host_id_cases,
}

-- No id is in both ranges, on the container's side and on the host's.
pub record Apart (r s : IdRange) : Type 0 where
  pub cont : (r.cont_id + r.num ≤ s.cont_id) ⊎ (s.cont_id + s.num ≤ r.cont_id)
  pub host : (r.host_id + r.num ≤ s.host_id) ⊎ (s.host_id + s.num ≤ r.host_id)

abbrev pub AllApart : List IdRange → Type 0
AllApart [] = Unit
AllApart (r ∷ map) = All (Apart r) map × AllApart map

starts-Apart : (r new : IdRange) → StartsOutside new r → StartsOutside r new → Apart r new
starts-Apart r new (a, b) (c, d) = record {
  cont = ground (arith, split r.cont_id r.num new.cont_id new.num);
  host = ground (arith, split r.host_id r.num new.host_id new.num);
}
  where
    split :
        (x n y m : ℕ)
        → ((x + n ≤ y) ⊎ (y + m ≤ x)) ⊎ ((x ≤ y) × (y < x + n)) ⊎ ((y ≤ x) × (x < y + m))
    split x n y m = ground arith

AllApart-append_one :
    (map : List IdRange) (new : IdRange)
    → AllApart map
    → All (λ r. Apart r new) map
    → AllApart (map ++ new ∷ [])
AllApart-append_one [] new a h = (tt, tt)
AllApart-append_one (r ∷ map) new (here, rest) (h, hs) =
    (All-append (Apart r) map (new ∷ []) here (h, tt), AllApart-append_one map new rest hs)

All-starts-Apart :
    (map : List IdRange) (new : IdRange)
    → All (StartsOutside new) map
    → All (λ r. StartsOutside r new) map
    → All (λ r. Apart r new) map
All-starts-Apart [] new a b = tt
All-starts-Apart (r ∷ map) new (a, as') (b, bs) =
    (starts-Apart r new a b, All-starts-Apart map new as' bs)

accepted_cases :
    (map : List IdRange) (new : IdRange) {map' : List IdRange}
    → add_map map new ≡ ok map'
    → (is_map_correct map new ≡ true) × (map' ≡ map ++ new ∷ [])
unfolding add_map
accepted_cases map new e = elim (Bool-cases (is_map_correct map new)) [
  | inl yes' ↦ (yes', cc (rw yes' at e))
  | inr no' ↦ cc (rw no' at e)
]

accepted-StartsOutside :
    (map : List IdRange) (new : IdRange)
    → All IsRange map
    → is_map_correct map new ≡ true
    → All (StartsOutside new) map
unfolding is_map_correct
accepted-StartsOutside map new v h =
    no_overlap new map v (elim (Bool-cases (any (overlaps new.cont_id new.host_id) map)) [
      | inl yes' ↦ ground (arith, yes')
      | inr no' ↦ no'
    ])

-- A map of ranges that have an id at least, end at a 32-bit number, and have no id in common, on either side, stays one
-- when a range is added and accepted, provided that the new range is not empty and has none of the starts of the old
-- ones in it, which the code does not check.
pub add_map-AllApart :
    (map : List IdRange) (new : IdRange) (map' : List IdRange)
    → All IsRange map
    → AllApart map
    → 0 < new.num
    → new.num ≤ max_id
    → All (λ r. StartsOutside r new) map
    → add_map map new ≡ ok map'
    → All IsRange map' × AllApart map'
add_map-AllApart map new map' v a some_id fits none_inside e =
    let (correct, eq) = accepted_cases map new e in
    rw eq (
      All-append IsRange map (new ∷ []) v (accepted-IsRange map new some_id fits correct, tt),
      AllApart-append_one map new a
          (All-starts-Apart map new (accepted-StartsOutside map new v correct) none_inside),
    )

Apart-same :
    (r : IdRange) (map : List IdRange) (a b h : ℕ)
    → All (Apart r) map
    → MapsTo a h r
    → Any (MapsTo b h) map
    → a ≡ b
Apart-same r [] a b h aps m n = elim n [ ]
Apart-same r (s ∷ map) a b h (ap', aps) m (inl n) = ground (arith, ap'.host)
Apart-same r (s ∷ map) a b h (ap', aps) m (inr n) = Apart-same r map a b h aps m n

any_same :
    (map : List IdRange) (a b h : ℕ)
    → AllApart map
    → Any (MapsTo a h) map
    → Any (MapsTo b h) map
    → a ≡ b
any_same [] a b h p m n = elim m [ ]
any_same (r ∷ map) a b h (here, rest) (inl m) (inl n) = omega arith
any_same (r ∷ map) a b h (here, rest) (inl m) (inr n) = Apart-same r map a b h here m n
any_same (r ∷ map) a b h (here, rest) (inr m) (inl n) =
    omega (arith, Apart-same r map b a h here n m)
any_same (r ∷ map) a b h (here, rest) (inr m) (inr n) = any_same map a b h rest m n

mapped :
    (r : IdRange) (map : List IdRange) (c h : ℕ)
    → All IsRange (r ∷ map)
    → conv_cont_to_host_id (r ∷ map) c ≡ ok h
    → Any (MapsTo c h) (r ∷ map)
mapped r map c h v e = elim (conv_cont_to_host_id_cases (r ∷ map) c v) [
  | inl (empty, e') ↦ cc empty
  | inr (inl (h', e', m)) ↦
      let same : h' ≡ h = cc (e, e') in subst (λ k. Any (MapsTo c k) (r ∷ map)) same m
  | inr (inr (e', m)) ↦ cc (e, e')
]

-- Where the ranges have an id at least, end at a 32-bit number, and have no id in common, two ids of the container that
-- go to one id of the host are the same.
pub conv_cont_to_host_id_injective :
    (map : List IdRange) (a b h : ℕ)
    → All IsRange map
    → AllApart map
    → conv_cont_to_host_id map a ≡ ok h
    → conv_cont_to_host_id map b ≡ ok h
    → a ≡ b
conv_cont_to_host_id_injective [] a b h v p ea eb = unfold conv_cont_to_host_id in cc (ea, eb)
conv_cont_to_host_id_injective (r ∷ map) a b h v p ea eb =
    any_same (r ∷ map) a b h p (mapped r map a h v ea) (mapped r map b h v eb)

-- Of ranges that end at a 32-bit number: one whose host side begins below that of the only mapped range and reaches over
-- it is accepted, if its container side is above; two ids of the container are then the same id of the host.
pub add_map_shares :
    (r new : IdRange)
    → IsRange r
    → IsRange new
    → new.host_id < r.host_id
    → r.host_id < new.host_id + new.num
    → r.cont_id + r.num ≤ new.cont_id
    → (add_map (r ∷ []) new ≡ ok (r ∷ new ∷ []))
      × (conv_cont_to_host_id (r ∷ new ∷ []) r.cont_id ≡ ok r.host_id)
      × (conv_cont_to_host_id (r ∷ new ∷ []) (new.cont_id + (r.host_id - new.host_id))
          ≡ ok r.host_id)
unfolding add_map conv_cont_to_host_id
add_map_shares r new v w below above apart = (
  ground (arith, v.cont_end, v.host_end, w.cont_end, w.host_end),
  ground (arith, v.cont_end, v.host_end, v.some_id),
  ground (arith, v.cont_end, v.host_end, w.cont_end, w.host_end, v.some_id),
)
