-- ===== src/Server/Manager/VirtualTerminals.antt =====
-- The virtual terminal of a new zone (getVTForNewZone of server/zones-manager.cpp): the smallest configured one
-- that no zone uses.
pub mod Choice
use vasum.Prelude.{Bool, true, false, List, [], ◌∷◌, Option, none, some, not, if◌then◌else◌}
use vasum.Prelude.Int.{ℤ, pos, negsuc, eq_ℤ, ltb_ℤ}
use vasum.Prelude.Exec.{Outcome, ok, raised, zone_operation}
use vasum.Server.Zone.{Zone}

-- std::set<int>: in order, with no number twice.
pub insert : ℤ → List ℤ → List ℤ
insert a [] = a ∷ []
insert a (b ∷ bs) = elim (ltb_ℤ a b) [
  | true ↦ a ∷ b ∷ bs
  | false ↦ if eq_ℤ a b then b ∷ bs else b ∷ insert a bs
]

pub to_set : List ℤ → List ℤ
unfolding insert
to_set [] = []
to_set (a ∷ as') = insert a (to_set as')

pub erase : ℤ → List ℤ → List ℤ
erase a [] = []
erase a (b ∷ bs) = if eq_ℤ a b then bs else b ∷ erase a bs

-- Excludes the terminals of the zones, one after the other.
pub erase_used : List Zone → List ℤ → List ℤ
unfolding erase
erase_used [] candidates = candidates
erase_used (z ∷ zs) candidates = erase_used zs (erase z.dynamic.vt candidates)

abbrev smallest : List ℤ → Outcome ℤ
smallest [] = raised zone_operation
smallest (a ∷ as') = ok a

pub get_vt_for_new_zone : List ℤ → List Zone → Outcome ℤ
unfolding to_set erase_used
get_vt_for_new_zone [] zones = ok (negsuc 0)
get_vt_for_new_zone (a ∷ available) zones = smallest (erase_used zones (to_set (a ∷ available)))
