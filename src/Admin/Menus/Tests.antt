-- ===== src/Admin/Menus/Tests.antt =====
-- The walk at concrete rows.
use aeus.Common.{Bytes, codes, Bool, false, List, [], ◌∷◌, ◌=ᵇ◌, some, ◌≡◌, refl, arith}
use aeus.Admin.Permission.Checker.{member}
use aeus.Admin.Menus.Walk.{MenuRow, first_row, find_row, walk, start_row, path_to}
use aeus.Admin.Menus.Ancestry.{Ancestry, path_to-Ancestry}

abbrev menus : List MenuRow
menus =
    record { id = 1; component = codes "System"; parent = [] }
    ∷ record { id = 2; component = codes "Users"; parent = codes "System" }
    ∷ record { id = 3; component = codes "A"; parent = codes "B" }
    ∷ record { id = 4; component = codes "B"; parent = codes "A" }
    ∷ []

abbrev never : Bytes → Bool
never c = false

walks_up : path_to menus never 5 2 ≡ some (some (codes "System" ∷ codes "Users" ∷ []))
unfolding path_to walk find_row first_row start_row member ◌=ᵇ◌
walks_up = refl

-- A cycle of parents is gone round once.
stops_on_cycle : path_to menus never 5 3 ≡ some (some (codes "B" ∷ codes "A" ∷ []))
unfolding path_to walk find_row first_row start_row member ◌=ᵇ◌
stops_on_cycle = refl

found_third :
    start_row 3 menus ≡ some (record { id = 3; component = codes "A"; parent = codes "B" })
unfolding start_row
found_third = refl

path_to-Ancestry_example :
    (result : List Bytes) × (path_to menus never 5 3 ≡ some (some result))
    × Ancestry menus never (codes "A" ∷ []) result
path_to-Ancestry_example =
    path_to-Ancestry menus never 3 5 (record { id = 3; component = codes "A"; parent = codes "B" })
      found_third (omega arith)
