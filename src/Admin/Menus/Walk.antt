-- ===== src/Admin/Menus/Walk.antt =====
-- `PathTo` of admin/models/menu.go. A query of a component fails where `failing` says so, and the code
-- takes that for a missing row. The loop has fuel, a unit for each turn; Ancestry has how much is enough.
use aeus.Common.{
  ℕ, zero, suc, ◌==◌, Bytes, Bool, List, [], ◌∷◌, if◌then◌else◌, ◌=ᵇ◌, Option, none, some,
}
use aeus.Admin.Permission.Checker.{member}

-- The columns of sys_menus that the walk reads.
pub record MenuRow : Type 0 where
  pub id : ℕ
  pub component : Bytes
  pub parent : Bytes

-- `Where("component = ?", cur).First(&p)`.
unfoldable pub first_row : Bytes → List MenuRow → Option MenuRow
first_row cur [] = none
first_row cur (r ∷ rest) = if r.component =ᵇ cur then some r else first_row cur rest

-- `First(&start, id)`.
unfoldable pub start_row : ℕ → List MenuRow → Option MenuRow
start_row id [] = none
start_row id (r ∷ rest) = if r.id == id then some r else start_row id rest

module _ (rows : List MenuRow) (failing : Bytes → Bool) where
  unfoldable pub find_row : Bytes → Option MenuRow
  find_row cur = if failing cur then none else first_row cur rows

  -- The loop of `PathTo`; none is a loop that is not over.
  unfoldable pub walk : ℕ → List Bytes → Bytes → List Bytes → Option (List Bytes)
  walk zero visited cur path = none
  walk (suc n) visited cur path =
      if cur =ᵇ []
      then some path
      else if member cur visited
      then some path
      else elim (find_row cur) [
        | none ↦ some path
        | some p ↦ walk n (cur ∷ visited) p.parent (p.component ∷ path)
      ]

  -- `PathTo`: the outer none is a missing row, which is an error of the code.
  unfoldable pub path_to : ℕ → ℕ → Option (Option (List Bytes))
  path_to fuel id = elim (start_row id rows) [
    | none ↦ none
    | some start ↦ some (walk fuel (start.component ∷ []) start.parent (start.component ∷ []))
  ]
