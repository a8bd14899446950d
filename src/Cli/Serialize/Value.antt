-- ===== src/Cli/Serialize/Value.antt =====
-- The values that serialize of transport/cli/serialize.go tells apart by reflection, with pointers
-- followed, and the conversion of a list to rows. A float and every other kind of value (a bool, a
-- time, a nil pointer) are left abstract. `nil` is the nil interface, which only occurs inside a list.
use aeus.Common.{
  ℕ, upper, zero, suc, ◌+◌, ◌/◌, ◌%◌, Bytes, codes, Bool, true, false, not, ◌&&◌, List, [], ◌∷◌,
  ◌++◌, ltb, ◌==◌, if◌then◌else◌, ◌=ᵇ◌, any, map, Option, none, some,
}

mutual
  pub data Value (F J : Type 0) : Type 0 where
    int : (negative : Bool) → (magnitude : ℕ) → Value F J
    uint : ℕ → Value F J
    float : F → Value F J
    string bytes : Bytes → Value F J
    slice : (of_interfaces : Bool) → Items F J → Value F J
    struct : Fields F J → Value F J
    dict : Entries F J → Value F J
    nil : Value F J
    other : J → Value F J

  pub data Items (F J : Type 0) : Type 0 where
    no_item : Items F J
    item : Value F J → Items F J → Items F J

  -- A field: whether it is exported, its name, and its tag `kos` if it has one.
  pub data Fields (F J : Type 0) : Type 0 where
    no_field : Fields F J
    field :
        (exported : Bool) (name : Bytes) (tag : Option Bytes) → Value F J → Fields F J → Fields F J

  pub data Entries (F J : Type 0) : Type 0 where
    no_entry : Entries F J
    entry : Value F J → Value F J → Entries F J → Entries F J

-- The digits of a number below 10 to the power `n`.
unfoldable pub digits : ℕ → ℕ → Bytes
digits zero x = []
digits (suc n) x =
    let front = digits n (x / 10) in
    if ltb x 10 then (48 + x) ∷ [] else front ++ ((48 + x % 10) ∷ [])

-- `strconv.FormatInt` in base 10, of a number of at most 64 bits.
unfoldable pub decimal : Bool → ℕ → Bytes
decimal negative x = if negative then b'-' ∷ digits 20 x else digits 20 x

-- The heading of a column, if the field has one.
abbrev pub column_name : Bool → Bytes → Option Bytes → Option Bytes
column_name false name tag = none
column_name true name none = some (upper name)
column_name true name (some t) = if t =ᵇ codes "-" then none else some t

-- A row of cells.
abbrev pub Row : Type 0 → Type 0 → Type 0
Row F J = List (Value F J)

module _ {F J : Type 0} where
  -- `isNormalKind`.
  abbrev pub is_normal_kind : Value F J → Bool
  is_normal_kind (int _ _) = true
  is_normal_kind (uint _) = true
  is_normal_kind (float _) = true
  is_normal_kind (string _) = true
  is_normal_kind _ = false

  abbrev pub is_nil : Value F J → Bool
  is_nil nil = true
  is_nil _ = false

  -- `canTabulate`.
  unfoldable pub can_tabulate : Items F J → Bool
  can_tabulate no_item = true
  can_tabulate (item v more) = is_normal_kind v && can_tabulate more

  -- The cells of a slice, unless one of them cannot be printed; a cell of a slice of interfaces is
  -- an interface to `Kind`, whatever it holds.
  unfoldable pub slice_row : Bool → Items F J → Option (Row F J)
  slice_row of_interfaces no_item = some []
  slice_row of_interfaces (item v more) =
      if not (not of_interfaces && is_normal_kind v) && not (is_nil v)
      then none
      else elim (slice_row of_interfaces more) [ none ↦ none | some row ↦ some (v ∷ row) ]

  abbrev pub slice_cells : Value F J → Option (Row F J)
  slice_cells (slice of_interfaces cells) = slice_row of_interfaces cells
  slice_cells (bytes s) = some (map uint s)
  slice_cells _ = none

  -- `buildRowsFromSlices`.
  unfoldable pub build_rows_from_slices : Items F J → Option (List (Row F J))
  build_rows_from_slices no_item = some []
  build_rows_from_slices (item v more) = elim (slice_cells v) [
    | none ↦ none
    | some row ↦ elim (build_rows_from_slices more) [ none ↦ none | some rows ↦ some (row ∷ rows) ]
  ]

  -- The header row, and the indexes of its columns.
  unfoldable pub header_of : ℕ → Fields F J → Row F J × List ℕ
  header_of j no_field = ([], [])
  header_of j (field exported name tag v more) =
      let rest = header_of (suc j) more in
      elim (column_name exported name tag) [
        | none ↦ rest
        | some title ↦ (string title ∷ rest.0, j ∷ rest.1)
      ]

  unfoldable pub struct_row : List ℕ → ℕ → Fields F J → Row F J
  struct_row columns j no_field = []
  struct_row columns j (field exported name tag v more) =
      let rest = struct_row columns (suc j) more in if any (◌==◌ j) columns then v ∷ rest else rest

  abbrev pub struct_fields : Value F J → Option (Fields F J)
  struct_fields (struct fields) = some fields
  struct_fields _ = none

  unfoldable pub struct_rows : List ℕ → Items F J → Option (List (Row F J))
  struct_rows columns no_item = some []
  struct_rows columns (item v more) = elim (struct_fields v) [
    | none ↦ none
    | some fields ↦ elim (struct_rows columns more) [
      | none ↦ none
      | some rows ↦ some (struct_row columns 0 fields ∷ rows)
    ]
  ]

  -- `buildRowsFromStructs`: the header comes from the first value.
  unfoldable pub build_rows_from_structs : Items F J → Option (List (Row F J))
  build_rows_from_structs no_item = some []
  build_rows_from_structs (item v more) = elim (struct_fields v) [
    | none ↦ none
    | some fields ↦ elim (struct_rows (header_of 0 fields).1 (item v more)) [
      | none ↦ none
      | some rows ↦ some ((header_of 0 fields).0 ∷ rows)
    ]
  ]

  -- The kind of the first value chooses.
  abbrev pub rows_by_first : Value F J → Items F J → Option (List (Row F J))
  rows_by_first (slice _ _) val = build_rows_from_slices val
  rows_by_first (bytes _) val = build_rows_from_slices val
  rows_by_first (struct _) val = build_rows_from_structs val
  rows_by_first _ val = none

  -- `buildRows`.
  unfoldable pub build_rows : Items F J → Option (List (Row F J))
  build_rows no_item = some []
  build_rows (item v more) = rows_by_first v (item v more)
