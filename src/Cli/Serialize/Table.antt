-- ===== src/Cli/Serialize/Table.antt =====
-- printArray of transport/cli/serialize.go, which draws rows as a table. `string_width` stands for
-- `runewidth.StringWidth`, `fixed` for `fmt.Sprintf("%.2f", t)` and `sprint` for `fmt.Sprint`; a time,
-- which toString prints in a layout of its own, is one of the abstract values that `sprint` prints.
use aeus.Common.{
  ℕ, zero, suc, ◌+◌, ◌-◌, Bytes, codes, List, [], ◌∷◌, ◌++◌, ltb, if◌then◌else◌, length,
}
use aeus.Cli.Serialize.Value.{Value, float}

-- `strings.Repeat` of one byte.
unfoldable pub repeat : ℕ → ℕ → Bytes
repeat b zero = []
repeat b (suc n) = b ∷ repeat b n

unfoldable pub larger : ℕ → ℕ → ℕ
larger a b = if ltb a b then b else a

-- `printBorder`.
unfoldable pub print_border : List ℕ → Bytes
print_border [] = codes "+\n"
print_border (l ∷ ws) = codes "+" ++ (repeat b'-' (l + 2) ++ print_border ws)

module _ {F J : Type 0} (fixed : F → Bytes) (sprint : Value F J → Bytes) where
  -- `toString`.
  abbrev pub to_string : Value F J → Bytes
  to_string (float x) = fixed x
  to_string v = sprint v

module _ (string_width : Bytes → ℕ) where
  -- The length of the longest row.
  unfoldable pub max_length : List (List Bytes) → ℕ
  max_length [] = 0
  max_length (row ∷ rows) = larger (length row) (max_length rows)

  -- The widths after a row's cells.
  unfoldable pub widen : List ℕ → List Bytes → List ℕ
  widen ws [] = ws
  widen [] (cell ∷ row) = []
  widen (w ∷ ws) (cell ∷ row) = larger w (string_width cell) ∷ widen ws row

  -- A row of a single cell does not count.
  unfoldable pub widths_of : List ℕ → List (List Bytes) → List ℕ
  widths_of ws [] = ws
  widths_of ws (row ∷ rows) = widths_of (if ltb 1 (length row) then widen ws row else ws) rows

  -- One cell, padded to its column.
  abbrev pub print_cell : ℕ → Bytes → Bytes
  print_cell w cell = codes "| " ++ (cell ++ (repeat b' ' (w - string_width cell) ++ codes " "))

  -- A row, with empty cells where it is shorter than the table.
  unfoldable pub print_row : List ℕ → List Bytes → Bytes
  print_row [] row = codes "|\n"
  print_row (w ∷ ws) [] = print_cell w [] ++ print_row ws []
  print_row (w ∷ ws) (cell ∷ row) = print_cell w cell ++ print_row ws row

  unfoldable pub print_rows : List ℕ → List (List Bytes) → Bytes
  print_rows ws [] = []
  print_rows ws (row ∷ rows) = print_row ws row ++ print_rows ws rows

  -- A border stands after the first row.
  unfoldable pub print_body : List ℕ → List (List Bytes) → Bytes
  print_body ws [] = []
  print_body ws (row ∷ rows) = print_row ws row ++ (print_border ws ++ print_rows ws rows)

  abbrev pub zeros : ℕ → List ℕ
  zeros zero = []
  zeros (suc n) = 0 ∷ zeros n

  -- `printArray`, of the cells as text.
  unfoldable pub print_array : List (List Bytes) → Bytes
  print_array rows =
      let ws = widths_of (zeros (max_length rows)) rows in
      print_border ws ++ (print_body ws rows ++ print_border ws)
