-- ===== src/Cli/Serialize/Text.antt =====
-- serializeArray, serializeMap and serialize of transport/cli/serialize.go. `json` stands for
-- `json.MarshalIndent`, and `json_map` for it on a `map[any]any`; `float_text` for
-- `strconv.FormatFloat`; `runes` for `utf8.RuneCountInString`, by which Fprintf pads.
-- The entries of a map stand in the order in which `range` meets them.
use aeus.Common.{
  ℕ, ◌+◌, ◌-◌, Bytes, codes, Bool, true, false, ◌&&◌, List, [], ◌∷◌, ◌++◌, if◌then◌else◌, none,
  some, Result, ok, map, ◌≡◌, refl, arith, Bool-cases, inl, inr,
}
use aeus.Common.Dict.{Dict, insert}
use aeus.Cli.Serialize.Value.{
  Value, int, uint, float, string, bytes, slice, struct, dict, nil, other, Items, item, Entries,
  no_entry, entry, decimal, Row, is_normal_kind, can_tabulate, rows_by_first, build_rows,
}
use aeus.Cli.Serialize.Table.{repeat, larger, to_string, print_array}

-- The library code that prints and measures.
pub record Printer (F J E : Type 0) : Type 0 where
  pub json : Value F J → Result E Bytes
  pub json_map : Entries F J → Result E Bytes
  pub float_text : F → Bytes
  pub fixed : F → Bytes
  pub sprint : Value F J → Bytes
  pub string_width : Bytes → ℕ
  pub runes : Bytes → ℕ

module _ {F J E : Type 0} (P : Printer F J E) where
  -- The cells of the rows as text.
  abbrev pub row_text : Row F J → List Bytes
  row_text row = map (to_string P.fixed P.sprint) row

  -- `serializeArray`.
  unfoldable pub serialize_array : Items F J → Result E Bytes
  serialize_array val =
      if can_tabulate val
      then elim (build_rows val) [
        | none ↦ P.json (slice true val)
        | some rows ↦ ok (print_array P.string_width (map row_text rows))
      ]
      else P.json (slice true val)

  unfoldable pub can_format : Entries F J → Bool
  can_format no_entry = true
  can_format (entry k v more) = is_normal_kind k && is_normal_kind v && can_format more

  -- The entries as text, one for each text of a key, and the largest width of a key.
  unfoldable pub format_entries : Entries F J → Dict Bytes → ℕ → Dict Bytes × ℕ
  format_entries no_entry ms max_width = (ms, max_width)
  format_entries (entry k v more) ms max_width =
      format_entries more (insert (P.sprint k) (P.sprint v) ms)
        (larger max_width (P.string_width (P.sprint k)))

  unfoldable pub print_entries : ℕ → Dict Bytes → Bytes
  print_entries pad [] = []
  print_entries pad ((k, v) ∷ more) =
      k
      ++ (repeat b' ' (pad - P.runes k)
          ++ (codes " " ++ (v ++ (codes "\n" ++ print_entries pad more))))

  -- `serializeMap`.
  unfoldable pub serialize_map : Entries F J → Result E Bytes
  serialize_map val =
      let formatted = format_entries val [] 0 in
      if can_format val then ok (print_entries (formatted.1 + 4) formatted.0) else P.json_map val

  -- `serialize`. encode answers a nil itself.
  unfoldable pub serialize : Value F J → Result E Bytes
  serialize (int negative n) = ok (decimal negative n)
  serialize (uint n) = ok (decimal false n)
  serialize (float x) = ok (P.float_text x)
  serialize (string s) = ok s
  serialize (bytes s) = ok s
  serialize (slice _ val) = serialize_array val
  serialize (struct fields) = P.json (struct fields)
  serialize (dict val) = serialize_map val
  serialize nil = P.json nil
  serialize (other x) = P.json (other x)

  rows_by_first-normal :
      (v : Value F J) (val : Items F J) → is_normal_kind v ≡ true → rows_by_first v val ≡ none
  rows_by_first-normal (slice _ _) val h = cc
  rows_by_first-normal (bytes _) val h = cc
  rows_by_first-normal (struct _) val h = cc
  rows_by_first-normal _ val h = refl

  -- The values of a list that has any: no list is drawn as a table, since canTabulate lets through
  -- only lists of numbers and strings, and buildRows makes rows only of slices and structs.
  pub serialize-list :
      (of_interfaces : Bool) (v : Value F J) (more : Items F J)
      → serialize (slice of_interfaces (item v more)) ≡ P.json (slice true (item v more))
  unfolding serialize serialize_array can_tabulate build_rows
  serialize-list of_interfaces v more = elim (Bool-cases (is_normal_kind v)) [
    | inl h ↦ ground (arith, h, rows_by_first-normal v (item v more) h)
    | inr h ↦ ground (arith, h)
  ]
