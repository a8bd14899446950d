-- ===== src/Cli/Serialize/Tests.antt =====
-- Values as text, with printers that give fixed texts.
use aeus.Common.{codes, [], ◌∷◌, true, false, length, ok, ◌≡◌, refl, ◌=ᵇ◌}
use aeus.Common.Dict.{insert}
use aeus.Cli.Serialize.Value.{int, string, dict, no_entry, entry, decimal, digits}
use aeus.Cli.Serialize.Table.{
  repeat, larger, print_border, max_length, widen, widths_of, print_row, print_rows, print_body,
  print_array,
}
use aeus.Cli.Serialize.Text.{
  Printer, serialize, serialize_map, can_format, format_entries, print_entries,
}

abbrev printer : Printer Unit Unit Unit
printer = record {
  json = λ v. ok (codes "[]");
  json_map = λ v. ok (codes "{}");
  float_text = λ x. codes "1.5";
  fixed = λ x. codes "1.50";
  sprint = λ v. codes "v";
  string_width = length;
  runes = length;
}

prints_number : serialize printer (int true 120) ≡ ok (codes "-120")
unfolding serialize decimal digits
prints_number = refl

prints_table :
    print_array length ((codes "a" ∷ codes "bcd" ∷ []) ∷ (codes "ef" ∷ []) ∷ [])
    ≡ codes "+---+-----+\n| a | bcd |\n+---+-----+\n| ef |     |\n+---+-----+\n"
unfolding print_array repeat larger print_border max_length widen widths_of print_row print_rows
    print_body
prints_table = refl

prints_map :
    serialize printer (dict (entry (string (codes "k")) (int false 3) no_entry))
    ≡ ok (codes "v     v\n")
unfolding serialize serialize_map can_format format_entries print_entries insert larger repeat ◌=ᵇ◌
prints_map = refl

prints_nothing : serialize printer (dict no_entry) ≡ ok []
unfolding serialize serialize_map can_format format_entries print_entries
prints_nothing = refl
