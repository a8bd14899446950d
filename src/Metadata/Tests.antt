-- ===== src/Metadata/Tests.antt =====
-- Metadata at concrete entries, over a transport that keeps what is written through.
use aeus.Common.{Bytes, codes, [], ◌∷◌, ◌=ᵇ◌, false, Option, none, some, ◌≡◌, refl, arith}
use aeus.Common.Dict.{Dict, Distinct, lookup, insert, lookup-insert}
use aeus.Metadata.Defs.{Metadata, canonical, get, set, delete, merge_context}
use aeus.Metadata.Access.{KeepsOthers, get-set_and_delete}
use aeus.Metadata.Merge.{merge_context-lookup}

abbrev value_or_empty : Option Bytes → Bytes
value_or_empty none = []
value_or_empty (some v) = v

-- The reader and the writer of a transport with a map of its own.
abbrev over_map : Metadata (Dict Bytes)
over_map = record {
  tee_reader = some (λ s key. value_or_empty (lookup key s));
  tee_writer = some (λ key v s. insert key v s);
  variables = (codes "a", codes "1") ∷ (codes "b", codes "2") ∷ [];
}

over_map-KeepsOthers : KeepsOthers over_map
over_map-KeepsOthers key v other s e = rw (lookup-insert key other v s, e) refl

abbrev headers : Dict Bytes
headers = (codes "a", codes "cli") ∷ []

get-set_and_delete_example :
    (get
        (set (codes "A") (codes "3") (over_map, headers)).0
        (set (codes "A") (codes "3") (over_map, headers)).1
        (codes "a")
      ≡ some (codes "3"))
    × (get
          (delete (codes "A") (over_map, headers)).0
          (delete (codes "A") (over_map, headers)).1
          (codes "a")
        ≡ none)
unfolding canonical lookup insert ◌=ᵇ◌
get-set_and_delete_example =
    get-set_and_delete over_map (codes "A") (codes "3") (codes "a") headers (omega arith, tt)
      (omega arith, tt) ((refl, tt), (tt, tt)) over_map-KeepsOthers

abbrev patch : Metadata (Dict Bytes)
patch = record {
  tee_reader = none;
  tee_writer = none;
  variables = (codes "b", []) ∷ (codes "c", codes "4") ∷ (codes "a", codes "5") ∷ [];
}

merge_context-lookup_example :
    (lookup (codes "b") (merge_context over_map (some patch) false).variables ≡ none)
    × Distinct (merge_context over_map (some patch) false).variables
    × ((merge_context over_map (some patch) false).tee_reader ≡ none)
unfolding lookup ◌=ᵇ◌
merge_context-lookup_example =
    merge_context-lookup over_map (some patch) false (codes "b") ((refl, tt), (tt, tt))
      ((refl, (refl, tt)), ((refl, tt), (tt, tt)))
