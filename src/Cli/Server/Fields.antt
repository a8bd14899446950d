-- ===== src/Cli/Server/Fields.antt =====
-- `strings.Fields`, which cuts a command line of transport/cli/server.go into its words.
use aeus.Common.{
  ℕ, zero, suc, ◌-◌, Bytes, codes, ◌&&◌, ◌||◌, List, [], ◌∷◌, ◌++◌, leb, ◌==◌, if◌then◌else◌, All,
  append-nil, append_assoc, ◌<◌, ◌≡◌, ◌≢◌, refl, ap, sym, ◌∙◌, arith,
}
use aeus.Cli.Router.Complete.{join}

-- The number of bytes of the white space that a text starts with, as UTF-8, and 0 for none.
unfoldable pub space_length : Bytes → ℕ
space_length [] = 0
space_length (b ∷ []) = if b == 32 || leb 9 b && leb b 13 then 1 else 0
space_length (b ∷ c ∷ []) =
    if b == 32 || leb 9 b && leb b 13
    then 1
    else if b == 194 && (c == 133 || c == 160)
    then 2
    else 0
space_length (b ∷ c ∷ d ∷ s) =
    if b == 32 || leb 9 b && leb b 13
    then 1
    else if b == 194 && (c == 133 || c == 160)
    then 2
    else if b == 225 && c == 154 && d == 128
        || b == 226 && c == 128 && (leb 128 d && leb d 138 || d == 168 || d == 169 || d == 175)
        || b == 226 && c == 129 && d == 159
        || b == 227 && c == 128 && d == 128
    then 3
    else 0

-- A word, if there is one, and the words after it.
abbrev pub word_list : Bytes × List Bytes → List Bytes
word_list ([], words) = words
word_list (b ∷ word, words) = (b ∷ word) ∷ words

-- The word that a text starts with and the words after it; the first number is that of the bytes of
-- a white space that are still to be skipped.
unfoldable pub scan : ℕ → Bytes → Bytes × List Bytes
scan skip [] = ([], [])
scan (suc skip) (b ∷ s) = scan skip s
scan zero (b ∷ s) =
    let more = scan 0 s in
    let after = scan (space_length (b ∷ s) - 1) s in
    if space_length (b ∷ s) == 0 then (b ∷ more.0, more.1) else ([], word_list after)

-- `strings.Fields`.
unfoldable pub fields : Bytes → List Bytes
fields s = word_list (scan 0 s)

-- A byte that is a printed character of ASCII.
abbrev pub IsGraphic : ℕ → Type 0
IsGraphic b = (32 < b) × (b < 127)

-- A word is not empty, and all of it is printed characters of ASCII.
abbrev pub IsWord : Bytes → Type 0
IsWord w = (w ≢ []) × All IsGraphic w

space_length-graphic : (b : ℕ) (s : Bytes) → IsGraphic b → space_length (b ∷ s) ≡ 0
unfolding space_length
space_length-graphic b [] (h, k) = ground (arith, h, k)
space_length-graphic b (c ∷ []) (h, k) = ground (arith, h, k)
space_length-graphic b (c ∷ d ∷ s) (h, k) = ground (arith, h, k)

space_length-space : (s : Bytes) → space_length (32 ∷ s) ≡ 1
unfolding space_length
space_length-space [] = refl
space_length-space (c ∷ []) = refl
space_length-space (c ∷ d ∷ s) = refl

scan-word : (w s : Bytes) → All IsGraphic w → scan 0 (w ++ s) ≡ (w ++ (scan 0 s).0, (scan 0 s).1)
unfolding scan
scan-word [] s h = refl
scan-word (b ∷ w) s (g, h) = rw (space_length-graphic b (w ++ s) g, scan-word w s h) refl

scan-space : (s : Bytes) → scan 0 (32 ∷ s) ≡ ([], fields s)
unfolding scan fields
scan-space s = rw (space_length-space s) refl

word_list-word : (w : Bytes) (words : List Bytes) → w ≢ [] → word_list (w, words) ≡ w ∷ words
word_list-word [] words h = absurd (h refl)
word_list-word (b ∷ w) words h = refl

-- Words that are joined by spaces are the fields of the text.
pub fields-join : (words : List Bytes) → All IsWord words → fields (join (codes " ") words) ≡ words
unfolding fields join scan
fields-join [] h = refl
fields-join (w ∷ []) ((some_byte, g), h) =
    ap fields (sym (append-nil w))
    ∙ ap word_list (scan-word w [] g)
    ∙ ap (λ (z : Bytes). word_list (z, [])) (append-nil w)
    ∙ word_list-word w [] some_byte
fields-join (w ∷ v ∷ words) ((some_byte, g), h) =
    ap fields (append_assoc w (codes " ") (join (codes " ") (v ∷ words)))
    ∙ ap word_list (scan-word w (codes " " ++ join (codes " ") (v ∷ words)) g)
    ∙ ap (λ (z : Bytes × List Bytes). word_list (w ++ z.0, z.1))
        (scan-space (join (codes " ") (v ∷ words)))
    ∙ ap (λ (z : Bytes). word_list (z, fields (join (codes " ") (v ∷ words)))) (append-nil w)
    ∙ word_list-word w (fields (join (codes " ") (v ∷ words))) some_byte
    ∙ ap (◌∷◌ w) (fields-join (v ∷ words) h)
