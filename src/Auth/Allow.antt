-- ===== src/Auth/Allow.antt =====
-- `isAllowed` of middleware/auth/jwt.go and `matchPattern` of admin/permission.go.
use aeus.Common.{
  ℕ, ◌-◌, Bytes, codes, Bool, true, false, not, ◌&&◌, List, [], ◌∷◌, ltb, if◌then◌else◌, ◌=ᵇ◌,
  has_prefix, byte_is, length, take,
}

abbrev pub star : ℕ
star = b'*'

abbrev pub slash : ℕ
slash = b'/'

-- The loop of `isAllowed`; `again` is the rest of the loop.
unfoldable pub is_allowed : Bytes → List Bytes → Bool
is_allowed uripath [] = false
is_allowed uripath (pattern ∷ allows) =
    let again = is_allowed uripath allows in
    let n = length pattern in
    let prefix = take (n - 1) pattern in
    if pattern =ᵇ uripath
    then true
    else if pattern =ᵇ codes "*"
    then true
    else if ltb 1 n && byte_is pattern (n - 1) star
    then (if not (has_prefix uripath prefix)
        then again
        else if byte_is prefix (length prefix - 1) slash
        then true
        else if ltb (length prefix) (length uripath) && byte_is uripath (length prefix) slash
        then true
        else again)
    else again

unfoldable pub match_pattern : Bytes → Bytes → Bool
match_pattern pattern path =
    let n = length pattern in
    let prefix = take (n - 1) pattern in
    if pattern =ᵇ path
    then true
    else if pattern =ᵇ codes "*"
    then true
    else if ltb 1 n && byte_is pattern (n - 1) star
    then (if not (has_prefix path prefix)
        then false
        else if byte_is prefix (length prefix - 1) slash
        then true
        else ltb (length prefix) (length path) && byte_is path (length prefix) slash)
    else false
