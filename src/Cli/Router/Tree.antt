-- ===== src/Cli/Router/Tree.antt =====
-- `Router` of transport/cli/router.go, with getChildren, Handle, Lookup and Completer. A command is
-- left abstract; a node with no handler has none. Handle changes the tree in place: here it gives the
-- tree that it leaves. It takes fuel, and `none` is the lack of it.
use aeus.Common.{
  ℕ, zero, suc, ◌-◌, Bytes, codes, Bool, ◌&&◌, List, [], ◌∷◌, ◌++◌, ltb, ◌==◌, if◌then◌else◌, ◌=ᵇ◌,
  byte_is, Option, none, some, Result, ok, err, length, take,
}

mutual
  pub data Router (C : Type 0) : Type 0 where
    router :
        (name : Bytes) (path : List Bytes) (children : Children C) (command : Option C)
        (params : List Bytes)
        → Router C

  pub data Children (C : Type 0) : Type 0 where
    no_child : Children C
    child : Router C → Children C → Children C

pub data HandleError : Type 0 where
  handle_registered : List Bytes → HandleError

pub data LookupError : Type 0 where
  not_found : LookupError

abbrev pub slash : ℕ
slash = b'/'

abbrev pub colon : ℕ
colon = b':'

module _ {C : Type 0} where
  abbrev pub name_of : Router C → Bytes
  name_of (router name path children command params) = name

  abbrev pub path_of : Router C → List Bytes
  path_of (router name path children command params) = path

  abbrev pub children_of : Router C → Children C
  children_of (router name path children command params) = children

  abbrev pub command_of : Router C → Option C
  command_of (router name path children command params) = command

  abbrev pub with_children : Router C → Children C → Router C
  with_children (router name path _ command params) children =
      router name path children command params

  abbrev pub with_command : Router C → C → List Bytes → Router C
  with_command (router name path children _ params) c more =
      router name path children (some c) (params ++ more)

  -- `newRouter`, with its path.
  abbrev pub new_router : Bytes → List Bytes → Router C
  new_router name path = router name path no_child none []

  -- `getChildren`.
  unfoldable pub get_children : Children C → Bytes → Option (Router C)
  get_children no_child name = none
  get_children (child r rest) name = if name_of r =ᵇ name then some r else get_children rest name

  -- The children after a change to the first of that name, or with a new one at the end.
  unfoldable pub put_child : Children C → Bytes → Router C → Children C
  put_child no_child name r = child r no_child
  put_child (child r' rest) name r =
      if name_of r' =ᵇ name then child r rest else child r' (put_child rest name r)

-- `strings.CutSuffix(path, "/")`.
unfoldable pub cut_last_slash : Bytes → Bytes
cut_last_slash path =
    if ltb 0 (length path) && byte_is path (length path - 1) slash
    then take (length path - 1) path
    else path

-- `strings.CutPrefix(path, "/")`.
unfoldable pub cut_first_slash : Bytes → Bytes
cut_first_slash [] = []
cut_first_slash (b ∷ path) = if b == slash then path else b ∷ path

-- The text before the first slash, and from it on.
unfoldable pub split_name : Bytes → Bytes × Bytes
split_name [] = ([], [])
split_name (b ∷ path) =
    if b == slash then ([], b ∷ path) else (b ∷ (split_name path).0, (split_name path).1)

-- `strings.Split(path, "/")`.
unfoldable pub split_slash : Bytes → List Bytes
split_slash [] = [] ∷ []
split_slash (b ∷ path) = elim (split_slash path) [
  | [] ↦ (b ∷ []) ∷ []
  | (s ∷ more) ↦ if b == slash then [] ∷ s ∷ more else (b ∷ s) ∷ more
]

-- `strings.TrimPrefix(s, ":")` of each.
abbrev pub trim_colon : Bytes → Bytes
trim_colon [] = []
trim_colon (b ∷ s) = if b == colon then s else b ∷ s

abbrev pub params_of : List Bytes → List Bytes
params_of [] = []
params_of (s ∷ more) = trim_colon s ∷ params_of more

abbrev pub is_param : Bytes → Bool
is_param path = byte_is path 0 colon

abbrev pub child_name : Bytes → Bytes
child_name name = if name =ᵇ codes "-" then codes "app" else name

-- What Handle gives: the error, if any, and the tree.
abbrev pub Reply : Type 0 → Type 0
Reply C = Option (Option HandleError × Router C)

module _ {C : Type 0} where
  -- The child of that name, or a new one.
  unfoldable pub child_at : Router C → Bytes → Router C
  child_at r name = elim (get_children (children_of r) name) [
    | some r' ↦ r'
    | none ↦ new_router name (path_of r ++ name ∷ [])
  ]

  -- The answer for a child, and the tree with the child that it leaves.
  abbrev pub put_reply : Router C → Bytes → Reply C → Reply C
  put_reply r name none = none
  put_reply r name (some (e, r')) = some (e, with_children r (put_child (children_of r) name r'))

  -- `Handle`.
  unfoldable pub handle : ℕ → Router C → Bytes → C → Reply C
  handle zero r path c = none
  handle (suc n) r path c =
      let stripped = cut_first_slash (cut_last_slash path) in
      let name = child_name (split_name stripped).0 in
      let inner = handle n (child_at r name) (split_name stripped).1 c in
      if stripped =ᵇ []
      then some (none, with_command r c [])
      else if is_param stripped
      then some (none, with_command r c (params_of (split_slash stripped)))
      else elim (command_of (child_at r name)) [
        | some _ ↦ some (some (handle_registered (path_of (child_at r name))), r)
        | none ↦ put_reply r name inner
      ]

  -- `Lookup`: the node and the arguments.
  unfoldable pub lookup_self : Router C → List Bytes → Result LookupError (Router C × List Bytes)
  lookup_self r tokens = elim (command_of r) [ none ↦ err not_found | some _ ↦ ok (r, tokens) ]

  unfoldable pub lookup : Router C → List Bytes → Result LookupError (Router C × List Bytes)
  lookup r [] = lookup_self r []
  lookup r (token ∷ tokens) = elim (get_children (children_of r) token) [
    | some r' ↦ lookup r' tokens
    | none ↦ lookup_self r (token ∷ tokens)
  ]
