-- ===== src/Cli/Router/Complete.antt =====
-- `Completer` and `Usage` of transport/cli/router.go, and what Completer offers below a node.
use aeus.Common.{
  Bytes, codes, Bool, true, List, [], ◌∷◌, ◌++◌, if◌then◌else◌, has_prefix, ltb, length, Option,
  none, some, ◌≡◌, inl, inr, arith, Option-cases,
}
use aeus.Cli.Router.Tree.{
  Router, router, Children, no_child, child, name_of, path_of, children_of, get_children,
}

-- `strings.Join`.
unfoldable pub join : Bytes → List Bytes → Bytes
join separator [] = []
join separator (s ∷ []) = s
join separator (s ∷ t ∷ more) = s ++ separator ++ join separator (t ∷ more)

abbrev pub shown_params : List Bytes → Bytes
shown_params [] = []
shown_params (s ∷ more) = codes " {" ++ s ++ codes "}" ++ shown_params more

module _ {C : Type 0} where
  -- The paths of the children whose names pass a test.
  unfoldable pub child_paths : (Bytes → Bool) → Children C → List Bytes
  child_paths p no_child = []
  child_paths p (child r rest) =
      if p (name_of r)
      then join (codes " ") (path_of r) ∷ child_paths p rest
      else child_paths p rest

  -- `Completer`.
  unfoldable pub completer : Router C → List Bytes → List Bytes
  completer r [] = child_paths (λ name. true) (children_of r)
  completer r (token ∷ tokens) = elim (get_children (children_of r) token) [
    | none ↦ child_paths (λ name. has_prefix name token) (children_of r)
    | some r' ↦ completer r' tokens
  ]

  abbrev pub params_shown : Router C → Bytes
  params_shown (router name path children command params) = shown_params params

  -- `Usage`.
  unfoldable pub usage : Router C → Bytes
  usage r =
      if ltb 0 (length (path_of r))
      then codes "Usage: " ++ join (codes " ") (path_of r) ++ params_shown r
      else []

  -- The node that a list of names leads to.
  unfoldable pub walk : Router C → List Bytes → Option (Router C)
  walk r [] = some r
  walk r (name ∷ names) = elim (get_children (children_of r) name) [
    | none ↦ none
    | some r' ↦ walk r' names
  ]

  -- Where some tokens lead to a node, Completer offers for them all children of it, and for one more
  -- token that names none of them the children whose names start with that token; what follows such
  -- a token does not count.
  pub completer-walk :
      (r s : Router C) (names more : List Bytes) (token : Bytes)
      → walk r names ≡ some s
      → get_children (children_of s) token ≡ none
      → (completer r names ≡ child_paths (λ name. true) (children_of s))
        × (completer r (names ++ token ∷ more)
            ≡ child_paths (λ name. has_prefix name token) (children_of s))
  unfolding walk completer
  completer-walk r s [] more token w h = (ground (arith, w), ground (arith, w, h))
  completer-walk r s (name ∷ names) more token w h =
      elim (Option-cases (get_children (children_of r) name)) [
        | inl p ↦ absurd (lost p)
        | inr (r', p) ↦
            let (all, some_of) = completer-walk r' s names more token (led r' p) h in
            (ground (arith, p, all), ground (arith, p, some_of))
      ]
    where
      lost : get_children (children_of r) name ≡ none → ⊥
      lost p = ground (arith, p, w)

      led : (r' : Router C) → get_children (children_of r) name ≡ some r' → walk r' names ≡ some s
      led r' p = ground (arith, p, w)
