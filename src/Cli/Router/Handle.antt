-- ===== src/Cli/Router/Handle.antt =====
-- That Handle of transport/cli/router.go ends, and what it leaves when it fails.
use aeus.Common.{
  ℕ, zero, suc, ◌-◌, ◌<◌, ◌≤◌, Bytes, false, List, [], ◌∷◌, ◌++◌, ◌=ᵇ◌, none, some, length,
  length-take, ◌≡◌, ◌≢◌, refl, ap, subst, ◌∙◌, ◌⊎◌, inl, inr, arith, Bool-cases, Option-cases,
}
use aeus.Cli.Router.Tree.{
  Router, router, Children, no_child, child, HandleError, name_of, path_of, children_of, command_of,
  with_children, new_router, get_children, put_child, cut_last_slash, cut_first_slash, split_name,
  is_param, child_name, Reply, child_at, put_reply, handle,
}

-- The path without a slash at its ends, the name of the first child on it, and the rest.
abbrev pub stripped : Bytes → Bytes
stripped path = cut_first_slash (cut_last_slash path)

abbrev pub first_name : Bytes → Bytes
first_name path = child_name (split_name (stripped path)).0

abbrev pub path_rest : Bytes → Bytes
path_rest path = (split_name (stripped path)).1

length-cut_last_slash : (path : Bytes) → length (cut_last_slash path) ≤ length path
unfolding cut_last_slash
length-cut_last_slash path = ground (arith, length-take (length path - 1) path)

-- The rest of the path is shorter than the path.
length-split_name : (path : Bytes) → length (split_name path).1 ≤ length path
unfolding split_name
length-split_name [] = omega arith
length-split_name (b ∷ path) = ground (arith, length-split_name path)

shorter :
    (path : Bytes)
    → (cut_first_slash path =ᵇ []) ≡ false
    → length (split_name (cut_first_slash path)).1 < length path
unfolding cut_first_slash split_name ◌=ᵇ◌
shorter [] h = cc
shorter (b ∷ path) h = ground (arith, length-split_name path)

module _ {C : Type 0} where
  put_reply-some :
      (r : Router C) (name : Bytes) (a : Reply C) → a ≢ none → put_reply r name a ≢ none
  put_reply-some r name none h e = h refl
  put_reply-some r name (some (e, r')) h k = cc

  -- Handle ends with an answer on any fuel above the length of the path.
  pub handle-ends :
      (n : ℕ) (r : Router C) (path : Bytes) (c : C) → length path < n → handle n r path c ≢ none
  unfolding handle
  handle-ends zero r path c h k = absurd (omega (arith, h))
  handle-ends (suc n) r path c h k = elim (Bool-cases (stripped path =ᵇ [])) [
    | inl e ↦ ground (arith, e, k)
    | inr e ↦ elim (Bool-cases (is_param (stripped path))) [
      | inl p ↦ ground (arith, e, p, k)
      | inr p ↦ elim (Option-cases (command_of (child_at r (first_name path)))) [
        | inr (d, q) ↦ ground (arith, e, p, q, k)
        | inl q ↦
            put_reply-some r (first_name path)
              (handle n (child_at r (first_name path)) (path_rest path) c)
              (handle-ends n (child_at r (first_name path)) (path_rest path) c
                (omega (arith, h, length-cut_last_slash path, shorter (cut_last_slash path) e)))
              (ground (arith, e, p, q, k))
      ]
    ]
  ]

  put_child-get_children :
      (cs : Children C) (name : Bytes) (r : Router C)
      → get_children cs name ≡ some r
      → put_child cs name r ≡ cs
  unfolding get_children put_child
  put_child-get_children no_child name r h = cc
  put_child-get_children (child r' cs) name r h = elim (Bool-cases (name_of r' =ᵇ name)) [
    | inl e ↦ ground (arith, e, h)
    | inr e ↦ ground (arith, e, put_child-get_children cs name r (ground (arith, e, h)))
  ]

  with_children_self : (r : Router C) → with_children r (children_of r) ≡ r
  with_children_self (router name path children command params) = refl

  put_reply-failed :
      (r : Router C) (name : Bytes) (a : Reply C) (e : HandleError) (r' : Router C)
      → put_reply r name a ≡ some (some e, r')
      → (s : Router C) × (a ≡ some (some e, s))
        × (r' ≡ with_children r (put_child (children_of r) name s))
  put_reply-failed r name none e r' h = cc
  put_reply-failed r name (some (e', s)) e r' h = (s, ground (arith, h), ground (arith, h))

  -- The two ways in which Handle fails: the child has a command, or Handle fails below it.
  handle-failed :
      (n : ℕ) (r : Router C) (path : Bytes) (c : C) (e : HandleError) (r' : Router C)
      → handle (suc n) r path c ≡ some (some e, r')
      → ((d : C) × (command_of (child_at r (first_name path)) ≡ some d) × (r' ≡ r))
        ⊎ ((s : Router C) × (handle n (child_at r (first_name path)) (path_rest path) c
              ≡ some (some e, s))
            × (r' ≡ with_children r (put_child (children_of r) (first_name path) s)))
  unfolding handle
  handle-failed n r path c e r' h = elim (Bool-cases (stripped path =ᵇ [])) [
    | inl z ↦ ground (arith, z, h)
    | inr z ↦ elim (Bool-cases (is_param (stripped path))) [
      | inl p ↦ ground (arith, z, p, h)
      | inr p ↦ elim (Option-cases (command_of (child_at r (first_name path)))) [
        | inr (d, q) ↦ inl (d, q, ground (arith, z, p, q, h))
        | inl q ↦ inr (
            put_reply-failed r (first_name path)
              (handle n (child_at r (first_name path)) (path_rest path) c) e r'
              (ground (arith, z, p, q, h)))
      ]
    ]
  ]

  -- Below a new node nothing is registered.
  handle-new :
      (n : ℕ) (name : Bytes) (names : List Bytes) (path : Bytes) (c : C) (e : HandleError)
      (r' : Router C)
      → handle n (new_router name names) path c ≢ some (some e, r')
  unfolding handle child_at get_children
  handle-new zero name names path c e r' h = cc
  handle-new (suc n) name names path c e r' h =
      elim (handle-failed n (new_router name names) path c e r' h) [
        | inl (d, q, _) ↦ cc
        | inr (s, q, _) ↦
            handle-new n (first_name path) (names ++ first_name path ∷ []) (path_rest path) c e s q
      ]

  pub child_at-cases :
      (r : Router C) (name : Bytes)
      → (get_children (children_of r) name ≡ some (child_at r name))
        ⊎ (child_at r name ≡ new_router name (path_of r ++ name ∷ []))
  unfolding child_at
  child_at-cases r name = elim (Option-cases (get_children (children_of r) name)) [
    | inl p ↦ inr (ground (arith, p))
    | inr (s, p) ↦ inl (ground (arith, p))
  ]

  -- A Handle that fails leaves the tree as it was.
  pub handle-failed_same :
      (n : ℕ) (r : Router C) (path : Bytes) (c : C) (e : HandleError) (r' : Router C)
      → handle n r path c ≡ some (some e, r')
      → r' ≡ r
  unfolding handle
  handle-failed_same zero r path c e r' h = cc
  handle-failed_same (suc n) r path c e r' h = elim (handle-failed n r path c e r' h) [
    | inl (_, _, same) ↦ same
    | inr (s, q, left) ↦ elim (child_at-cases r (first_name path)) [
      | inr fresh ↦ absurd (
          handle-new n (first_name path) (path_of r ++ first_name path ∷ []) (path_rest path) c e s
            (subst (λ x. handle n x (path_rest path) c ≡ some (some e, s)) fresh q))
      | inl found ↦
          let back = handle-failed_same n (child_at r (first_name path)) (path_rest path) c e s q in
          left
          ∙ ap (λ x. with_children r (put_child (children_of r) (first_name path) x)) back
          ∙ ap (with_children r) (
              put_child-get_children (children_of r) (first_name path)
                (child_at r (first_name path)) found)
          ∙ with_children_self r
    ]
  ]
