-- ===== src/Cli/Router/Registered.antt =====
-- That Lookup of transport/cli/router.go finds what Handle has registered.
use aeus.Common.{
  ℕ, zero, suc, Bytes, true, List, [], ◌∷◌, if◌then◌else◌, ◌=ᵇ◌, =ᵇ_sound, =ᵇ_refl, none, some, ok,
  ◌≡◌, refl, sym, ap, subst, ◌∙◌, inl, inr, arith, Bool-cases, Option-cases,
}
use aeus.Cli.Router.Tree.{
  Router, router, Children, no_child, child, name_of, children_of, command_of, with_children,
  with_command, get_children, put_child, split_slash, params_of, is_param, Reply, child_at,
  put_reply, handle, lookup_self, lookup,
}
use aeus.Cli.Router.Handle.{stripped, first_name, path_rest}

-- The names on a path, up to its end or its first parameter.
unfoldable pub tokens_of : ℕ → Bytes → List Bytes
tokens_of zero path = []
tokens_of (suc n) path =
    let more = tokens_of n (path_rest path) in
    if stripped path =ᵇ []
    then []
    else if is_param (stripped path)
    then []
    else first_name path ∷ more

module _ {C : Type 0} where
  with_command-name :
      (r : Router C) (c : C) (more : List Bytes) → name_of (with_command r c more) ≡ name_of r
  with_command-name (router name path children command params) c more = refl

  with_children-name : (r : Router C) (cs : Children C) → name_of (with_children r cs) ≡ name_of r
  with_children-name (router name path children command params) cs = refl

  children_of-with_children :
      (r : Router C) (cs : Children C) → children_of (with_children r cs) ≡ cs
  children_of-with_children (router name path children command params) cs = refl

  command_of-with_command :
      (r : Router C) (c : C) (more : List Bytes) → command_of (with_command r c more) ≡ some c
  command_of-with_command (router name path children command params) c more = refl

  get_children-name :
      (cs : Children C) (name : Bytes) (r : Router C)
      → get_children cs name ≡ some r
      → name_of r ≡ name
  unfolding get_children
  get_children-name no_child name r h = cc
  get_children-name (child r' cs) name r h = elim (Bool-cases (name_of r' =ᵇ name)) [
    | inl e ↦ sym (ap name_of (same e)) ∙ =ᵇ_sound _ _ e
    | inr e ↦ get_children-name cs name r (ground (arith, e, h))
  ]
    where
      same : (name_of r' =ᵇ name) ≡ true → r' ≡ r
      same e = ground (arith, e, h)

  child_at-name : (r : Router C) (name : Bytes) → name_of (child_at r name) ≡ name
  unfolding child_at
  child_at-name r name = elim (Option-cases (get_children (children_of r) name)) [
    | inl p ↦ ground (arith, p)
    | inr (s, p) ↦ ground (arith, p, get_children-name (children_of r) name s p)
  ]

  get_children-put_child :
      (cs : Children C) (name : Bytes) (s : Router C)
      → name_of s ≡ name
      → get_children (put_child cs name s) name ≡ some s
  unfolding get_children put_child
  get_children-put_child no_child name s h =
      ground (arith, subst (λ x. (name_of s =ᵇ x) ≡ true) h (=ᵇ_refl (name_of s)))
  get_children-put_child (child r cs) name s h = elim (Bool-cases (name_of r =ᵇ name)) [
    | inl e ↦ ground (arith, e, subst (λ x. (name_of s =ᵇ x) ≡ true) h (=ᵇ_refl (name_of s)))
    | inr e ↦ ground (arith, e, get_children-put_child cs name s h)
  ]

  put_reply-eq-ok :
      (r : Router C) (name : Bytes) (a : Reply C) (r' : Router C)
      → put_reply r name a ≡ some (none, r')
      → (s : Router C) × (a ≡ some (none, s))
        × (r' ≡ with_children r (put_child (children_of r) name s))
  put_reply-eq-ok r name none r' h = cc
  put_reply-eq-ok r name (some (e, s)) r' h = (s, ground (arith, h), ground (arith, h))

  -- The ways in which Handle succeeds.
  data Registers (n : ℕ) (r : Router C) (path : Bytes) (c : C) (r' : Router C) : Type 0 where
    here :
        (more : List Bytes)
        → r' ≡ with_command r c more
        → tokens_of (suc n) path ≡ []
        → Registers n r path c r'
    below :
        (s : Router C)
        → handle n (child_at r (first_name path)) (path_rest path) c ≡ some (none, s)
        → r' ≡ with_children r (put_child (children_of r) (first_name path) s)
        → tokens_of (suc n) path ≡ first_name path ∷ tokens_of n (path_rest path)
        → Registers n r path c r'

  handle-Registers :
      (n : ℕ) (r : Router C) (path : Bytes) (c : C) (r' : Router C)
      → handle (suc n) r path c ≡ some (none, r')
      → Registers n r path c r'
  unfolding handle tokens_of
  handle-Registers n r path c r' h = elim (Bool-cases (stripped path =ᵇ [])) [
    | inl z ↦ here [] (ground (arith, z, h)) (ground (arith, z))
    | inr z ↦ elim (Bool-cases (is_param (stripped path))) [
      | inl p ↦
          here (params_of (split_slash (stripped path))) (ground (arith, z, p, h))
            (ground (arith, z, p))
      | inr p ↦ elim (Option-cases (command_of (child_at r (first_name path)))) [
        | inr (d, q) ↦ absurd (ground (arith, z, p, q, h))
        | inl q ↦
            let (s, a, e) =
              put_reply-eq-ok r (first_name path)
                (handle n (child_at r (first_name path)) (path_rest path) c) r'
                (ground (arith, z, p, q, h)) in
            below s a e (ground (arith, z, p))
      ]
    ]
  ]

  handle-name :
      (n : ℕ) (r : Router C) (path : Bytes) (c : C) (r' : Router C)
      → handle n r path c ≡ some (none, r')
      → name_of r' ≡ name_of r
  unfolding handle
  handle-name zero r path c r' h = cc
  handle-name (suc n) r path c r' h = elim (handle-Registers n r path c r' h) [
    | here more e _ ↦ ap name_of e ∙ with_command-name r c more
    | below s _ e _ ↦
        ap name_of e ∙ with_children-name r (put_child (children_of r) (first_name path) s)
  ]

  -- After a Handle that succeeds, Lookup of the names on its path finds, with no arguments left, a
  -- node that has the command.
  pub lookup-handle :
      (n : ℕ) (r : Router C) (path : Bytes) (c : C) (r' : Router C)
      → handle n r path c ≡ some (none, r')
      → (node : Router C) × (lookup r' (tokens_of n path) ≡ ok (node, []))
        × (command_of node ≡ some c)
  unfolding handle lookup lookup_self
  lookup-handle zero r path c r' h = cc
  lookup-handle (suc n) r path c r' h = elim (handle-Registers n r path c r' h) [
    | here more e t ↦
        let has = ap command_of e ∙ command_of-with_command r c more in
        (r', rw (t, has, lookup, lookup_self) refl, has)
    | below s a e t ↦
        let (node, found, has) =
          lookup-handle n (child_at r (first_name path)) (path_rest path) c s a in
        let named =
          handle-name n (child_at r (first_name path)) (path_rest path) c s a
          ∙ child_at-name r (first_name path) in
        let kids =
          ap children_of e
          ∙ children_of-with_children r (put_child (children_of r) (first_name path) s) in
        let at =
          ap (λ cs. get_children cs (first_name path)) kids
          ∙ get_children-put_child (children_of r) (first_name path) s named in
        (node, rw (t, at, lookup) found, has)
  ]
