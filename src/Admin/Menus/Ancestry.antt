-- ===== src/Admin/Menus/Ancestry.antt =====
-- That the walk of `PathTo` in admin/models/menu.go ends, also on a cycle of parents, and what it gives.
use aeus.Common.{
  ℕ, zero, suc, ◌≤◌, ◌<◌, ◌==◌, Bytes, Bool, false, List, [], ◌∷◌, ◌++◌, Any, length, if◌then◌else◌,
  ◌=ᵇ◌, =ᵇ_refl, =ᵇ_sound, some, ◌≡◌, refl, sym, ap, ◌∙◌, subst, inl, inr, arith, Bool-cases,
  Option-cases,
}
use aeus.Admin.Permission.Checker.{member}
use aeus.Admin.Menus.Walk.{MenuRow, first_row, find_row, walk, start_row, path_to}

-- How many rows the walk has not visited.
unvisited : List Bytes → List MenuRow → ℕ
unvisited visited [] = 0
unvisited visited (r ∷ rest) =
    if member r.component visited then unvisited visited rest else suc (unvisited visited rest)

unvisited-le-length :
    (visited : List Bytes) (rows : List MenuRow) → unvisited visited rows ≤ length rows
unfolding unvisited
unvisited-le-length visited [] = omega arith
unvisited-le-length visited (r ∷ rest) = ground (arith, unvisited-le-length visited rest)

unvisited-cons-le :
    (cur : Bytes) (visited : List Bytes) (rows : List MenuRow)
    → unvisited (cur ∷ visited) rows ≤ unvisited visited rows
unfolding unvisited member
unvisited-cons-le cur visited [] = omega arith
unvisited-cons-le cur visited (r ∷ rest) = ground (arith, unvisited-cons-le cur visited rest)

-- Each turn visits a row.
unvisited-cons-lt :
    (rows : List MenuRow) (cur : Bytes) (visited : List Bytes) (p : MenuRow)
    → member cur visited ≡ false
    → first_row cur rows ≡ some p
    → unvisited (cur ∷ visited) rows < unvisited visited rows
unfolding unvisited member first_row
unvisited-cons-lt [] cur visited p m h = absurd (ground (arith, h))
unvisited-cons-lt (r ∷ rest) cur visited p m h = elim (Bool-cases (r.component =ᵇ cur)) [
  | inl e ↦
      let same : r.component ≡ cur = =ᵇ_sound _ _ e in
      ground (arith, same, =ᵇ_refl cur, m, unvisited-cons-le cur visited rest)
  | inr e ↦ ground (arith, e, h, m, unvisited-cons-lt rest cur visited p m)
]

module _ (rows : List MenuRow) (failing : Bytes → Bool) where
  walk-some :
      (n : ℕ) (visited : List Bytes) (cur : Bytes) (path : List Bytes)
      → unvisited visited rows < n
      → (result : List Bytes) × (walk rows failing n visited cur path ≡ some result)
  unfolding walk find_row
  walk-some zero visited cur path h = absurd (omega (arith, h))
  walk-some (suc n) visited cur path h = elim (Bool-cases (cur =ᵇ [])) [
    | inl z ↦ (path, ground (arith, z))
    | inr z ↦ elim (Bool-cases (member cur visited)) [
      | inl m ↦ (path, ground (arith, z, m))
      | inr m ↦ elim (Bool-cases (failing cur)) [
        | inl f ↦ (path, ground (arith, z, m, f))
        | inr f ↦ elim (Option-cases (first_row cur rows)) [
          | inl r ↦ (path, ground (arith, z, m, f, r))
          | inr (p, r) ↦
              let (result, e) =
                walk-some n (cur ∷ visited) p.parent (p.component ∷ path)
                  (ground (arith, h, unvisited-cons-lt rows cur visited p m r)) in
              (result, ground (arith, z, m, f, r, e))
        ]
      ]
    ]
  ]

-- A row with a component and a parent.
abbrev pub Linked : List MenuRow → Bytes → Bytes → Type 0
Linked rows component parent = Any (λ r. (r.component ≡ component) × (r.parent ≡ parent)) rows

-- Each component of a path is the parent of the next one, in some row.
abbrev pub Chain : List MenuRow → List Bytes → Type 0
Chain rows [] = Unit
Chain rows (a ∷ []) = Unit
Chain rows (a ∷ b ∷ path) = Linked rows b a × Chain rows (b ∷ path)

abbrev pub Unique : List Bytes → Type 0
Unique [] = Unit
Unique (a ∷ path) = (member a path ≡ false) × Unique path

first_row-Linked :
    (rows : List MenuRow) (cur : Bytes) (p : MenuRow)
    → first_row cur rows ≡ some p
    → (p.component ≡ cur) × Linked rows cur p.parent
unfolding first_row
first_row-Linked [] cur p h = absurd (ground (arith, h))
first_row-Linked (r ∷ rest) cur p h = elim (Bool-cases (r.component =ᵇ cur)) [
  | inl e ↦
      let same : r ≡ p = ground (arith, e, h) in
      let found : r.component ≡ cur = =ᵇ_sound _ _ e in
      (sym (ap (λ x. x.component) same) ∙ found, inl (found, ap (λ x. x.parent) same))
  | inr e ↦ let (c, l) = first_row-Linked rest cur p (ground (arith, e, h)) in (c, inr l)
]

start_row-Linked :
    (rows : List MenuRow) (id : ℕ) (start : MenuRow)
    → start_row id rows ≡ some start
    → Linked rows start.component start.parent
unfolding start_row
start_row-Linked [] id start h = absurd (ground (arith, h))
start_row-Linked (r ∷ rest) id start h = elim (Bool-cases (r.id == id)) [
  | inl e ↦
      let same : r ≡ start = ground (arith, e, h) in
      inl (ap (λ x. x.component) same, ap (λ x. x.parent) same)
  | inr e ↦ inr (start_row-Linked rest id start (ground (arith, e, h)))
]

module _ (rows : List MenuRow) (failing : Bytes → Bool) where
  -- What a path down to a part of it is.
  pub record Ancestry (below result : List Bytes) : Type 0 where
    pub above : List Bytes
    pub ends : result ≡ above ++ below
    pub chain : Chain rows result
    pub unique : Unique result

  whole :
      (path : List Bytes) (result : List Bytes)
      → path ≡ result
      → Chain rows path
      → Unique path
      → Ancestry path result
  whole path result e c u =
      subst (Ancestry path) e (record { above = []; ends = refl; chain = c; unique = u })

  -- A path one longer at its root goes down to the same part.
  lower : (a : Bytes) (path result : List Bytes) → Ancestry (a ∷ path) result → Ancestry path result
  lower a path result w = record {
    above = w.above ++ a ∷ [];
    ends = w.ends ∙ sym (append_step w.above);
    chain = w.chain;
    unique = w.unique;
  }
    where
      append_step : (xs : List Bytes) → (xs ++ a ∷ []) ++ path ≡ xs ++ a ∷ path
      append_step [] = refl
      append_step (x ∷ xs) = ap (λ l. x ∷ l) (append_step xs)

  walk-Ancestry :
      (n : ℕ) (h : Bytes) (t : List Bytes) (cur : Bytes) (result : List Bytes)
      → Linked rows h cur
      → Chain rows (h ∷ t)
      → Unique (h ∷ t)
      → walk rows failing n (h ∷ t) cur (h ∷ t) ≡ some result
      → Ancestry (h ∷ t) result
  unfolding walk find_row
  walk-Ancestry zero h t cur result l c u w = absurd (ground (arith, w))
  walk-Ancestry (suc n) h t cur result l c u w = elim (Bool-cases (cur =ᵇ [])) [
    | inl z ↦ whole (h ∷ t) result (ground (arith, z, w)) c u
    | inr z ↦ elim (Bool-cases (member cur (h ∷ t))) [
      | inl m ↦ whole (h ∷ t) result (ground (arith, z, m, w)) c u
      | inr m ↦ elim (Bool-cases (failing cur)) [
        | inl f ↦ whole (h ∷ t) result (ground (arith, z, m, f, w)) c u
        | inr f ↦ elim (Option-cases (first_row cur rows)) [
          | inl r ↦ whole (h ∷ t) result (ground (arith, z, m, f, r, w)) c u
          | inr (p, r) ↦
              let (same, up) = first_row-Linked rows cur p r in
              lower cur (h ∷ t) result (
                walk-Ancestry n cur (h ∷ t) p.parent result up (l, c) (m, u)
                  (ground (arith, z, m, f, r, same, w)))
        ]
      ]
    ]
  ]

  -- On more fuel than there are rows, the walk from a row that is there ends with a path: its last
  -- component is the one of the row, each component is the parent of the next one in some row, and none
  -- stands in it twice, whatever cycles the parents have and whichever queries fail.
  pub path_to-Ancestry :
      (id fuel : ℕ) (start : MenuRow)
      → start_row id rows ≡ some start
      → length rows < fuel
      → (result : List Bytes) × (path_to rows failing fuel id ≡ some (some result))
        × Ancestry (start.component ∷ []) result
  unfolding path_to member
  path_to-Ancestry id fuel start s enough =
      let begin : List Bytes = start.component ∷ [] in
      let (result, w) =
        walk-some rows failing fuel begin start.parent begin
          (omega (arith, enough, unvisited-le-length begin rows)) in
      (
        result,
        ground (arith, s, w),
        walk-Ancestry fuel start.component [] start.parent result (start_row-Linked rows id start s)
            tt (refl, tt) w,
      )
