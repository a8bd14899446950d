-- ===== src/Admin/Catalog/Edits.antt =====
-- How the rows that operators may have edited change under admin/derive.go.
use aeus.Common.{
  Bytes, Bool, true, false, if◌then◌else◌, ◌||◌, List, [], ◌∷◌, ◌++◌, ◌=ᵇ◌, any, some, ◌≡◌, refl,
  ap, ◌∙◌, subst, arith, Bool-cases, inl, inr, ◌⊎◌,
}
use aeus.Admin.Catalog.Defs.{Permission}
use aeus.Admin.Catalog.Derive.{has_code, first_code, fill_group}

-- The row is kept, but for a group that was empty.
pub record KeptRow (r r' : Permission) : Type 0 where
  pub columns : r' ≡ record r { group = r'.group }
  pub same_group : ((r.group =ᵇ []) ≡ true) ⊎ (r'.group ≡ r.group)

-- Every row is kept, and rows may follow.
abbrev pub Kept : List Permission → List Permission → Type 0
Kept [] t' = Unit
Kept (r ∷ t) [] = ⊥
Kept (r ∷ t) (r' ∷ t') = KeptRow r r' × Kept t t'

KeptRow-refl : (r : Permission) → KeptRow r r
KeptRow-refl r = record { columns = refl; same_group = inr refl }

KeptRow-trans : (r s u : Permission) → KeptRow r s → KeptRow s u → KeptRow r u
KeptRow-trans r s u a b = record {
  columns = b.columns ∙ ap (λ (z : Permission). record z { group = u.group }) a.columns;
  same_group = elim (a.same_group) [
    | inl e ↦ inl e
    | inr e ↦ elim (b.same_group) [
      | inl f ↦ inl (subst (λ (z : Bytes). (z =ᵇ []) ≡ true) e f)
      | inr f ↦ inr (f ∙ e)
    ]
  ];
}

pub Kept_refl : (t : List Permission) → Kept t t
Kept_refl [] = tt
Kept_refl (r ∷ t) = (KeptRow-refl r, Kept_refl t)

pub Kept-append : (t more : List Permission) → Kept t (t ++ more)
Kept-append [] more = tt
Kept-append (r ∷ t) more = (KeptRow-refl r, Kept-append t more)

pub Kept_trans : (t u v : List Permission) → Kept t u → Kept u v → Kept t v
Kept_trans [] u v k l = tt
Kept_trans (r ∷ t) [] v k l = absurd k
Kept_trans (r ∷ t) (s ∷ u) [] k l = absurd l
Kept_trans (r ∷ t) (s ∷ u) (w ∷ v) (a, k) (b, l) = (KeptRow-trans r s w a b, Kept_trans t u v k l)

-- The row that a back-fill meets, deleted or not.
Kept-filled :
    (group : Bytes) (x : Permission) (t : List Permission)
    → (x.group =ᵇ []) ≡ true
    → (deleted : Bool) → Kept (x ∷ t) (if deleted then x ∷ t else record x { group = group } ∷ t)
Kept-filled group x t e true = (KeptRow-refl x, Kept_refl t)
Kept-filled group x t e false = (record { columns = refl; same_group = inl e }, Kept_refl t)

pub Kept-fill_group :
    (code group : Bytes) (t : List Permission) (r : Permission)
    → first_code code t ≡ some r
    → (r.group =ᵇ []) ≡ true
    → Kept t (fill_group code group t)
unfolding first_code fill_group
Kept-fill_group code group [] r h e = tt
Kept-fill_group code group (x ∷ t) r h e = elim (Bool-cases (x.code =ᵇ code)) [
  | inl m ↦
      let empty : (x.group =ᵇ []) ≡ true = ground (arith, m, h, e) in
      rw m (Kept-filled group x t empty x.deleted)
  | inr m ↦ rw m (KeptRow-refl x, Kept-fill_group code group t r (ground (arith, m, h)) e)
]

pub any-append :
    (p : Permission → Bool) (xs ys : List Permission) → any p (xs ++ ys) ≡ (any p xs || any p ys)
any-append p [] ys = refl
any-append p (x ∷ xs) ys = ground (arith, any-append p xs ys)

-- A code that a table has stays there.
pub any-Kept :
    (code : Bytes) (t t' : List Permission)
    → Kept t t'
    → any (has_code code) t ≡ true
    → any (has_code code) t' ≡ true
any-Kept code [] t' k h = cc
any-Kept code (r ∷ t) [] k h = absurd k
any-Kept code (r ∷ t) (r' ∷ t') (a, k) h =
    let there : r'.code ≡ r.code = ap (λ (z : Permission). z.code) a.columns in
    ground (arith, h, there, any-Kept code t t' k)

pub any-first_code :
    (code : Bytes) (t : List Permission) (r : Permission)
    → first_code code t ≡ some r
    → any (has_code code) t ≡ true
unfolding first_code
any-first_code code [] r h = cc
any-first_code code (x ∷ t) r h = elim (Bool-cases (x.code =ᵇ code)) [
  | inl m ↦ ground (arith, m)
  | inr m ↦ ground (arith, m, any-first_code code t r (ground (arith, m, h)))
]
