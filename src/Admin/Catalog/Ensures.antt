-- ===== src/Admin/Catalog/Ensures.antt =====
-- Runs that add rows to the table of admin/endpoint_permissions.go, one after another.
use aeus.Common.{List, [], ◌++◌, none, some, ◌≡◌, sym, ap, ◌∙◌, subst, append-nil, append_assoc}
use aeus.Admin.Catalog.Defs.{Permission, CatalogError, Outcome, and_then}

-- What a run leaves: the rows that were there, and more after them; and if it succeeds, `P` holds of
-- the table and of every longer one, on which the run changes nothing.
pub data Ensures (run : List Permission → Outcome) (P : List Permission → Type 0)
    (t : List Permission) : Type 0 where
  done :
      (added : List Permission)
      → run t ≡ (none, t ++ added)
      → ((more : List Permission)
          → P ((t ++ added) ++ more) × (run ((t ++ added) ++ more) ≡ (none, (t ++ added) ++ more)))
      → Ensures run P t
  broken :
      (added : List Permission) (e : CatalogError) → run t ≡ (some e, t ++ added) → Ensures run P t

-- The same run under another name, and a weaker property.
pub Ensures-same :
    (run run' : List Permission → Outcome) (P P' : List Permission → Type 0) (t : List Permission)
    → ((z : List Permission) → run' z ≡ run z)
    → ((z : List Permission) → P z → P' z)
    → Ensures run P t
    → Ensures run' P' t
Ensures-same run run' P P' t same weaker (broken added e q) = broken added e (same t ∙ q)
Ensures-same run run' P P' t same weaker (done added q k) =
    done added (same t ∙ q)
      λ more. (weaker ((t ++ added) ++ more) (k more).0, same ((t ++ added) ++ more) ∙ (k more).1)

-- A run that does nothing.
pub Ensures-nothing :
    (run : List Permission → Outcome) (P : List Permission → Type 0) (t : List Permission)
    → ((z : List Permission) → run z ≡ (none, z))
    → ((z : List Permission) → P z)
    → Ensures run P t
Ensures-nothing run P t nothing holds =
    done [] (nothing t ∙ ap (λ (z : List Permission). (none, z)) (sym (append-nil t)))
      λ more. (holds ((t ++ []) ++ more), nothing ((t ++ []) ++ more))

-- One run after another.
pub Ensures-and_then :
    (run next : List Permission → Outcome) (P Q : List Permission → Type 0) (t : List Permission)
    → Ensures run P t
    → ((t' : List Permission) → Ensures next Q t')
    → Ensures (λ z. and_then (run z) next) (λ z. P z × Q z) t
Ensures-and_then run next P Q t (broken added e q) n =
    broken added e (ap (λ (z : Outcome). and_then z next) q)
Ensures-and_then run next P Q t (done added q k) n = elim (n (t ++ added)) [
  | broken more e r ↦ broken (added ++ more) e (
      ap (λ (z : Outcome). and_then z next) q
      ∙ r
      ∙ ap (λ (z : List Permission). (some e, z)) (append_assoc t added more))
  | done more r j ↦
      done (added ++ more)
        (ap (λ (z : Outcome). and_then z next) q
          ∙ r
          ∙ ap (λ (z : List Permission). (none, z)) (append_assoc t added more))
        λ rest. (
          (
            subst P (joined more rest) (k (more ++ rest)).0,
            subst Q (ap (λ (z : List Permission). z ++ rest) (append_assoc t added more))
                (j rest).0,
          ),
          ap (λ (z : Outcome). and_then z next)
                (subst (λ z. run z ≡ (none, z)) (joined more rest) (k (more ++ rest)).1)
              ∙ subst (λ z. next z ≡ (none, z))
                  (ap (λ (z : List Permission). z ++ rest) (append_assoc t added more)) (j rest).1,
        )
]
  where
    joined :
        (more rest : List Permission)
        → (t ++ added) ++ (more ++ rest) ≡ (t ++ (added ++ more)) ++ rest
    joined more rest =
        sym (append_assoc (t ++ added) more rest)
        ∙ ap (λ (z : List Permission). z ++ rest) (append_assoc t added more)
