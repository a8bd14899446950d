-- ===== src/App/Wiring.antt =====
-- The wiring in `preStart` of app.go, and what it has set when the servers are started.
use aeus.Common.{
  ℕ, zero, suc, ◌<◌, Bool, true, false, not, List, [], ◌∷◌, ◌++◌, Any, length, if◌then◌else◌,
  Option, none, some, Result, ok, err, ◌≡◌, ◌⊎◌, refl, sym, ap, subst, inl, inr, arith,
  Option-cases, Result-cases,
}
use aeus.App.Inject.{
  Field, Part, StartError, unused_var, init_failed, mark, choice, mark_choice, inject_vars,
}

-- The steps of the wiring, in the order of `preStart`: each server, the registry, and the scope and the
-- service loader with their Init.
pub data Stage : Type 0 where
  server : Part → Stage
  registry : ℕ → Stage
  initialised : Part → Stage

-- The places of the fields of each part.
abbrev pub Places : Type 0
Places = List (List (Option ℕ))

abbrev pub with_places :
    List (Option ℕ)
    → Result StartError (Places × List Bool)
    → Result StartError (Places × List Bool)
with_places p (err e) = err e
with_places p (ok (places, used)) = ok (p ∷ places, used)

abbrev pub all_unused : List ℕ → List Bool
all_unused [] = []
all_unused (v ∷ values) = false ∷ all_unused values

-- The loop over the marks of the injected variables.
unfoldable pub unused : List ℕ → List Bool → Option StartError
unused [] used = none
unused (v ∷ vars) [] = some (unused_var v)
unused (v ∷ vars) (u ∷ used) = if not u then some (unused_var v) else unused vars used

module _ (implements : ℕ → ℕ → Bool) where
  unfoldable pub wire : List Stage → List ℕ → List Bool → Result StartError (Places × List Bool)
  wire [] values used = ok ([], used)
  wire (server p ∷ stages) values used =
      let r = inject_vars implements p.fields values used in
      with_places r.0 (wire stages (values ++ p.type ∷ []) (r.1 ++ false ∷ []))
  wire (registry t ∷ stages) values used = wire stages (values ++ t ∷ []) (used ++ false ∷ [])
  wire (initialised p ∷ stages) values used =
      let r = inject_vars implements p.fields values used in
      let rest = with_places r.0 (wire stages (values ++ p.type ∷ []) (r.1 ++ false ∷ [])) in
      elim (p.init_error) [ some e ↦ err (init_failed e) | none ↦ rest ]

  -- `preStart` up to its first goroutine, with the injected variables and the logger.
  unfoldable pub pre_start : List ℕ → ℕ → List Stage → Result StartError Places
  pre_start vars logger stages =
      elim (wire stages (vars ++ logger ∷ []) (all_unused (vars ++ logger ∷ []))) [
        | err e ↦ err e
        | ok (places, used) ↦ elim (unused vars used) [ some e ↦ err e | none ↦ ok places ]
      ]

-- The mark of a place.
unfoldable pub marked : ℕ → List Bool → Bool
marked i [] = false
marked zero (u ∷ used) = u
marked (suc i) (u ∷ used) = marked i used

marked-mark :
    (i j : ℕ) (used : List Bool) → marked i (mark j used) ≡ true → (j ≡ i) ⊎ (marked i used ≡ true)
unfolding marked mark
marked-mark i j [] h = inr h
marked-mark zero zero (u ∷ used) h = inl refl
marked-mark (suc i) zero (u ∷ used) h = inr h
marked-mark zero (suc j) (u ∷ used) h = inr h
marked-mark (suc i) (suc j) (u ∷ used) h = elim (marked-mark i j used h) [
  | inl e ↦ inl (ap suc e)
  | inr m ↦ inr m
]

marked-append :
    (i : ℕ) (used : List Bool) → marked i (used ++ false ∷ []) ≡ true → marked i used ≡ true
unfolding marked
marked-append zero [] h = h
marked-append (suc i) [] h = h
marked-append zero (u ∷ used) h = h
marked-append (suc i) (u ∷ used) h = marked-append i used h

marked_none : (i : ℕ) (values : List ℕ) → marked i (all_unused values) ≡ false
unfolding marked
marked_none i [] = refl
marked_none zero (v ∷ values) = refl
marked_none (suc i) (v ∷ values) = marked_none i values

module _ (implements : ℕ → ℕ → Bool) where
  abbrev pub Takes : ℕ → List (Option ℕ) → Type 0
  Takes i places = Any (λ o. o ≡ some i) places

  -- A mark of a call was there before, or a field of the call is set to the place.
  marked-choice :
      (i : ℕ) (o : Option ℕ) (used : List Bool)
      → marked i (mark_choice implements o used) ≡ true
      → (o ≡ some i) ⊎ (marked i used ≡ true)
  marked-choice i none used h = inr h
  marked-choice i (some j) used h = elim (marked-mark i j used h) [
    | inl e ↦ inl (ap some e)
    | inr m ↦ inr m
  ]

  marked-inject_vars :
      (i : ℕ) (fields : List Field) (values : List ℕ) (used : List Bool)
      → marked i (inject_vars implements fields values used).1 ≡ true
      → Takes i (inject_vars implements fields values used).0 ⊎ (marked i used ≡ true)
  unfolding inject_vars
  marked-inject_vars i [] values used h = inr h
  marked-inject_vars i (f ∷ fields) values used h =
      elim (marked-inject_vars i fields values
        (mark_choice implements (choice implements f values) used) h) [
          | inl t ↦ inl (inr t)
          | inr m ↦ elim (marked-choice i (choice implements f values) used m) [
            | inl e ↦ inl (inl e)
            | inr k ↦ inr k
          ]
        ]

  with_places-ok :
      (p : List (Option ℕ)) (x : Result StartError (Places × List Bool)) (places : Places)
      (used : List Bool)
      → with_places p x ≡ ok (places, used)
      → (rest : Places) × (x ≡ ok (rest, used)) × (places ≡ p ∷ rest)
  with_places-ok p (err e) places used h = absurd (ground (arith, h))
  with_places-ok p (ok (rest, u)) places used h = (rest, ground (arith, h), ground (arith, h))

  marked-part :
      (i : ℕ) (fields : List Field) (values : List ℕ) (used final : List Bool) (places : Places)
      (x : Result StartError (Places × List Bool))
      → with_places (inject_vars implements fields values used).0 x ≡ ok (places, final)
      → ((rest : Places)
          → x ≡ ok (rest, final)
          → Any (Takes i) rest
            ⊎ (marked i ((inject_vars implements fields values used).1 ++ false ∷ []) ≡ true))
      → Any (Takes i) places ⊎ (marked i used ≡ true)
  marked-part i fields values used final places x h next =
      let (rest, e, s) =
        with_places-ok (inject_vars implements fields values used).0 x places final h in
      elim (next rest e) [
        | inl a ↦ inl (subst (Any (Takes i)) (sym s) (inr a))
        | inr k ↦
            elim (marked-inject_vars i fields values used
              (marked-append i (inject_vars implements fields values used).1 k)) [
                | inl t ↦ inl (subst (Any (Takes i)) (sym s) (inl t))
                | inr m ↦ inr m
              ]
      ]

  -- Every mark of the wiring that was not there before is of a field that is set to its place.
  marked-wire :
      (i : ℕ) (stages : List Stage) (values : List ℕ) (used final : List Bool) (places : Places)
      → wire implements stages values used ≡ ok (places, final)
      → marked i final ≡ true
      → Any (Takes i) places ⊎ (marked i used ≡ true)
  unfolding wire
  marked-wire i [] values used final places h m = inr (ground (arith, h, m))
  marked-wire i (registry t ∷ stages) values used final places h m =
      elim (marked-wire i stages (values ++ t ∷ []) (used ++ false ∷ []) final places h m) [
        | inl a ↦ inl a
        | inr k ↦ inr (marked-append i used k)
      ]
  marked-wire i (server p ∷ stages) values used final places h m =
      marked-part i p.fields values used final places
        (wire implements stages (values ++ p.type ∷ [])
          ((inject_vars implements p.fields values used).1 ++ false ∷ []))
        h
        (λ rest e.
          marked-wire i stages (values ++ p.type ∷ [])
            ((inject_vars implements p.fields values used).1 ++ false ∷ []) final rest e m)
  marked-wire i (initialised p ∷ stages) values used final places h m =
      elim (Option-cases (p.init_error)) [
        | inr (e, n) ↦ absurd (ground (arith, n, h))
        | inl n ↦
            marked-part i p.fields values used final places
              (wire implements stages (values ++ p.type ∷ [])
                ((inject_vars implements p.fields values used).1 ++ false ∷ []))
              (ground (arith, n, h))
              (λ rest e.
                marked-wire i stages (values ++ p.type ∷ [])
                  ((inject_vars implements p.fields values used).1 ++ false ∷ []) final rest e m)
      ]

unused-marked :
    (vars : List ℕ) (used : List Bool) (i : ℕ)
    → unused vars used ≡ none
    → i < length vars
    → marked i used ≡ true
unfolding unused marked
unused-marked [] used i h l = absurd (omega (arith, l))
unused-marked (v ∷ vars) [] i h l = absurd (ground (arith, h))
unused-marked (v ∷ vars) (u ∷ used) zero h l = ground (arith, h)
unused-marked (v ∷ vars) (u ∷ used) (suc i) h l =
    unused-marked vars used i (ground (arith, h)) (omega (arith, l))

-- A service goes on to start its servers only if each injected variable has been set in a field of a
-- server, of the scope or of the service loader.
pub pre_start-Any :
    (implements : ℕ → ℕ → Bool) (vars : List ℕ) (logger : ℕ) (stages : List Stage) (places : Places)
    → pre_start implements vars logger stages ≡ ok places
    → (i : ℕ) → i < length vars
    → Any (Takes implements i) places
unfolding pre_start
pre_start-Any implements vars logger stages places h i l =
    elim (Result-cases
      (wire implements stages (vars ++ logger ∷ []) (all_unused (vars ++ logger ∷ [])))) [
        | inl (e, w) ↦ absurd (ground (arith, w, h))
        | inr ((ps, used), w) ↦ elim (Option-cases (unused vars used)) [
          | inr (e, n) ↦ absurd (ground (arith, w, n, h))
          | inl n ↦ taken ps used w n (ground (arith, w, n, h))
        ]
      ]
  where
    taken :
        (ps : Places) (used : List Bool)
        → wire implements stages (vars ++ logger ∷ []) (all_unused (vars ++ logger ∷ []))
          ≡ ok (ps, used)
        → unused vars used ≡ none
        → ps ≡ places
        → Any (Takes implements i) places
    taken ps used w n e =
        elim (marked-wire implements i stages (vars ++ logger ∷ [])
          (all_unused (vars ++ logger ∷ [])) used ps w (unused-marked vars used i n l)) [
            | inl a ↦ subst (Any (Takes implements i)) e a
            | inr k ↦ absurd (ground (arith, k, marked_none i (vars ++ logger ∷ [])))
          ]
