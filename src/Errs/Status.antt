-- ===== src/Errs/Status.antt =====
-- What HTTPStatus and GRPCStatus of pkg/errs/error.go promise together.
use aeus.Common.{
  ℕ, ◌≤◌, ◌≡◌, refl, ap, Bool, true, false, List, [], ◌∷◌, ◌==◌, ◌||◌, ◌&&◌, not, sym, ◌++◌, ◌∙◌,
  leb, any, all, All, arith, Bool-cases, inl, inr, ==_iff,
}
use aeus.Errs.Codes.{Code, switch, http_cases, grpc_cases, http_status, grpc_status}

bounds_of_tests :
    (h g : ℕ)
    → ((leb 400 h && leb h 504) && (leb 1 g && leb g 16)) ≡ true
    → (400 ≤ h) × (h ≤ 504) × (1 ≤ g) × (g ≤ 16)
bounds_of_tests h g e = ground arith

-- The labels of a switch.
labels_known : List (List Code × ℕ) → Code → Bool
labels_known [] c = false
labels_known ((ls, r) ∷ rest) c = any (◌==◌ c) ls || labels_known rest c

-- Outside its labels a switch takes its default.
switch-default :
    (cs : List (List Code × ℕ)) (d : ℕ) (c : Code) → labels_known cs c ≡ false → switch cs d c ≡ d
unfolding labels_known
switch-default [] d c h = refl
switch-default ((ls, r) ∷ rest) d c h = ground (arith, switch-default rest d c)

All-of_all : {A : Type 0} (p : A → Bool) (xs : List A) → all p xs ≡ true → All (λ x. p x ≡ true) xs
All-of_all p [] h = tt
All-of_all p (x ∷ xs) h = (ground arith, All-of_all p xs (ground arith))

-- The pairs (HTTP, gRPC) that stand for the same kind of failure in the two protocols.
abbrev pub kinds : List (ℕ × ℕ)
kinds =
    (404, 5)
    ∷ (403, 7)
    ∷ (401, 16)
    ∷ (400, 3)
    ∷ (413, 3)
    ∷ (415, 3)
    ∷ (422, 3)
    ∷ (409, 6)
    ∷ (409, 10)
    ∷ (412, 9)
    ∷ (429, 8)
    ∷ (504, 4)
    ∷ (499, 1)
    ∷ (503, 14)
    ∷ (503, 10)
    ∷ (501, 12)
    ∷ (500, 13)
    ∷ (500, 2)
    ∷ []

abbrev pub agree : ℕ → ℕ → Bool
agree h g = any (λ p. (p.0 == h) && (p.1 == g)) kinds

-- A test that holds at every listed code and at every code outside the list holds.
test_by_list :
    (p : Code → Bool) (c : Code) (ls : List Code)
    → all p ls ≡ true
    → (any (◌==◌ c) ls ≡ false → p c ≡ true)
    → p c ≡ true
test_by_list p c [] h other = other refl
test_by_list p c (l ∷ ls) h other = elim (Bool-cases (c == l)) [
  | inl e ↦ let q : c ≡ l = (==_iff c l).0 e in rw q (ground arith)
  | inr e ↦ test_by_list p c ls (ground arith) (λ k. other (ground arith))
]

labels : List (List Code × ℕ) → List Code
labels [] = []
labels ((ls, r) ∷ rest) = ls ++ labels rest

any-append :
    (c : Code) (xs ys : List Code) → any (◌==◌ c) (xs ++ ys) ≡ (any (◌==◌ c) xs || any (◌==◌ c) ys)
any-append c [] ys = refl
any-append c (x ∷ xs) ys = ground (arith, any-append c xs ys)

labels_known_lem :
    (cs : List (List Code × ℕ)) (c : Code) → any (◌==◌ c) (labels cs) ≡ labels_known cs c
unfolding labels labels_known
labels_known_lem [] c = refl
labels_known_lem ((ls, r) ∷ rest) c =
    any-append c ls (labels rest) ∙ ap (λ b. any (◌==◌ c) ls || b) (labels_known_lem rest c)

-- A test of both statuses that holds at each label of the two switches and at their defaults
-- holds of every code.
test_statuses :
    (p : ℕ → ℕ → Bool) (c : Code)
    → all (λ k. p (http_status k) (grpc_status k)) (labels http_cases ++ labels grpc_cases) ≡ true
    → p 500 2 ≡ true
    → p (http_status c) (grpc_status c) ≡ true
unfolding http_status grpc_status
test_statuses p c h d =
    test_by_list (λ k. p (http_status k) (grpc_status k)) c (labels http_cases ++ labels grpc_cases)
      h
      λ k.
        let e = any-append c (labels http_cases) (labels grpc_cases) in
        let hu : labels_known http_cases c ≡ false =
          ground (arith, e, labels_known_lem http_cases c) in
        let gu : labels_known grpc_cases c ≡ false =
          ground (arith, e, labels_known_lem grpc_cases c) in
        rw (switch-default http_cases 500 c hu, switch-default grpc_cases 2 c gu) d

-- For every code the HTTP and the gRPC status are one of the listed pairs: the two protocols
-- report the same kind of failure.
pub http-grpc-agree : (c : Code) → agree (http_status c) (grpc_status c) ≡ true
unfolding labels http_status grpc_status
http-grpc-agree c = test_statuses agree c refl refl

-- No code of an error is reported as a success: the HTTP status is an error status, at most 504,
-- and the gRPC status is not 0 and at most 16.
pub status_bounds :
    (c : Code)
    → (400 ≤ http_status c) × (http_status c ≤ 504) × (1 ≤ grpc_status c) × (grpc_status c ≤ 16)
unfolding labels http_status grpc_status
status_bounds c =
    let t = test_statuses (λ h g. (leb 400 h && leb h 504) && (leb 1 g && leb g 16)) c refl refl in
    bounds_of_tests (http_status c) (grpc_status c) t

-- The statuses that name one kind of failure in both protocols: not found, forbidden,
-- unauthenticated, failed precondition, throttled, timed out, cancelled and not implemented.
abbrev pub exact : List (ℕ × ℕ)
exact = (404, 5) ∷ (403, 7) ∷ (401, 16) ∷ (412, 9) ∷ (429, 8) ∷ (504, 4) ∷ (499, 1) ∷ (501, 12) ∷ []

same : Bool → Bool → Bool
same true b = b
same false b = not b

eq_of_same : (a b : Bool) → same a b ≡ true → a ≡ b
unfolding same
eq_of_same true b h = sym h
eq_of_same false true h = cc
eq_of_same false false h = refl

-- For each of the listed kinds, a code has that HTTP status exactly when it has that gRPC status.
pub status_exact : (c : Code) → All (λ p. (http_status c == p.0) ≡ (grpc_status c == p.1)) exact
unfolding labels http_status grpc_status same
status_exact c =
    let t =
      test_statuses (λ h g. all (λ (p : ℕ × ℕ). same (h == p.0) (g == p.1)) exact) c refl refl in
    exact_of_tests exact
      (All-of_all (λ p. same (http_status c == p.0) (grpc_status c == p.1)) exact t)
  where
    exact_of_tests :
        (ps : List (ℕ × ℕ))
        → All (λ p. same (http_status c == p.0) (grpc_status c == p.1) ≡ true) ps
        → All (λ p. (http_status c == p.0) ≡ (grpc_status c == p.1)) ps
    exact_of_tests [] h = tt
    exact_of_tests (p ∷ ps) (h, hs) = (eq_of_same _ _ h, exact_of_tests ps hs)
