-- ===== src/Cli/Server/Ends.antt =====
-- That the read loop of transport/cli/server.go ends with the stream.
use aeus.Common.{
  ℕ, zero, suc, ◌+◌, ◌≤◌, ◌<◌, Bytes, List, length, length-append, ltb, ◌=ᵇ◌, Option, none, some,
  Result, ok, ◌>>=◌, >>=-eq-ok, guarded-eq-ok, ◌≡◌, ◌≢◌, refl, ap, subst, [], ◌++◌, Bool-cases,
  arith, inl, inr, Result-cases,
}
use aeus.Cli.Frame.{
  IoError, Frame, feature_bytes, read_full, read_le, read_block, read_body, read_frame, le_value,
}
use aeus.Cli.Decode.{read_full-eq-ok}
use aeus.Cli.Server.Context.{Scope, Context, reset}
use aeus.Cli.Server.Execute.{Outcome, Server}
use aeus.Cli.Server.Process.{next_sequence, handle_frame, next_turn, serve, process}

-- What is left after a read that succeeds has `n` bytes at most.
abbrev Leaves : {A : Type 0} → ℕ → Result IoError (A × Bytes) → Type 0
Leaves {A} n m = (x : A) (rest : Bytes) → m ≡ ok (x, rest) → length rest ≤ n

bind-Leaves :
    {A B : Type 0} (n : ℕ) (m : Result IoError (A × Bytes))
    (next : A × Bytes → Result IoError (B × Bytes))
    → Leaves n m
    → ((x : A) (r : Bytes) → length r ≤ n → Leaves n (next (x, r)))
    → Leaves n (m >>= next)
bind-Leaves n m next h k y rest e =
    let ((x, r), first, second) = >>=-eq-ok m next e in k x r (h x r first) y rest second

read_full-Leaves :
    (n k : ℕ) (r xs rest : Bytes)
    → length r ≤ k + n
    → read_full n r ≡ ok (xs, rest)
    → length rest ≤ k
read_full-Leaves n k r xs rest h e =
    let (split, count) = read_full-eq-ok n r e in
    omega (arith, h, ap length split, length-append xs rest, count)

ok-Leaves : {A : Type 0} (k : ℕ) (y : A) (r : Bytes) → length r ≤ k → Leaves k (ok (y, r))
ok-Leaves k y r h x rest e = subst (λ z. length z ≤ k) (ground (arith, e)) h

read_le-Leaves : (n k : ℕ) (r : Bytes) → length r ≤ k → Leaves k (read_le n r)
unfolding read_le
read_le-Leaves n k r h =
    bind-Leaves k (read_full n r) _
      (λ xs rest e. read_full-Leaves n k r xs rest (omega (arith, h)) e)
      (λ x r' h'. ok-Leaves k (le_value x) r' h')

read_block-Leaves : (n k : ℕ) (r : Bytes) → length r ≤ k → Leaves k (read_block n r)
unfolding read_block
read_block-Leaves n k r h xs rest e = elim (Bool-cases (ltb 0 n)) [
  | inl p ↦ read_full-Leaves n k r xs rest (omega (arith, h)) (ground (arith, p, e))
  | inr p ↦ ok-Leaves k [] r h xs rest (ground (arith, p, e))
]

read_body-Leaves : (k : ℕ) (feature r : Bytes) → length r ≤ k → Leaves k (read_body feature r)
unfolding read_body
read_body-Leaves k feature r h = bind-Leaves k _ _ (read_le-Leaves 1 k r h) λ _ r h.
    bind-Leaves k _ _ (read_le-Leaves 1 k r h) λ _ r h.
      bind-Leaves k _ _ (read_le-Leaves 2 k r h) λ _ r h.
        bind-Leaves k _ _ (read_le-Leaves 8 k r h) λ _ r h.
          bind-Leaves k _ _ (read_le-Leaves 8 k r h) λ _ r h.
            bind-Leaves k _ _ (read_le-Leaves 2 k r h) λ n r h.
              bind-Leaves k _ _ (read_le-Leaves 2 k r h) λ m r h.
                bind-Leaves k _ _ (read_block-Leaves n k r h)
                  λ _ r h. bind-Leaves k _ _ (read_block-Leaves m k r h) λ _ r h. ok-Leaves k _ r h

-- A frame that is read takes bytes off the stream.
read_frame-shorter :
    (r r' : Bytes) (f : Frame) → read_frame r ≡ ok (f, r') → length r' + 3 ≤ length r
unfolding read_frame
read_frame-shorter r r' f h =
    let ((feature, rest), first, second) = >>=-eq-ok (read_full 3 r) _ h in
    let (split, count) = read_full-eq-ok 3 r first in
    let (_, body) = guarded-eq-ok (feature =ᵇ feature_bytes) _ _ second in
    omega (
      arith,
      ap length split,
      length-append feature rest,
      count,
      read_body-Leaves (length rest) feature rest (omega arith) f r' body,
    )

module _ {W X F J E : Type 0} (svr : Server W X F J E) where
  next_turn-ends :
      (done : Outcome W X F J E) (log : List (Bytes × Bytes))
      (loop : Context W X F J
        → List (Bytes × Bytes)
        → Option (Context W X F J × List (Bytes × Bytes)))
      → ((ctx : Context W X F J) (log' : List (Bytes × Bytes)) → loop ctx log' ≢ none)
      → next_turn svr done log loop ≢ none
  next_turn-ends (some e, ctx, more) log loop h k = cc
  next_turn-ends (none, ctx, more) log loop h k = h ctx (log ++ more) k

  serve-ends :
      (n : ℕ) (r : Bytes) (ctx : Context W X F J) (log : List (Bytes × Bytes))
      → length r < n
      → serve svr n r ctx log ≢ none
  unfolding serve
  serve-ends zero r ctx log h k = absurd (omega (arith, h))
  serve-ends (suc n) r ctx log h k = elim (Result-cases (read_frame r)) [
    | inl (e, p) ↦ absurd (ground (arith, p, k))
    | inr ((f, r'), p) ↦
        next_turn-ends (handle_frame svr f ctx) log (serve svr n r')
          (λ ctx' log'. serve-ends n r' ctx' log' (omega (arith, h, read_frame-shorter r r' f p)))
          (subst (λ z. z ≡ none) (rw (serve, p) refl) k)
  ]

  -- Whatever a peer sends before its side of the connection ends, the server comes to the end of the
  -- connection.
  pub process-ends :
      (background : Scope X) (sequence : ℕ) (r : Bytes) (w : W)
      → process svr background sequence r w ≢ none
  unfolding process
  process-ends background sequence r w =
      serve-ends (suc (length r)) r (reset background (next_sequence sequence) w) [] (omega arith)
