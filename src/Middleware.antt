-- ===== src/Middleware.antt =====
-- middleware/middleware.go: Chain. A handler is any type.
use aeus.Common.{List, [], ◌∷◌, ◌++◌, ◌≡◌, refl, ap}

module _ {ℓ} {H : Type ℓ} where
  -- `Chain`: the last middleware is applied first.
  unfoldable pub chain : List (H → H) → H → H
  chain [] next = next
  chain (m ∷ ms) next = m (chain ms next)

  -- Chains put together.
  pub chain-append :
      (ms ns : List (H → H)) (next : H) → chain (ms ++ ns) next ≡ chain ms (chain ns next)
  unfolding chain
  chain-append [] ns next = refl
  chain-append (m ∷ ms) ns next = ap m (chain-append ms ns next)
