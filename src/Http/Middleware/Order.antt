-- ===== src/Http/Middleware/Order.antt =====
-- The order of Chain (backend/internal/middleware/middleware.go).
use vegait.Prelude.{ℕ, zero, suc, ◌≡◌, refl, List, [], ◌∷◌, length}
use vegait.Http.{Handler}
use vegait.Http.Middleware.{chain_loop, chain}

module _ {ℓ} {S : Type ℓ} where
  -- The first middleware around all the others, and the last next to the handler.
  unfoldable pub nest : Handler S → List (Handler S → Handler S) → Handler S
  nest handler [] = handler
  nest handler (mw ∷ mws) = mw (nest handler mws)

  chain_loop-cons :
      (i : ℕ) (mw : Handler S → Handler S) (mws : List (Handler S → Handler S)) (h : Handler S)
      → chain_loop (suc i) (mw ∷ mws) h ≡ mw (chain_loop i mws h)
  unfolding chain_loop
  chain_loop-cons zero mw mws h = refl
  chain_loop-cons (suc i) mw mws h = chain_loop-cons i mw mws _

  -- The loop of Chain, which goes from the last middleware down, nests them in the order of the list,
  -- the first outermost.
  pub chain-eq-nest :
      (mws : List (Handler S → Handler S)) (handler : Handler S)
      → chain handler mws ≡ nest handler mws
  unfolding chain nest chain_loop
  chain-eq-nest [] handler = refl
  chain-eq-nest (mw ∷ mws) handler =
      rw (chain_loop-cons (length mws) mw mws handler) (cc (chain-eq-nest mws handler))
