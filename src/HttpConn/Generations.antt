-- ===== src/HttpConn/Generations.antt =====
-- A worker's answer to a connection that is gone.
use cpp_url_shortener.HttpConn.Steps.{SlotOp, inits, invalidates}
use cpp_url_shortener.HttpConn.State.{HttpConn}
use cpp_url_shortener.Common.{ℕ, ◌+◌, ◌≡◌, List, [], ◌∷◌}

-- How often the slot is given to a connection or taken from one.
unfoldable pub turnover : SlotOp → ℕ
turnover (inits fd mode) = 1
turnover invalidates = 1
turnover op = 0

unfoldable pub turnovers : List SlotOp → ℕ
turnovers [] = 0
turnovers (op ∷ ops) = turnover op + turnovers ops

module _ (g : ℕ) where
  At : HttpConn → Type 0
  At c = c.generation ≡ g
