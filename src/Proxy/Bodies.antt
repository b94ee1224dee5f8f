-- ===== src/Proxy/Bodies.antt =====
-- What a client gets of an upstream's body (backend/internal/proxy/proxy.go).
use Prim.Native.Nat.{min}
use vegait.Prelude.{ℕ, zero, suc, ◌≡◌, List, [], ◌∷◌, ◌++◌, length}
use vegait.Limiter.Redis.{Redis}
use vegait.Http.{Response, bytes}

-- What io.ReadAll of a LimitReader leaves out.
rest_of : ℕ → List ℕ → List ℕ
rest_of zero bs = bs
rest_of (suc n) [] = []
rest_of (suc n) (b ∷ bs) = rest_of n bs

-- The beginning of a body that a response ends with: its first 10 MiB, or all of a shorter one.
pub record Delivers (body : List ℕ) (before after : Response) : Type 0 where
  pub given : List ℕ
  pub missing : List ℕ
  pub written : after.body ≡ before.body ++ bytes given ∷ []
  pub parts : given ++ missing ≡ body
  pub long : length given ≡ min 10_485_760 (length body)
