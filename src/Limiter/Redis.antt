-- ===== src/Limiter/Redis.antt =====
-- Redis, which the gateway instances share and the repository does not contain: the five sorted-set
-- and key commands that the Lua script of backend/internal/limiter/limiter.go calls, with the
-- documented behaviour of each as a law. Every command takes the server's time in milliseconds.
pub mod Reference
use vegait.Prelude.{
  ℕ, suc, ◌+◌, ◌*◌, ◌≤◌, ◌<◌, ◌≡◌, ◌≢◌, Bool, true, false, not, ◌&&◌, List, [], ◌∷◌, String, Perm,
  ◌==◌, leb_ℤ, ℤ, pos, keep, length,
}

-- One element of a sorted set. A member is a string of bytes.
pub record Entry : Type 0 where
  pub score : ℕ
  pub member : List ℕ

abbrev pub eq_bytes : List ℕ → List ℕ → Bool
eq_bytes [] [] = true
eq_bytes (x ∷ xs) (y ∷ ys) = x == y && eq_bytes xs ys
eq_bytes _ _ = false

abbrev pub has_member : List ℕ → Entry → Bool
has_member m e = eq_bytes e.member m

abbrev pub in_range : ℤ → ℤ → Entry → Bool
in_range lo hi e = leb_ℤ lo (pos e.score) && leb_ℤ (pos e.score) hi

pub record Redis : Type 1 where
  pub Store : Type 0
  -- What a key holds at a time, its time to live respected.
  pub entries : Store → ℕ → String → List Entry
  pub zremrangebyscore : ℕ → String → ℤ → ℤ → Store → Store
  pub zcard : ℕ → String → Store → ℕ
  pub zadd : ℕ → String → ℕ → List ℕ → Store → Store
  pub expire : ℕ → String → ℤ → Store → Store

-- The documented behaviour of the commands. A removal by score keeps the key's time to live, ZADD
-- updates the score of a member that is there, and EXPIRE starts the time to live again.
pub record RedisLaws (r : Redis) : Type 0 where
  pub zcard_lem : (t : ℕ) (k : String) (s : r.Store) → r.zcard t k s ≡ length (r.entries s t k)
  pub zremrangebyscore_lem :
      (t t' : ℕ) (k : String) (lo hi : ℤ) (s : r.Store)
      → t ≤ t'
      → r.entries (r.zremrangebyscore t k lo hi s) t' k
        ≡ keep (λ e. not (in_range lo hi e)) (r.entries s t' k)
  pub zadd_lem :
      (t : ℕ) (k : String) (n : ℕ) (m : List ℕ) (s : r.Store)
      → Perm
          (r.entries (r.zadd t k n m s) t k)
          (record { score = n; member = m } ∷ keep (λ e. not (has_member m e)) (r.entries s t k))
  pub expire_alive :
      (t t' : ℕ) (k : String) (n : ℕ) (s : r.Store)
      → t ≤ t'
      → t' < t + 1000 * n
      → r.entries (r.expire t k (pos n) s) t' k ≡ r.entries s t k
  pub expire_dead :
      (t t' : ℕ) (k : String) (n : ℕ) (s : r.Store)
      → t + 1000 * n ≤ t'
      → r.entries (r.expire t k (pos n) s) t' k ≡ []
  pub zremrangebyscore_frame :
      (t t' : ℕ) (k j : String) (lo hi : ℤ) (s : r.Store)
      → k ≢ j
      → r.entries (r.zremrangebyscore t k lo hi s) t' j ≡ r.entries s t' j
  pub zadd_frame :
      (t t' : ℕ) (k j : String) (n : ℕ) (m : List ℕ) (s : r.Store)
      → k ≢ j
      → r.entries (r.zadd t k n m s) t' j ≡ r.entries s t' j
  pub expire_frame :
      (t t' : ℕ) (k j : String) (n : ℤ) (s : r.Store)
      → k ≢ j
      → r.entries (r.expire t k n s) t' j ≡ r.entries s t' j
