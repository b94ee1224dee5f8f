-- ===== src/Limiter/Redis/Reference.antt =====
-- A small Redis: a function from keys to an entry list with a deadline. It meets the laws, so what
-- is proved from them is not empty, and the script runs on it.
use mathlib.Core.List.Perm
use text.Mathlib.TextPositions.{eq_refl}
use vegait.Prelude.{
  ℕ, ◌+◌, ◌*◌, ◌≡◌, refl, Bool, false, not, List, [], ◌∷◌, String, Option, none, some, arith, leb,
  str_eq, eq_iff, ℤ, pos, negsuc, keep, length, if◌then◌else◌,
}
use vegait.Limiter.Redis.{Entry, has_member, in_range, Redis, RedisLaws}

pub record Cell : Type 0 where
  pub items : List Entry
  pub deadline : Option ℕ

abbrev is_due : Option ℕ → ℕ → Bool
is_due none t = false
is_due (some d) t = leb d t

abbrev live : Cell → ℕ → List Entry
live c t = if is_due c.deadline t then [] else c.items

abbrev update : (String → Cell) → String → Cell → String → Cell
update s k c j = if str_eq k j then c else s j

abbrev expire_at : ℕ → ℤ → Option ℕ
expire_at t (pos n) = some (t + 1000 * n)
expire_at t (negsuc n) = some t

abbrev pub empty_store : String → Cell
empty_store _ = record { items = []; deadline = none }

abbrev pub reference : Redis
reference = record {
  Store = String → Cell;
  entries = λ s t k. live (s k) t;
  zremrangebyscore = λ t k lo hi s.
      update s k (record (s k) { items = keep (λ e. not (in_range lo hi e)) (s k).items });
  zcard = λ t k s. length (live (s k) t);
  zadd = λ t k n m s. update s k (record {
    items = record { score = n; member = m } ∷ keep (λ e. not (has_member m e)) (live (s k) t);
    deadline = if is_due (s k).deadline t then none else (s k).deadline;
  });
  expire = λ t k n s. update s k (record { items = live (s k) t; deadline = expire_at t n });
}

live-renewed :
    (xs : List Entry) (d : Option ℕ) (t : ℕ)
    → live (record { items = xs; deadline = if is_due d t then none else d }) t ≡ xs
live-renewed xs d t = ground arith

pub reference-RedisLaws : RedisLaws reference
reference-RedisLaws = record {
  zcard_lem = λ t k s. refl;
  zremrangebyscore_lem = λ t t' k lo hi s h. rw (eq_refl k) (ground arith);
  zadd_lem = λ t k n m s. rw (eq_refl k, live-renewed) (Perm.refl _);
  expire_alive = λ t t' k n s h h'. ground (arith, eq_iff k k);
  expire_dead = λ t t' k n s h. ground (arith, eq_iff k k);
  zremrangebyscore_frame = λ t t' k j lo hi s h. ground (arith, eq_iff k j);
  zadd_frame = λ t t' k j n m s h. ground (arith, eq_iff k j);
  expire_frame = λ t t' k j n s h. ground (arith, eq_iff k j);
}
