-- ===== src/Limiter/Script/Bound.antt =====
-- The bound that the log of backend/internal/limiter/limiter.go's sliding window keeps: no stretch of
-- one window's length, wherever it lies, holds more admitted requests than the limit.
use vegait.Prelude.{
  ℕ, ◌+◌, ◌≤◌, Bool, ◌&&◌, List, [], ◌∷◌, arith, leb, ℤ, pos_part, count, keep, Bool-cases, inl,
  inr,
}
use vegait.Limiter.Script.{Call}
use vegait.Limiter.Script.Log.{
  in_window, admits, record_at, log_run, log_after, admitted_times, count-log_after,
}

-- Newest first, none after `t`, each window that ends with an entry within the limit.
abbrev pub Bounded : ℕ → ℕ → ℕ → List ℕ → Type 0
Bounded w n t [] = Unit
Bounded w n t (x ∷ log) = (x ≤ t) × (count (in_window w x) (x ∷ log) ≤ n) × Bounded w n x log

pub Bounded-mono : (w n t t' : ℕ) (log : List ℕ) → t ≤ t' → Bounded w n t log → Bounded w n t' log
Bounded-mono w n t t' [] h b = tt
Bounded-mono w n t t' (x ∷ log) h b = (omega arith, b.1, b.2)

pub record_at-Bounded :
    (w t now : ℕ) (limit : ℤ) (log : List ℕ)
    → t ≤ now
    → Bounded w (pos_part limit) t log
    → Bounded w (pos_part limit) now (record_at now (admits w limit now log) log)
unfolding admits
record_at-Bounded w t now limit log h b = elim (Bool-cases (admits w limit now log)) [
  | inl granted ↦ rw granted (omega arith, ground arith, Bounded-mono w _ t now log h b)
  | inr refused ↦ rw refused (Bounded-mono w _ t now log h b)
]

abbrev pub within : ℕ → ℕ → ℕ → Bool
within w stop x = in_window w stop x && leb x stop

count-within-le :
    (w stop x : ℕ) (log : List ℕ) → x ≤ stop → count (within w stop) log ≤ count (in_window w x) log
count-within-le w stop x [] h = omega arith
count-within-le w stop x (y ∷ log) h = ground (arith, count-within-le w stop x log h)

-- A stretch that ends anywhere.
pub Bounded-within :
    (w n t stop : ℕ) (log : List ℕ) → Bounded w n t log → count (within w stop) log ≤ n
Bounded-within w n t stop [] b = omega arith
Bounded-within w n t stop (x ∷ log) b =
    ground (arith, Bounded-within w n x stop log b.2, count-within-le w stop x (x ∷ log))

-- Calls in the order of their times, none before `t`.
abbrev pub Ordered : ℕ → List Call → Type 0
Ordered t [] = Unit
Ordered t (c ∷ cs) = (t ≤ c.now) × Ordered c.now cs

Ordered-mono : (t t' : ℕ) (cs : List Call) → t ≤ t' → Ordered t' cs → Ordered t cs
Ordered-mono t t' [] h o = tt
Ordered-mono t t' (c ∷ cs) h o = (omega arith, o.1)

-- Runs in the order of Redis's times, none before `t`, where none comes later after its time stamp,
-- by Redis's clock, than the one before it: the lag, which is `t` less `u` at first, never grows.
abbrev pub Steady : ℕ → ℕ → List Call → Type 0
Steady t u [] = Unit
Steady t u (c ∷ cs) = (t ≤ c.at) × (c.at + u ≤ c.now + t) × Steady c.at c.now cs

pub Steady-Ordered : (t u : ℕ) (cs : List Call) → Steady t u cs → Ordered u cs
Steady-Ordered t u [] h = tt
Steady-Ordered t u (c ∷ cs) (late, lag, h) = (omega arith, Steady-Ordered c.at c.now cs h)

pub Ordered-keep : (t : ℕ) (p : Call → Bool) (cs : List Call) → Ordered t cs → Ordered t (keep p cs)
Ordered-keep t p [] o = tt
Ordered-keep t p (c ∷ cs) o =
    let rest = Ordered-keep c.now p cs o.1 in
    ground (arith, rest, Ordered-mono t c.now (keep p cs) o.0 rest)

log_after-Bounded :
    (w t : ℕ) (limit : ℤ) (log : List ℕ) (cs : List Call)
    → Ordered t cs
    → Bounded w (pos_part limit) t log
    → (t' : ℕ) × Bounded w (pos_part limit) t' (log_after w limit log cs)
unfolding log_after
log_after-Bounded w t limit log [] o b = (t, b)
log_after-Bounded w t limit log (c ∷ cs) o b =
    log_after-Bounded w c.now limit _ cs o.1 (record_at-Bounded w t c.now limit log o.0 b)

-- So the answers to calls in order admit at most `limit` of them in any stretch of `w`.
pub log_run-Bounded :
    (w t stop : ℕ) (limit : ℤ) (cs : List Call)
    → Ordered t cs
    → count (within w stop) (admitted_times (log_run w limit [] cs)) ≤ pos_part limit
log_run-Bounded w t stop limit cs o =
    let (t', b) = log_after-Bounded w t limit [] cs o tt in
    omega (
      arith,
      Bounded-within w (pos_part limit) t' stop _ b,
      count-log_after (within w stop) w limit [] cs,
    )
