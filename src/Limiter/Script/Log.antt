-- ===== src/Limiter/Script/Log.antt =====
-- What the sliding window of backend/internal/limiter/limiter.go promises, as a log: the times of the
-- admitted requests of one client, newest first. A request is admitted exactly when fewer than
-- `limit` admitted ones lie in the window that ends with it.
use vegait.Prelude.{
  ℕ, ◌+◌, ◌≡◌, inl, inr, Bool, true, false, List, [], ◌∷◌, String, arith, str_eq, ltb, ltb_ℤ, ℤ,
  pos, count, Bool-cases, if◌then◌else◌,
}
use vegait.Limiter.Script.{Call}

abbrev pub in_window : ℕ → ℕ → ℕ → Bool
in_window w now x = ltb now (x + w)

unfoldable pub admits : ℕ → ℤ → ℕ → List ℕ → Bool
admits w limit now log = ltb_ℤ (pos (count (in_window w now) log)) limit

abbrev pub record_at : ℕ → Bool → List ℕ → List ℕ
record_at now true log = now ∷ log
record_at now false log = log

-- The answers of the log to a list of calls, and the log afterwards.
unfoldable pub log_run : ℕ → ℤ → List ℕ → List Call → List (Call × Bool)
log_run w limit log [] = []
log_run w limit log (c ∷ cs) =
    let a = admits w limit c.now log in (c, a) ∷ log_run w limit (record_at c.now a log) cs

unfoldable pub log_after : ℕ → ℤ → List ℕ → List Call → List ℕ
log_after w limit log [] = log
log_after w limit log (c ∷ cs) =
    log_after w limit (record_at c.now (admits w limit c.now log) log) cs

-- The times of the admitted calls, oldest first.
abbrev pub admitted_times : List (Call × Bool) → List ℕ
admitted_times [] = []
admitted_times ((c, a) ∷ cs) = if a then c.now ∷ admitted_times cs else admitted_times cs

abbrev pub is_for : String → Call → Bool
is_for k c = str_eq c.key k

abbrev pub answer_for : String → Call × Bool → Bool
answer_for k (c, a) = str_eq c.key k

-- What the log has afterwards is what it had, and the admitted calls.
pub count-log_after :
    (p : ℕ → Bool) (w : ℕ) (limit : ℤ) (log : List ℕ) (cs : List Call)
    → count p (log_after w limit log cs)
      ≡ count p (admitted_times (log_run w limit log cs)) + count p log
unfolding log_run log_after
count-log_after p w limit log [] = omega arith
count-log_after p w limit log (c ∷ cs) = elim (Bool-cases (admits w limit c.now log)) [
  | inl granted ↦ rw granted (omega (arith, count-log_after p w limit (c.now ∷ log) cs))
  | inr refused ↦ rw refused (count-log_after p w limit log cs)
]
