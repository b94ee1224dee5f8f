-- ===== src/Limiter/Script/Cluster.antt =====
-- slidingWindowLua of backend/internal/limiter/limiter.go, run for many clients by a whole cluster:
-- the runs for one key answer as that client's log of admitted requests does, so they keep its bound.
use vegait.Prelude.{
  ℕ, ◌+◌, ◌≤◌, ◌≡◌, refl, ap, sym, inl, inr, false, List, [], ◌∷◌, String, arith, ℤ, pos, pos_part,
  count, keep, All, Bool-cases, str_eq, eq_iff,
}
use mathlib.Core.Path.{subst}
use vegait.Limiter.Redis.{eq_bytes, Redis, RedisLaws}
use vegait.Limiter.Script.Log.{admits, log_run, admitted_times, is_for, answer_for}
use vegait.Limiter.Script.Bound.{within, Steady, Steady-Ordered, Ordered-keep, log_run-Bounded}
use vegait.Limiter.Script.Agreement.{Agrees, Unstored, Past-mono}
use vegait.Limiter.Script.Refinement.{Answers, sliding_window-Answers, sliding_window-frame}
use vegait.Limiter.Script.{Call, sliding_window, run}

-- The calls for the key all name one window and one limit.
abbrev pub SameSettings : String → ℕ → ℤ → List Call → Type 0
SameSettings k w limit = All (λ c. c.key ≡ k → (c.window_ms ≡ pos w) × (c.limit ≡ limit))

-- No two calls bring the same member.
abbrev pub DistinctMembers : List Call → Type 0
DistinctMembers [] = Unit
DistinctMembers (c ∷ cs) = All (λ d. eq_bytes c.member d.member ≡ false) cs × DistinctMembers cs

module _ (r : Redis) (laws : RedisLaws r) (k : String) (w : ℕ) (limit : ℤ) where
  open r use {Store, entries}

  abbrev AllUnstored : ℕ → Store → List Call → Type 0
  AllUnstored t s = All (λ c. Unstored r t k s c.member)

  own_Answers :
      (t u : ℕ) (c : Call) (s : Store) (log : List ℕ)
      → c.key ≡ k
      → (c.window_ms ≡ pos w) × (c.limit ≡ limit)
      → t ≤ c.at
      → c.at + u ≤ c.now + t
      → Agrees r w t u k s log
      → Unstored r t k s c.member
      → Answers r laws w t
          (record c { key = k; window_ms = pos w; limit = limit })
          s
          log
          (sliding_window r c.at c s)
  own_Answers t u c s log e (e', e'') h d' a v =
      subst
        (λ d.
          Answers r laws w t (record c { key = k; window_ms = pos w; limit = limit }) s log
            (sliding_window r c.at d s))
        (λ i. record c { key = sym e i; window_ms = sym e' i; limit = sym e'' i })
        (sliding_window-Answers r laws w t u c.at c.now k limit c.member s log h d' a v)

  later-Unstored :
      (t now : ℕ) (m : List ℕ) (s s' : Store) (cs : List Call)
      → ((m' : List ℕ) → eq_bytes m m' ≡ false → Unstored r t k s m' → Unstored r now k s' m')
      → All (λ d. eq_bytes m d.member ≡ false) cs
      → AllUnstored t s cs
      → AllUnstored now s' cs
  later-Unstored t now m s s' [] f d u = tt
  later-Unstored t now m s s' (c ∷ cs) f d u =
      (f c.member d.0 u.0, later-Unstored t now m s s' cs f d.1 u.1)

  other-Unstored :
      (t now : ℕ) (s s' : Store) (cs : List Call)
      → t ≤ now
      → ((later : ℕ) → entries s' later k ≡ entries s later k)
      → AllUnstored t s cs
      → AllUnstored now s' cs
  other-Unstored t now s s' [] h e u = tt
  other-Unstored t now s s' (c ∷ cs) h e u =
      (λ later l. rw (e later) (u.0 later (omega arith)), other-Unstored t now s s' cs h e u.1)

  other-Agrees :
      (t u at now : ℕ) (s s' : Store) (log : List ℕ)
      → t ≤ at
      → at + u ≤ now + t
      → ((later : ℕ) → entries s' later k ≡ entries s later k)
      → Agrees r w t u k s log
      → Agrees r w at now k s' log
  other-Agrees t u at now s s' log h d e a = record {
    counted = λ later c l m. rw (e later) (a.counted later c (omega arith) (omega arith));
    past = Past-mono log (omega arith) a.past;
  }

  run-log_run :
      (t u : ℕ) (cs : List Call) (s : Store) (log : List ℕ)
      → Steady t u cs
      → SameSettings k w limit cs
      → DistinctMembers cs
      → Agrees r w t u k s log
      → AllUnstored t s cs
      → keep (answer_for k) (run r cs s) ≡ log_run w limit log (keep (is_for k) cs)
  unfolding run log_run
  run-log_run t u [] s log o same d a v = refl
  run-log_run t u (c ∷ cs) s log (late, lag, o) same d a v = elim (Bool-cases (str_eq c.key k)) [
    | inl own ↦
        let e = (eq_iff c.key k).0 own in
        let (answer, a', f) = own_Answers t u c s log e (same.0 e) late lag a v.0 in
        rw (own, answer)
          (ap (◌∷◌ (c, admits w limit c.now log)) (
            run-log_run c.at c.now cs _ _ o same.1 d.1 a'
              (later-Unstored t c.at c.member s _ cs f d.0 v.1)))
    | inr other ↦
        let e = λ (later : ℕ).
          sliding_window-frame r laws c.at later c k s (λ p. ground (arith, eq_iff c.key k)) in
        rw other (
          run-log_run c.at c.now cs _ log o same.1 d.1
            (other-Agrees t u c.at c.now s _ log late lag e a)
            (other-Unstored t c.at s _ cs late e v.1))
  ]

  -- A key that holds nothing agrees with the empty log.
  empty-Agrees : (t u : ℕ) (s : Store) → ((now : ℕ) → entries s now k ≡ []) → Agrees r w t u k s []
  empty-Agrees t u s e = record { counted = λ now c l m. rw (e now); past = tt }

  empty-Unstored :
      (t : ℕ) (s : Store) (cs : List Call) → ((now : ℕ) → entries s now k ≡ []) → AllUnstored t s cs
  empty-Unstored t s [] e = tt
  empty-Unstored t s (c ∷ cs) e = (λ now l. rw (e now), empty-Unstored t s cs e)

  -- From a store in which the key holds nothing, for runs in the order in which Redis makes them, whose
  -- members differ and whose runs for the key name one window and one limit: the script answers the
  -- runs for the key exactly as that key's log of admitted requests does, whatever runs for other keys
  -- stand between them, and although the key expires. The delay from the reading of a time stamp to
  -- its run, by Redis's clock, is any at first but never grows from a run to the next: EXPIRE has no
  -- time to spare over the window.
  pub run-eq-log_run :
      (t u : ℕ) (cs : List Call) (s : Store)
      → ((now : ℕ) → entries s now k ≡ [])
      → Steady t u cs
      → SameSettings k w limit cs
      → DistinctMembers cs
      → keep (answer_for k) (run r cs s) ≡ log_run w limit [] (keep (is_for k) cs)
  run-eq-log_run t u cs s e o same d =
      run-log_run t u cs s [] o same d (empty-Agrees t u s e) (empty-Unstored t s cs e)

  -- From a store in which the key holds nothing, for runs in the order in which Redis makes them, whose
  -- members differ and whose runs for the key name one window and one limit, and where the delay from a
  -- time stamp's reading to its run, by Redis's clock, never grows: of the runs for the key that the
  -- script admits, at most `limit` (none for a limit below 0) have their time stamps in any one stretch of
  -- the window's length, wherever the stretch ends.
  pub run-le-limit :
      (t u stop : ℕ) (cs : List Call) (s : Store)
      → ((now : ℕ) → entries s now k ≡ [])
      → Steady t u cs
      → SameSettings k w limit cs
      → DistinctMembers cs
      → count (within w stop) (admitted_times (keep (answer_for k) (run r cs s))) ≤ pos_part limit
  run-le-limit t u stop cs s e o same d = rw (run-eq-log_run t u cs s e o same d) (
      log_run-Bounded w u stop limit (keep (is_for k) cs)
        (Ordered-keep u (is_for k) cs (Steady-Ordered t u cs o)))
