-- ===== src/Limiter/Script/Agreement.antt =====
-- When a Redis store and a log of admitted requests say the same of one client's window, and that
-- slidingWindowLua of backend/internal/limiter/limiter.go keeps them saying so.
use mathlib.Core.Path.{fun_ext}
use vegait.Prelude.{
  ℕ, ◌+◌, ◌*◌, ◌/◌, ◌≤◌, ◌≡◌, ◌∙◌, refl, ap, sym, ◌⊎◌, inl, inr, Bool, false, not, List, [], ◌∷◌,
  String, arith, ltb, ◌-ℤ◌, pos, count, keep, length-keep, count-keep, count-keep-le, keep-not,
  count-Perm, Bool-cases,
}
use vegait.Limiter.Redis.{Entry, eq_bytes, has_member, in_range, Redis, RedisLaws}
use vegait.Limiter.Script.Log.{in_window}

abbrev pub entry_in_window : ℕ → ℕ → Entry → Bool
entry_in_window w now e = in_window w now e.score

-- No entry of the log is newer than `t`.
abbrev pub Past : ℕ → List ℕ → Type 0
Past t [] = Unit
Past t (x ∷ log) = (x ≤ t) × Past t log

pub Past-mono : {t t' : ℕ} (log : List ℕ) → t ≤ t' → Past t log → Past t' log
Past-mono [] h p = tt
Past-mono (x ∷ log) h p = (omega arith, Past-mono log h p.1)

count-Past : (w t c : ℕ) (log : List ℕ) → Past t log → t + w ≤ c → count (in_window w c) log ≡ 0
count-Past w t c [] p h = refl
count-Past w t c (x ∷ log) p h = ground (arith, count-Past w t c log p.1 h)

-- What the script keeps are the entries in the window.
kept :
    (w now : ℕ) (e : Entry) → not (in_range (pos 0) (pos now -ℤ pos w) e) ≡ entry_in_window w now e
unfolding ◌-ℤ◌
kept w now e = ground arith

module _ (r : Redis) where
  open r use {Store, entries, zremrangebyscore, zcard, zadd, expire}

  -- From Redis's time `t` on, the store counts what the log counts in every window that ends with a call
  -- whose lag behind its time stamp is no longer than that of the time stamp `u` at `t`.
  pub record Agrees (w t u : ℕ) (k : String) (s : Store) (log : List ℕ) : Type 0 where
    pub counted :
        (now c : ℕ)
        → t ≤ now
        → now + u ≤ c + t
        → count (entry_in_window w c) (entries s now k) ≡ count (in_window w c) log
    pub past : Past u log

  -- From time `t` on, the key holds no entry with this member.
  abbrev pub Unstored : ℕ → String → Store → List ℕ → Type 0
  Unstored t k s m = (now : ℕ) → t ≤ now → count (has_member m) (entries s now k) ≡ 0

  -- The store after the removal, and after the two writes of an admitted request.
  abbrev pub cleared : ℕ → ℕ → ℕ → String → Store → Store
  cleared w at now k s = zremrangebyscore at k (pos 0) (pos now -ℤ pos w) s

  abbrev pub renewed : ℕ → ℕ → ℕ → String → List ℕ → Store → Store
  renewed w at now k m s = expire at k (pos ((w + 999) / 1000)) (zadd at k now m s)

module _ (r : Redis) (laws : RedisLaws r) where
  open r use {Store, entries, zremrangebyscore, zcard, zadd, expire}

  module _ (w t u at now : ℕ) (k : String) (s : Store) (log : List ℕ) (h : t ≤ at)
      (d : at + u ≤ now + t) (a : Agrees r w t u k s log) where
    abbrev after : Store
    after = cleared r w at now k s

    entries-cleared :
        (later : ℕ)
        → at ≤ later
        → entries after later k ≡ keep (entry_in_window w now) (entries s later k)
    entries-cleared later l =
        laws.zremrangebyscore_lem at later k (pos 0) (pos now -ℤ pos w) s l
        ∙ ap (λ p. keep p (entries s later k)) (fun_ext (kept w now))

    pub cleared-Agrees : Agrees r w at now k after log
    cleared-Agrees = record {
      counted = λ later c l m. rw (entries-cleared later l) (
          count-keep _ _ (entries s later k) (λ e inside. ground arith)
          ∙ a.counted later c (omega arith) (omega arith));
      past = Past-mono log (omega arith) a.past;
    }

    pub zcard-cleared : zcard at k after ≡ count (in_window w now) log
    zcard-cleared =
        laws.zcard_lem at k after
        ∙ (rw (entries-cleared at (omega arith))
            (length-keep _ (entries s at k) ∙ a.counted at now h d))

    pub cleared-Unstored : (m : List ℕ) → Unstored r t k s m → Unstored r at k after m
    cleared-Unstored m v later l = rw (entries-cleared later l) (
        omega (
          arith,
          v later (omega arith),
          count-keep-le (has_member m) (entry_in_window w now) (entries s later k),
        ))

  module _ (w at now : ℕ) (k : String) (s : Store) (m : List ℕ) (u : Unstored r at k s m) where
    abbrev stored : Store
    stored = zadd at k now m s

    abbrev held : Store
    held = renewed r w at now k m s

    -- Until the key expires it holds one entry more; then it holds none.
    entries-renewed :
        (later : ℕ)
        → at ≤ later
        → ((p : Entry → Bool)
            → count p (entries held later k)
              ≡ count p (record { score = now; member = m } ∷ entries s at k))
          ⊎ ((entries held later k ≡ []) × (at + w ≤ later))
    entries-renewed later l = elim (Bool-cases (ltb later (at + 1000 * ((w + 999) / 1000)))) [
      | inl alive ↦ inl λ p. rw (
        laws.expire_alive at later k ((w + 999) / 1000) stored l (ground arith),
        count-Perm p (laws.zadd_lem at k now m s),
        keep-not (has_member m) (entries s at k) (u at (omega arith)),
      )
      | inr gone ↦
          inr (laws.expire_dead at later k ((w + 999) / 1000) stored (ground arith), ground arith)
    ]

    pub renewed-Agrees :
        (log : List ℕ) → Agrees r w at now k s log → Agrees r w at now k held (now ∷ log)
    renewed-Agrees log a = record {
      counted = λ later c l n. elim (entries-renewed later l) [
        | inl more ↦
            more (entry_in_window w c) ∙ ap (◌+◌ _) (a.counted at c (omega arith) (omega arith))
        | inr (gone, over) ↦
            rw gone (sym (count-Past w now c (now ∷ log) (omega arith, a.past) (omega arith)))
      ];
      past = (omega arith, a.past);
    }

    pub renewed-Unstored :
        (m' : List ℕ) → eq_bytes m m' ≡ false → Unstored r at k s m' → Unstored r at k held m'
    renewed-Unstored m' d v later l = elim (entries-renewed later l) [
      | inl more ↦ more (has_member m') ∙ ground (arith, v at)
      | inr (gone, over) ↦ rw gone
    ]
