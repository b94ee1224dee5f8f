-- ===== src/Database/Analytics/Orderless.antt =====
-- What the latencies of the summary (backend/internal/database/database.go) depend on: the allowed rows,
-- and not the blocked ones nor the order of the table.
use mathlib.Core.List.{Perm, Permᴰ}
use mathlib.Core.List.Perm
use mathlib.Core.Logic.{∥∥₁_elim}
use vegait.Prelude.{
  ℕ, ◌≡◌, refl, sym, ◌∙◌, ap, length-Perm, Bool, inl, inr, List, [], ◌∷◌, String, ℤ, keep, arith,
  Bool-cases,
}
use vegait.Database.{LogEntry}
use vegait.Limiter.Allow.{ok}
use vegait.Database.Analytics.{
  Numeric, NumericLaws, delivered, latency, matches, is_allowed, allowed_latencies,
  average_or_nought, percentile_or_nought, days_ago, summarize, AnalyticsSummary,
  fetch_analytics_summary,
}

module _ {A : Type 0} where
  keep-Permᴰ : (p : A → Bool) {xs ys : List A} → Permᴰ xs ys → Perm (keep p xs) (keep p ys)
  keep-Permᴰ p Permᴰ.nil = Perm.nil
  keep-Permᴰ p (Permᴰ.cons {a} {b} e h) = elim (Bool-cases (p b)) [
    | inl kept ↦ rw (e, kept) (Perm.cons b (keep-Permᴰ p h))
    | inr out ↦ rw (e, out) (keep-Permᴰ p h)
  ]
  keep-Permᴰ p (Permᴰ.swap {a' = a'} {b' = b'} {l = l} e f) = elim (Bool-cases (p a')) [
    | inl kept ↦ elim (Bool-cases (p b')) [
      | inl kept' ↦ rw (e, f, kept, kept') (Perm.swap a' b' (keep p l))
      | inr out' ↦ rw (e, f, kept, out') (Perm.refl (a' ∷ keep p l))
    ]
    | inr out ↦ elim (Bool-cases (p b')) [
      | inl kept' ↦ rw (e, f, out, kept') (Perm.refl (b' ∷ keep p l))
      | inr out' ↦ rw (e, f, out, out') (Perm.refl (keep p l))
    ]
  ]
  keep-Permᴰ p (Permᴰ.trans h k) = Perm.trans (keep-Permᴰ p h) (keep-Permᴰ p k)

  keep-Perm : (p : A → Bool) {xs ys : List A} → Perm xs ys → Perm (keep p xs) (keep p ys)
  keep-Perm p h = ∥∥₁_elim h (hlevel) (keep-Permᴰ p)

  keep_comm : (p q : A → Bool) (xs : List A) → keep p (keep q xs) ≡ keep q (keep p xs)
  keep_comm p q [] = refl
  keep_comm p q (x ∷ xs) = ground (arith, keep_comm p q xs)

-- A value of a group that is `nought` for no rows.
or_nought_perm :
    {F : Type 0} (nought : F) (f g : List ℕ → F)
    → (f [] ≡ nought)
    → ((x : ℕ) (xs : List ℕ) → f (x ∷ xs) ≡ g (x ∷ xs))
    → ((xs ys : List ℕ) → Perm xs ys → g xs ≡ g ys)
    → (xs ys : List ℕ) → Perm xs ys
    → f xs ≡ f ys
or_nought_perm nought f g e h k [] [] p = refl
or_nought_perm nought f g e h k [] (y ∷ ys) p = absurd (omega (arith, length-Perm {0} p))
or_nought_perm nought f g e h k (x ∷ xs) [] p = absurd (omega (arith, length-Perm {0} p))
or_nought_perm nought f g e h k (x ∷ xs) (y ∷ ys) p = h x xs ∙ k (x ∷ xs) (y ∷ ys) p ∙ sym (h y ys)

ok-injective : {A : Type 0} {a b : A} → ok a ≡ ok b → b ≡ a
ok-injective h = cc

module _ (n : Numeric) (laws : NumericLaws n) where
  average_perm : (xs ys : List ℕ) → Perm xs ys → average_or_nought n xs ≡ average_or_nought n ys
  average_perm =
      or_nought_perm n.nought (average_or_nought n) n.average refl (λ x xs. refl) laws.average_perm

  percentile_perm :
      (p : ℕ) (xs ys : List ℕ)
      → Perm xs ys
      → percentile_or_nought n p xs ≡ percentile_or_nought n p ys
  percentile_perm p =
      or_nought_perm n.nought (percentile_or_nought n p) (n.percentile p) refl (λ x xs. refl)
        (laws.percentile_perm p)

  -- Two tables whose allowed rows are the same up to their order have the same mean and percentiles of
  -- the latency, for any client and number of days: the blocked rows, which have a latency of 0, do not
  -- count, and neither does the order of the rows. Both queries are answered in full.
  pub summary_latencies :
      (now : ℕ) (table table' : List LogEntry) (client : String) (days : ℤ)
      → Perm (keep is_allowed table) (keep is_allowed table')
      → (s s' : AnalyticsSummary n)
      → fetch_analytics_summary n delivered now table client days ≡ ok s
      → fetch_analytics_summary n delivered now table' client days ≡ ok s'
      → (s.avg_latency ≡ s'.avg_latency)
        × (s.p50_latency ≡ s'.p50_latency)
        × (s.p95_latency ≡ s'.p95_latency)
        × (s.p99_latency ≡ s'.p99_latency)
  unfolding fetch_analytics_summary summarize allowed_latencies
  summary_latencies now table table' client days h s s' e e' =
      let m = matches (days_ago now days) client in
      let same : Perm (allowed_latencies (keep m table)) (allowed_latencies (keep m table')) =
        rw (keep_comm is_allowed m table, keep_comm is_allowed m table')
          (Perm.map latency (keep-Perm m h)) in
      let t = ok-injective e in
      let t' = ok-injective e' in
      (
        ap (λ (x : AnalyticsSummary n). x.avg_latency) t
            ∙ average_perm _ _ same
            ∙ sym (ap (λ (x : AnalyticsSummary n). x.avg_latency) t'),
        ap (λ (x : AnalyticsSummary n). x.p50_latency) t
            ∙ percentile_perm 50 _ _ same
            ∙ sym (ap (λ (x : AnalyticsSummary n). x.p50_latency) t'),
        ap (λ (x : AnalyticsSummary n). x.p95_latency) t
            ∙ percentile_perm 95 _ _ same
            ∙ sym (ap (λ (x : AnalyticsSummary n). x.p95_latency) t'),
        ap (λ (x : AnalyticsSummary n). x.p99_latency) t
            ∙ percentile_perm 99 _ _ same
            ∙ sym (ap (λ (x : AnalyticsSummary n). x.p99_latency) t'),
      )
