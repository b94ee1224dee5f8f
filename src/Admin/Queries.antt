-- ===== src/Admin/Queries.antt =====
-- The parameters of the analytics handlers: QueryInt of backend/internal/httputil/response.go.
use vegait.Prelude.{
  ◌≡◌, refl, ◌⊎◌, inl, inr, false, some, String, str_eq, ℤ, pos, leb_ℤ, ◌<ℤ◌, ◌≤ℤ◌, arith,
  Bool-cases, Option-cases,
}
use vegait.Config.{atoi}
use vegait.Admin.{query_int}

-- With a fallback above 0, QueryInt gives a number above 0: the one that the parameter spells, or the
-- fallback where it is missing, not a number, or 0 or less.
pub query_int-positive :
    (v : String) (fallback : ℤ)
    → pos 0 <ℤ fallback
    → (pos 0 <ℤ query_int v fallback)
      × ((atoi v ≡ some (query_int v fallback))
          ⊎ ((query_int v fallback ≡ fallback)
              × ((n : ℤ) → atoi v ≡ some n → str_eq v "" ≡ false → n ≤ℤ pos 0)))
unfolding query_int
query_int-positive v fallback h = elim (Bool-cases (str_eq v "")) [
  | inl empty ↦ rw empty (h, inr (refl, λ n e d. ground arith))
  | inr given ↦ elim (Option-cases (atoi v)) [
    | inl bad ↦ rw (given, query_int, bad) (h, inr (refl, λ n e d. cc))
    | inr (n, good) ↦ elim (Bool-cases (leb_ℤ n (pos 0))) [
      | inl low ↦ rw (given, query_int, good) (rw low (h, inr (refl, λ m e d. ground arith)))
      | inr high ↦ rw (given, query_int, good) (rw high (ground arith, inl refl))
    ]
  ]
]
