-- ===== src/Limiter/Member.antt =====
-- The sorted-set members of allowRedis (backend/internal/limiter/limiter.go): a time in nanoseconds
-- and a number of the process, each as strconv.FormatInt and strconv.FormatUint write it.
use vegait.Prelude.{
  ℕ, zero, suc, ◌+◌, ◌-◌, ◌*◌, ◌/◌, ◌%◌, ◌≤◌, ◌<◌, ◌≡◌, ◌∙◌, ◌≢◌, refl, ap, sym, true, false, List,
  [], ◌∷◌, ◌++◌, arith, ltb, ◌==◌, All, Bool-cases, length, length-append, inl, inr, if◌then◌else◌,
}
use vegait.Limiter.Redis.{eq_bytes}

-- Decimal digits, the highest first. The fuel bounds their number.
digits : ℕ → ℕ → List ℕ
digits zero n = []
digits (suc f) n = if ltb n 10 then (48 + n) ∷ [] else digits f (n / 10) ++ (48 + n % 10) ∷ []

unfoldable pub format_uint : ℕ → List ℕ
unfolding digits
format_uint n = digits (suc n) n

-- member := FormatInt(nowNS, 10) + "-" + FormatUint(seq, 10)
unfoldable pub member : ℕ → ℕ → List ℕ
member now_ns seq = format_uint now_ns ++ b'-' ∷ format_uint seq

-- A reader of decimal digits.
unfoldable pub value : ℕ → List ℕ → ℕ
value acc [] = acc
value acc (d ∷ ds) = value (acc * 10 + (d - 48)) ds

value-append : (acc : ℕ) (xs ys : List ℕ) → value acc (xs ++ ys) ≡ value (value acc xs) ys
unfolding value
value-append acc [] ys = refl
value-append acc (x ∷ xs) ys = value-append (acc * 10 + (x - 48)) xs ys

value-digits : (f n : ℕ) → n < f → value 0 (digits f n) ≡ n
unfolding value digits
value-digits zero n h = elim h [ ]
value-digits (suc f) n h = elim (Bool-cases (ltb n 10)) [
  | inl small ↦ rw small (omega arith)
  | inr large ↦
      rw (large, value-append 0 (digits f (n / 10)), value-digits f (n / 10) (ground arith))
        (omega arith)
]

-- The reader gets back what is written.
pub value-format_uint : (n : ℕ) → value 0 (format_uint n) ≡ n
unfolding format_uint
value-format_uint n = value-digits (suc n) n (omega arith)

format_uint-injective : (m n : ℕ) → format_uint m ≡ format_uint n → m ≡ n
unfolding format_uint
format_uint-injective m n e = sym (value-format_uint m) ∙ ap (value 0) e ∙ value-format_uint n

abbrev pub IsDigit : ℕ → Type 0
IsDigit c = (48 ≤ c) × (c < 58)

All-append : (xs ys : List ℕ) → All IsDigit xs → All IsDigit ys → All IsDigit (xs ++ ys)
All-append [] ys h k = k
All-append (x ∷ xs) ys h k = (h.0, All-append xs ys h.1 k)

digits-IsDigit : (f n : ℕ) → All IsDigit (digits f n)
unfolding digits
digits-IsDigit zero n = tt
digits-IsDigit (suc f) n = elim (Bool-cases (ltb n 10)) [
  | inl small ↦ rw small ((omega arith, ground arith), tt)
  | inr large ↦ rw large (All-append _ _ (digits-IsDigit f (n / 10)) (omega arith))
]

pub format_uint-IsDigit : (n : ℕ) → All IsDigit (format_uint n)
unfolding format_uint
format_uint-IsDigit n = digits-IsDigit (suc n) n

pub format_uint-nonempty : (n : ℕ) → 0 < length (format_uint n)
unfolding format_uint digits
format_uint-nonempty n = elim (Bool-cases (ltb n 10)) [
  | inl small ↦ rw small (omega arith)
  | inr large ↦ rw large (omega (arith, length-append (digits n (n / 10)) ((48 + n % 10) ∷ [])))
]

after_dash : List ℕ → List ℕ
after_dash [] = []
after_dash (c ∷ cs) = if c == b'-' then cs else after_dash cs

after_dash-append : (xs ys : List ℕ) → All IsDigit xs → after_dash (xs ++ b'-' ∷ ys) ≡ ys
unfolding after_dash
after_dash-append [] ys h = refl
after_dash-append (x ∷ xs) ys h = ground (arith, after_dash-append xs ys)

-- Members of different numbers differ, whatever their times are.
pub member-injective : (t t' m n : ℕ) → member t m ≡ member t' n → m ≡ n
unfolding member format_uint
member-injective t t' m n e = format_uint-injective m n (
    sym (after_dash-append (format_uint t) (format_uint m) (digits-IsDigit (suc t) t))
    ∙ ap after_dash e
    ∙ after_dash-append (format_uint t') (format_uint n) (digits-IsDigit (suc t') t'))

pub eq_bytes→eq : (xs ys : List ℕ) → eq_bytes xs ys ≡ true → xs ≡ ys
eq_bytes→eq [] [] h = refl
eq_bytes→eq [] (y ∷ ys) h = cc
eq_bytes→eq (x ∷ xs) [] h = cc
eq_bytes→eq (x ∷ xs) (y ∷ ys) h = ground (arith, eq_bytes→eq xs ys)

pub eq_bytes-member : (t t' m n : ℕ) → m ≢ n → eq_bytes (member t m) (member t' n) ≡ false
eq_bytes-member t t' m n h = elim (Bool-cases (eq_bytes (member t m) (member t' n))) [
  | inl same ↦ absurd (h (member-injective t t' m n (eq_bytes→eq _ _ same)))
  | inr differ ↦ differ
]
