-- ===== src/Config/Numbers.antt =====
-- The numbers of the environment (backend/internal/config/config.go): Atoi reads back what %d prints.
use Prim.Native.Char.{code}
use Prim.Native.String
use Prim.Native.String.{slice}
use text.Mathlib.TextLemmas.{nil-append, cons-append}
use vegait.Prelude.{
  ℕ, zero, suc, ◌+◌, ◌-◌, ◌*◌, ◌^◌, ◌≤◌, ◌<◌, ◌≡◌, refl, ◌∙◌, ap, List, [], ◌∷◌, ◌++◌, some, String,
  ℤ, pos, negsuc, pos_part, neg_part, length, All, arith,
}
use vegait.Limiter.Member.{
  format_uint, value, value-format_uint, IsDigit, format_uint-IsDigit, format_uint-nonempty,
}
use vegait.Http.{codes}
use vegait.Proxy.{show_int, text_of_digits}
use vegait.Config.{Env, digits_value, unsigned, positive, negative, atoi_codes, atoi, env_int}

codes-append : (s t : String) → codes (String.◌++◌ s t) ≡ codes s ++ codes t
codes-append String.[] t = ap codes (nil-append t)
codes-append (String.◌∷◌ c s) t =
    ap codes (cons-append c s t) ∙ ap (◌∷◌ (code c)) (codes-append s t)

-- The characters of the ten digits.
codes-digit : (k : ℕ) → k < 10 → codes (slice "0123456789" k (k + 1)) ≡ (48 + k) ∷ []
codes-digit zero h = refl
codes-digit (suc zero) h = refl
codes-digit (suc (suc zero)) h = refl
codes-digit (suc (suc (suc zero))) h = refl
codes-digit (suc (suc (suc (suc zero)))) h = refl
codes-digit (suc (suc (suc (suc (suc zero))))) h = refl
codes-digit (suc (suc (suc (suc (suc (suc zero)))))) h = refl
codes-digit (suc (suc (suc (suc (suc (suc (suc zero))))))) h = refl
codes-digit (suc (suc (suc (suc (suc (suc (suc (suc zero)))))))) h = refl
codes-digit (suc (suc (suc (suc (suc (suc (suc (suc (suc zero))))))))) h = refl
codes-digit (suc (suc (suc (suc (suc (suc (suc (suc (suc (suc k)))))))))) h = absurd (omega arith)

codes-text_of_digits : (ds : List ℕ) → All IsDigit ds → codes (text_of_digits ds) ≡ ds
codes-text_of_digits [] h = refl
codes-text_of_digits (d ∷ ds) h =
    let same : 48 + (d - 48) ≡ d = omega arith in
    codes-append (slice "0123456789" (d - 48) (d - 48 + 1)) (text_of_digits ds)
    ∙ cc (codes-digit (d - 48) (omega arith), same, codes-text_of_digits ds h.1)

digits_value-eq :
    (acc : ℕ) (ds : List ℕ) → All IsDigit ds → digits_value acc ds ≡ some (value acc ds)
unfolding value
digits_value-eq acc [] h = refl
digits_value-eq acc (d ∷ ds) h = ground (arith, digits_value-eq (acc * 10 + (d - 48)) ds h.1)

-- A text of digits is read as its value, if that fits.
unsigned-eq : (ds : List ℕ) → All IsDigit ds → 0 < length ds → unsigned ds ≡ some (value 0 ds)
unsigned-eq [] h k = absurd (omega arith)
unsigned-eq (d ∷ ds) h k = digits_value-eq 0 (d ∷ ds) h

atoi_codes-digits :
    (ds : List ℕ) → All IsDigit ds → 0 < length ds → atoi_codes ds ≡ positive (unsigned ds)
atoi_codes-digits [] h k = absurd (omega arith)
atoi_codes-digits (d ∷ ds) h k = ground arith

unsigned-format_uint : (n : ℕ) → unsigned (format_uint n) ≡ some n
unsigned-format_uint n =
    unsigned-eq (format_uint n) (format_uint-IsDigit n) (format_uint-nonempty n)
    ∙ ap some (value-format_uint n)

positive-eq : (n : ℕ) → n < 2 ^ 63 → positive (some n) ≡ some (pos n)
positive-eq n h = ground arith

negative-eq : (n : ℕ) → suc n ≤ 2 ^ 63 → negative (some (suc n)) ≡ some (negsuc n)
negative-eq n h = ground arith

pub atoi-show_int : (n : ℤ) → pos_part n < 2 ^ 63 → neg_part n ≤ 2 ^ 63 → atoi (show_int n) ≡ some n
unfolding atoi show_int
atoi-show_int (pos n) h k =
    ap atoi_codes (codes-text_of_digits (format_uint n) (format_uint-IsDigit n))
    ∙ atoi_codes-digits (format_uint n) (format_uint-IsDigit n) (format_uint-nonempty n)
    ∙ ap positive (unsigned-format_uint n)
    ∙ positive-eq n h
atoi-show_int (negsuc n) h k =
    ap atoi_codes (
      codes-append "-" (text_of_digits (format_uint (suc n)))
      ∙ ap (◌∷◌ b'-') (codes-text_of_digits (format_uint (suc n)) (format_uint-IsDigit (suc n))))
    ∙ ap negative (unsigned-format_uint (suc n))
    ∙ negative-eq n k

-- A variable that holds an int64 as %d prints it, of either sign, is read as that number, whatever the
-- fallback is.
pub env_int-show_int :
    (env : Env) (key : String) (n fallback : ℤ)
    → pos_part n < 2 ^ 63
    → neg_part n ≤ 2 ^ 63
    → env key ≡ some (show_int n)
    → env_int env key fallback ≡ n
unfolding env_int
env_int-show_int env key n fallback h k set = rw (env_int, set) (rw (atoi-show_int n h k) refl)
