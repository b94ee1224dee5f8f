-- ===== src/Http/Headers.antt =====
-- Reading a header map after a write.
use vegait.Prelude.{
  ℕ, ◌≡◌, refl, ◌∙◌, ap, true, false, not, List, [], ◌∷◌, ◌++◌, String, Bool-cases, inl, inr, arith,
  map, keep,
}
use vegait.Limiter.Redis.{eq_bytes}
use vegait.Limiter.Member.{eq_bytes→eq}
use vegait.Http.{Header, same_name, get, set, codes, to_lower}

eq_bytes_refl : (xs : List ℕ) → eq_bytes xs xs ≡ true
eq_bytes_refl [] = refl
eq_bytes_refl (x ∷ xs) = ground (arith, eq_bytes_refl xs)

same_name_refl : (k : String) → same_name k k ≡ true
unfolding same_name
same_name_refl k = eq_bytes_refl (map to_lower (codes k))

-- A name like one of two unlike names is unlike the other.
same_name_apart :
    (e j k : String) → same_name k j ≡ false → same_name e k ≡ true → same_name e j ≡ false
unfolding same_name
same_name_apart e j k d h =
    ap (λ z. eq_bytes z (map to_lower (codes j)))
      (eq_bytes→eq (map to_lower (codes e)) (map to_lower (codes k)) h)
    ∙ d

get-keep :
    (j k : String) (h : Header)
    → same_name k j ≡ false
    → get j (keep (λ (e : String × String). not (same_name e.0 k)) h) ≡ get j h
unfolding get
get-keep j k [] d = refl
get-keep j k ((e, v) ∷ h) d = elim (Bool-cases (same_name e k)) [
  | inl same ↦ rw (same, same_name_apart e j k d same) (get-keep j k h d)
  | inr other ↦ rw (other, get-keep j k h d) refl
]

get-append_other :
    (j k v : String) (h : Header) → same_name k j ≡ false → get j (h ++ (k, v) ∷ []) ≡ get j h
unfolding get
get-append_other j k v [] d = rw d refl
get-append_other j k v ((e, w) ∷ h) d = rw (get-append_other j k v h d) refl

get-append_removed :
    (k v : String) (h : Header)
    → get k (keep (λ (e : String × String). not (same_name e.0 k)) h ++ (k, v) ∷ []) ≡ v
unfolding get
get-append_removed k v [] = rw (same_name_refl k) refl
get-append_removed k v ((e, w) ∷ h) = elim (Bool-cases (same_name e k)) [
  | inl same ↦ rw same (get-append_removed k v h)
  | inr other ↦ rw (other, get, other) (get-append_removed k v h)
]

pub get-set : (k v : String) (h : Header) → get k (set k v h) ≡ v
unfolding set
get-set k v h = get-append_removed k v h

pub get-set_other :
    (j k v : String) (h : Header) → same_name k j ≡ false → get j (set k v h) ≡ get j h
unfolding set
get-set_other j k v h d = get-append_other j k v _ d ∙ get-keep j k h d

-- http.Error's own headers are not the gateway's.
pub get-set_error :
    (v w u : String) (h : Header)
    → get "X-Gateway-Instance"
        (set "X-Content-Type-Options" v (set "Content-Type" w (set "X-Gateway-Instance" u h)))
      ≡ u
unfolding same_name
get-set_error v w u h =
    get-set_other "X-Gateway-Instance" "X-Content-Type-Options" v _ refl
    ∙ get-set_other "X-Gateway-Instance" "Content-Type" w _ refl
    ∙ get-set "X-Gateway-Instance" u h
