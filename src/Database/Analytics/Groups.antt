-- ===== src/Database/Analytics/Groups.antt =====
-- What GROUP BY and ORDER BY make of rows: groups with their keys in order, of which each holds exactly
-- the rows of its key.
use vegait.Prelude.{
  ◌≡◌, refl, sym, ◌∙◌, ◌↔◌, ap, inl, inr, Bool, true, false, ◌||◌, List, [], ◌∷◌, arith, Bool-cases,
  if◌then◌else◌, map, keep,
}
use vegait.Database.{LogEntry}
use vegait.Database.Analytics.{Order, put_row, group_by}

-- The order is a strict one, and two keys of which neither is before the other are the same.
pub record OrderLaws {ℓ} {K : Type ℓ} (o : Order K) : Type ℓ where
  pub same_iff : (a b : K) → (o.same a b ≡ true) ↔ (a ≡ b)
  pub before_irrefl : (a : K) → o.before a a ≡ false
  pub before_trans : (a b c : K) → o.before a b ≡ true → o.before b c ≡ true → o.before a c ≡ true
  pub before_total : (a b : K) → o.same a b ≡ false → o.before a b ≡ false → o.before b a ≡ true

module _ {ℓ} {K : Type ℓ} (order : Order K) (laws : OrderLaws order) (key : LogEntry → K) where
  -- Below the key of every group.
  abbrev pub Below : K → List (K × List LogEntry) → Type 0
  Below a [] = Unit
  Below a ((k, rows) ∷ groups) = (order.before a k ≡ true) × Below a groups

  abbrev pub Ascending : List (K × List LogEntry) → Type 0
  Ascending [] = Unit
  Ascending ((k, rows) ∷ groups) = Below k groups × Ascending groups

  -- The rows of one key, among all groups: none where the key has no group.
  unfoldable pub rows_of : K → List (K × List LogEntry) → List LogEntry
  rows_of k [] = []
  rows_of k ((j, rows) ∷ groups) = if order.same k j then rows else rows_of k groups

  Below-trans :
      (a b : K) (gs : List (K × List LogEntry)) → order.before a b ≡ true → Below b gs → Below a gs
  Below-trans a b [] h k = tt
  Below-trans a b ((c, rows) ∷ gs) h k = (laws.before_trans a b c h k.0, Below-trans a b gs h k.1)

  Below-put_row :
      (a : K) (e : LogEntry) (gs : List (K × List LogEntry))
      → order.before a (key e) ≡ true
      → Below a gs
      → Below a (put_row order key e gs)
  Below-put_row a e [] h k = (h, tt)
  Below-put_row a e ((j, rows) ∷ gs) h k = elim (Bool-cases (order.same (key e) j)) [
    | inl same ↦ rw same k
    | inr other ↦ elim (Bool-cases (order.before (key e) j)) [
      | inl first ↦ rw (other, first) (h, k)
      | inr later ↦ rw (other, later) (k.0, Below-put_row a e gs h k.1)
    ]
  ]

  put_row-Ascending :
      (e : LogEntry) (gs : List (K × List LogEntry))
      → Ascending gs
      → Ascending (put_row order key e gs)
  put_row-Ascending e [] h = (tt, tt)
  put_row-Ascending e ((j, rows) ∷ gs) h = elim (Bool-cases (order.same (key e) j)) [
    | inl same ↦ rw same h
    | inr other ↦ elim (Bool-cases (order.before (key e) j)) [
      | inl first ↦ rw (other, first) ((first, Below-trans (key e) j gs first h.0), h)
      | inr later ↦
          rw (other, later)
            (
              Below-put_row j e gs (laws.before_total (key e) j other later) h.0,
              put_row-Ascending e gs h.1,
            )
    ]
  ]

  pub group_by-Ascending : (rows : List LogEntry) → Ascending (group_by order key rows)
  unfolding group_by
  group_by-Ascending [] = tt
  group_by-Ascending (e ∷ rows) = put_row-Ascending e _ (group_by-Ascending rows)

  -- The rows of one key, picked out of the table.
  abbrev pub picked : K → List LogEntry → List LogEntry
  picked k rows = keep (λ e. order.same k (key e)) rows

  rows_of-Below : (k a : K) (gs : List (K × List LogEntry)) → k ≡ a → Below a gs → rows_of k gs ≡ []
  unfolding rows_of
  rows_of-Below k a [] own h = refl
  rows_of-Below k a ((j, rows) ∷ gs) own h = elim (Bool-cases (order.same k j)) [
    | inl same ↦
        let e : a ≡ j = sym own ∙ (laws.same_iff k j).0 same in
        absurd (ground (arith, laws.before_irrefl j, rw e at h.0))
    | inr other ↦ rw other (rows_of-Below k a gs own h.1)
  ]

  rows_of-put_row :
      (k : K) (e : LogEntry) (gs : List (K × List LogEntry))
      → Ascending gs
      → rows_of k (put_row order key e gs)
        ≡ (if order.same k (key e) then e ∷ rows_of k gs else rows_of k gs)
  unfolding rows_of
  rows_of-put_row k e [] h = refl
  rows_of-put_row k e ((j, rows) ∷ gs) h = elim (Bool-cases (order.same (key e) j)) [
    | inl same ↦ rw (same, (laws.same_iff (key e) j).0 same) (ground arith)
    | inr other ↦ elim (Bool-cases (order.before (key e) j)) [
      | inl first ↦ elim (Bool-cases (order.same k (key e))) [
        | inl own ↦
            let below = Below-trans (key e) j gs first h.0 in
            let none_yet =
              rows_of-Below k (key e) ((j, rows) ∷ gs) ((laws.same_iff k (key e)).0 own)
                (first, below) in
            rw (other, first) (rw (rows_of, own) (ap (◌∷◌ e) (sym none_yet)))
        | inr foreign ↦ rw (other, first) (rw (rows_of, foreign) refl)
      ]
      | inr later ↦
          rw (other, later)
            (ground (
              arith,
              rows_of-put_row k e gs h.1,
              laws.same_iff k j,
              laws.same_iff k (key e),
              laws.same_iff (key e) j,
            ))
    ]
  ]

  pub rows_of-group_by :
      (k : K) (rows : List LogEntry) → rows_of k (group_by order key rows) ≡ picked k rows
  unfolding group_by rows_of
  rows_of-group_by k [] = refl
  rows_of-group_by k (e ∷ rows) =
      rows_of-put_row k e _ (group_by-Ascending rows)
      ∙ ap (λ r. if order.same k (key e) then e ∷ r else r) (rows_of-group_by k rows)

  -- The keys of the groups.
  abbrev pub keys : List (K × List LogEntry) → List K
  keys gs = map (λ (g : K × List LogEntry). g.0) gs

  abbrev pub contains : K → List K → Bool
  contains k [] = false
  contains k (j ∷ js) = order.same k j || contains k js

  pub rows_of-contains :
      (k : K) (gs : List (K × List LogEntry)) → contains k (keys gs) ≡ false → rows_of k gs ≡ []
  unfolding rows_of
  rows_of-contains k [] h = refl
  rows_of-contains k ((j, rows) ∷ gs) h = ground (arith, rows_of-contains k gs)

  -- No key comes after a greater one or twice.
  abbrev pub BelowKeys : K → List K → Type 0
  BelowKeys a [] = Unit
  BelowKeys a (k ∷ ks) = (order.before a k ≡ true) × BelowKeys a ks

  abbrev pub AscendingKeys : List K → Type 0
  AscendingKeys [] = Unit
  AscendingKeys (k ∷ ks) = BelowKeys k ks × AscendingKeys ks

  Below-keys : (a : K) (gs : List (K × List LogEntry)) → Below a gs → BelowKeys a (keys gs)
  Below-keys a [] h = tt
  Below-keys a ((k, rows) ∷ gs) h = (h.0, Below-keys a gs h.1)

  pub Ascending-keys : (gs : List (K × List LogEntry)) → Ascending gs → AscendingKeys (keys gs)
  Ascending-keys [] h = tt
  Ascending-keys ((k, rows) ∷ gs) h = (Below-keys k gs h.0, Ascending-keys gs h.1)

  -- A key above `a` finds nothing in a group of `a`.
  above : (a k : K) → order.before a k ≡ true → order.same k a ≡ false
  above a k h = elim (Bool-cases (order.same k a)) [
    | inl same ↦
        let e : k ≡ a = (laws.same_iff k a).0 same in
        absurd (ground (arith, laws.before_irrefl a, rw e at h))
    | inr other ↦ other
  ]

  -- Ascending groups are what their keys pick out of them.
  map-rows_of :
      (a : K) (rows : List LogEntry) (gs hs : List (K × List LogEntry))
      → Below a hs
      → map (λ k. (k, rows_of k gs)) (keys hs) ≡ hs
      → map (λ k. (k, rows_of k ((a, rows) ∷ gs))) (keys hs) ≡ hs
  unfolding rows_of
  map-rows_of a rows gs [] h e = refl
  map-rows_of a rows gs ((k, rs) ∷ hs) h e =
      rw (above a k h.0) (ground (arith, map-rows_of a rows gs hs h.1))

  pub groups-eq :
      (gs : List (K × List LogEntry)) → Ascending gs → map (λ k. (k, rows_of k gs)) (keys gs) ≡ gs
  unfolding rows_of
  groups-eq [] h = refl
  groups-eq ((a, rows) ∷ gs) h =
      rw ((laws.same_iff a a).1 refl)
        (ap (◌∷◌ (a, rows)) (map-rows_of a rows gs gs h.0 (groups-eq gs h.1)))
