-- ===== src/Admin/Clients.antt =====
-- The settings that UpsertClient of backend/internal/handlers/handlers.go writes and GetClientLimit of
-- backend/internal/database/database.go reads.
use vegait.Prelude.{
  ℕ, ◌≡◌, refl, false, not, List, [], ◌∷◌, Option, none, some, String, str_eq, pos, ◌<ℤ◌, ◌≤◌, All,
  Bool-cases, inl, inr, ◌⊎◌, arith, eq_iff, ◌≢◌,
}
use vegait.Database.Limits.{ClientLimit, Table, select, get_client_limit}
use vegait.Limiter.Manager.{load, store}
use vegait.Limiter.Allow.{ok}
use vegait.Limiter.Allow.Fallback.{load-store}
use vegait.Http.{
  Piece, json, Request, Response, Exchange, returned, write, write_header, write_json, set_header,
}
use vegait.Http.Stack.Answers.{exchange}
use vegait.Http.Stack.ClientIds.{status}
use vegait.Admin.{
  upsert, UpsertClientRequest, Executed, done, refused, unconfirmed, invalid, exec_upsert,
  upsert_decoded, upsert_client,
}

load-store_other :
    {V : Type 0} (j k : String) (v : V) (m : List (String × V))
    → j ≢ k
    → load j (store k v m) ≡ load j m
unfolding load store
load-store_other j k v [] d = ground (arith, eq_iff k j)
load-store_other j k v ((i, w) ∷ m) d =
    ground (arith, eq_iff k j, eq_iff i k, eq_iff i j, load-store_other j k v m d)

abbrev pub IsPositive : String × ClientLimit → Type 0
IsPositive (client, l) = (client ≢ "") × (pos 0 <ℤ l.rate_limit) × (pos 0 <ℤ l.window_seconds)

store-IsPositive :
    (k : String) (v : ClientLimit) (t : Table)
    → IsPositive (k, v)
    → All IsPositive t
    → All IsPositive (store k v t)
unfolding store
store-IsPositive k v [] p h = (p, tt)
store-IsPositive k v ((j, w) ∷ t) p h = elim (Bool-cases (str_eq j k)) [
  | inl same ↦ rw (same, store) (p, h.1)
  | inr other ↦ rw (other, store) (h.0, store-IsPositive k v t p h.1)
]

-- A request that the table takes: its client has the limits that it gives, and no other client's change.
pub record IsWritten (q : UpsertClientRequest) (before after : Table) : Type 0 where
  pub positive :
      IsPositive
        (q.client_id, record { rate_limit = q.rate_limit; window_seconds = q.window_seconds })
  pub reads : get_client_limit (select after q.client_id) ≡ ok (q.rate_limit, q.window_seconds)
  pub others : (client : String) → client ≢ q.client_id → select after client ≡ select before client

upsert-IsWritten :
    (q : UpsertClientRequest) (t : Table)
    → invalid q ≡ false
    → IsWritten q t (upsert q.client_id q.rate_limit q.window_seconds t)
unfolding upsert select get_client_limit
upsert-IsWritten q t valid = record {
  positive = (ground (arith, eq_iff q.client_id ""), ground arith, ground arith);
  reads = rw (load-store q.client_id _ t) refl;
  others = λ client d. rw (load-store_other client q.client_id _ t d) refl;
}

-- How an UpsertClient ends: with 200 and the limits written; with 500 and the limits written, where the
-- statement took effect without a confirmation; or with an error's status and nothing.
abbrev pub Upserted : Executed → Option UpsertClientRequest → Table → Exchange Table → Type 0
Upserted e decoded before y =
    ((q : UpsertClientRequest) × (decoded ≡ some q)
      × (((e ≡ done) × (status y.response ≡ some 200))
          ⊎ ((m : String) × (e ≡ unconfirmed m) × (status y.response ≡ some 500)))
      × IsWritten q before y.state)
    ⊎ ((code : ℕ) × (400 ≤ code) × (status y.response ≡ some code) × (y.state ≡ before))

write_json-status :
    (s : ℕ) (b : Piece) (w : Response) → w.sent ≡ none → status (write_json s b w) ≡ some s
unfolding write_json write write_header set_header
write_json-status s b w unsent = rw unsent refl

module _ (x : Exchange Table) (unsent : x.response.sent ≡ none) where
  exec_upsert-Upserted :
      (e : Executed) (q : UpsertClientRequest)
      → invalid q ≡ false
      → Upserted e (some q) x.state (exec_upsert e q x)
  exec_upsert-Upserted (refused err) q valid =
      inr (500, ground arith, write_json-status 500 _ _ unsent, refl)
  exec_upsert-Upserted (unconfirmed err) q valid =
      inl (
        q,
        refl,
        inr (err, refl, write_json-status 500 _ _ unsent),
        upsert-IsWritten q x.state valid,
      )
  exec_upsert-Upserted done q valid =
      inl (q, refl, inl (refl, write_json-status 200 _ _ unsent), upsert-IsWritten q x.state valid)

  upsert_decoded-Upserted :
      (e : Executed) (decoded : Option UpsertClientRequest)
      → Upserted e decoded x.state (upsert_decoded e decoded x)
  upsert_decoded-Upserted e none = inr (400, ground arith, write_json-status 400 _ _ unsent, refl)
  upsert_decoded-Upserted e (some q) = elim (Bool-cases (invalid q)) [
    | inl bad ↦ rw bad (inr (400, ground arith, write_json-status 400 _ _ unsent, refl))
    | inr good ↦ rw good (exec_upsert-Upserted e q good)
  ]

-- UpsertClient either answers 200, and then GetClientLimit finds exactly the limits of the request for
-- its client and what it found before for every other; or it answers 500 and the same holds, where the
-- statement took effect but its confirmation did not come; or it answers with a status of 400 or more and
-- the table is as it was. Nothing was sent before; whatever the body and the database give.
pub upsert_client-Upserted :
    (decode : List ℕ → Option UpsertClientRequest) (e : Executed) (r : Request) (x : Exchange Table)
    → x.response.sent ≡ none
    → (y : Exchange Table) × (upsert_client decode e r x ≡ returned y)
      × Upserted e (decode r.body) x.state y
unfolding upsert_client
upsert_client-Upserted decode e r x unsent = elim (Bool-cases (not (str_eq r.method "POST"))) [
  | inl other ↦ rw other (
    _,
    refl,
    inr (
      405,
      ground arith,
      write_json-status 405 (json (("error", "method not allowed") ∷ [])) x.response unsent,
      refl,
    ),
  )
  | inr post ↦ rw post (_, refl, upsert_decoded-Upserted x unsent e (decode r.body))
]

exec_upsert-positive :
    (e : Executed) (q : UpsertClientRequest) (x : Exchange Table)
    → invalid q ≡ false
    → All IsPositive x.state
    → All IsPositive (exec_upsert e q x).state
unfolding upsert
exec_upsert-positive (refused err) q x valid h = h
exec_upsert-positive (unconfirmed err) q x valid h =
    store-IsPositive q.client_id _ x.state (upsert-IsWritten q x.state valid).positive h
exec_upsert-positive done q x valid h =
    store-IsPositive q.client_id _ x.state (upsert-IsWritten q x.state valid).positive h

upsert_decoded-positive :
    (e : Executed) (decoded : Option UpsertClientRequest) (x : Exchange Table)
    → All IsPositive x.state
    → All IsPositive (upsert_decoded e decoded x).state
upsert_decoded-positive e none x h = h
upsert_decoded-positive e (some q) x h = elim (Bool-cases (invalid q)) [
  | inl bad ↦ rw bad h
  | inr good ↦ rw good (exec_upsert-positive e q x good h)
]

-- UpsertClient keeps every row's client named and its limit and window above 0, whatever the body and
-- the database give: a limiter that reads the table meets no other setting.
pub upsert_client-positive :
    (decode : List ℕ → Option UpsertClientRequest) (e : Executed) (r : Request) (x : Exchange Table)
    → All IsPositive x.state
    → All IsPositive (exchange (upsert_client decode e r x)).state
unfolding upsert_client
upsert_client-positive decode e r x h = elim (Bool-cases (not (str_eq r.method "POST"))) [
  | inl other ↦ rw other h
  | inr post ↦ rw post (upsert_decoded-positive e (decode r.body) x h)
]
