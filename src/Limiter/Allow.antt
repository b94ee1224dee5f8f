-- ===== src/Limiter/Allow.antt =====
-- Manager.Allow and Manager.allowRedis of backend/internal/limiter/limiter.go.
pub mod Breaker
pub mod Outage
pub mod Fallback
pub mod Sequence
use Prim.Native.String
use vegait.Prelude.{
  ℕ, suc, ◌+◌, ◌/◌, ◌%◌, ◌^◌, Bool, true, false, Option, none, some, String, str_eq, ◌==◌, ℤ, pos,
  ◌*ℤ◌, wrap_int64, if◌then◌else◌,
}
use vegait.Limiter.Redis.{Redis}
use vegait.Limiter.Script.{Call, sliding_window}
use vegait.Limiter.Member.{member}
use vegait.Limiter.Manager.{Manager, RateLib, is_redis_healthy, handle_redis_failure, allow_local}

pub data Result {ℓ} (A : Type ℓ) : Type ℓ where
  ok : A → Result A
  err : String → Result A

-- What Redis replies with, as the client library hands it over.
pub data Reply : Type 0 where
  int : ℕ → Reply
  other : Reply

-- What happens to one call of Redis: the script runs and its reply arrives; Redis does not know the
-- script; the call fails before the script runs; the script runs and the reply is lost.
pub data Delivery : Type 0 where
  delivered no_script : Delivery
  unsent unanswered : String → Delivery

-- The outside of one call of Allow: the time, Redis's time, in milliseconds of its own clock, when it gets
-- to the script, and what happens to the Redis calls.
pub record Net : Type 0 where
  pub now_ns : ℕ
  pub redis_ms : ℕ
  pub first : Delivery
  pub second : Delivery

abbrev pub no_script_message : String
no_script_message = "NOSCRIPT No matching script. Please use EVAL."

abbrev pub is_no_script_error : String → Bool
is_no_script_error e = str_eq e no_script_message

-- `val, ok := result.(int64)`, and `val == 1`.
abbrev pub read_reply : Reply → Bool
read_reply (int v) = v == 1
read_reply other = false

pub record World (r : Redis) (rate : RateLib) : Type 0 where
  pub manager : Manager rate.Limiter
  pub store : r.Store

abbrev pub now_ms : Net → ℕ
now_ms net = net.now_ns / 1_000_000

-- `int64(windowSeconds * 1000)`
unfoldable pub to_window_ms : ℤ → ℤ
unfolding ◌*ℤ◌
to_window_ms window_seconds = wrap_int64 (window_seconds *ℤ pos 1000)

-- atomic.AddUint64(&m.memberSeq, 1)
abbrev pub next_seq : ℕ → ℕ
next_seq seq = (seq + 1) % 2 ^ 64

module _ (r : Redis) where
  open r use {Store}

  -- EVALSHA or EVAL of the script.
  unfoldable pub eval : Delivery → Call → Store → Result Reply × Store
  eval delivered c s = let (v, s') = sliding_window r c.at c s in (ok (int v), s')
  eval no_script c s = (err no_script_message, s)
  eval (unsent e) c s = (err e, s)
  eval (unanswered e) c s = (err e, (sliding_window r c.at c s).1)

  -- EVAL after EVALSHA if Redis does not know the script.
  abbrev retry_eval : Delivery → Call → Result Reply × Store → Result Reply × Store
  retry_eval d c (ok v, s) = (ok v, s)
  retry_eval d c (err e, s) = if is_no_script_error e then eval d c s else (err e, s)

  unfoldable pub eval_script : String → Net → Call → Store → Result Reply × Store
  unfolding eval
  eval_script sha net c s =
      if str_eq sha "" then eval net.first c s else retry_eval net.second c (eval net.first c s)

  unfoldable pub script_call : Net → String → ℤ → ℤ → ℕ → Call
  unfolding to_window_ms
  script_call net client limit window_seconds seq = record {
    at = net.redis_ms;
    key = String.◌++◌ "limiter:" client;
    now = now_ms net;
    window_ms = to_window_ms window_seconds;
    limit = limit;
    member = member net.now_ns seq;
  }

module _ (r : Redis) (rate : RateLib) where
  abbrev to_allowed : Result Reply → Result Bool
  to_allowed (ok v) = ok (read_reply v)
  to_allowed (err e) = err e

  unfoldable pub allow_redis : Net → String → ℤ → ℤ → World r rate → World r rate × Result Bool
  unfolding script_call eval_script
  allow_redis net client limit window_seconds w =
      let seq = next_seq w.manager.member_seq in
      let call = script_call r net client limit window_seconds seq in
      let (reply, store') = eval_script r w.manager.lua_sha net call w.store in
      (record { manager = record w.manager { member_seq = seq }; store = store' }, to_allowed reply)

  abbrev allow_fallback : ℕ → String → ℤ → ℤ → World r rate → World r rate × Bool
  allow_fallback now client limit window_seconds w =
      let (manager', allowed) = allow_local rate now client limit window_seconds w.manager in
      (record w { manager = manager' }, allowed)

  abbrev after_redis : Net → String → ℤ → ℤ → World r rate × Result Bool → World r rate × Bool
  after_redis net client limit window_seconds (w, ok allowed) =
      (record w { manager = record w.manager { consec_failures = 0 } }, allowed)
  after_redis net client limit window_seconds (w, err e) =
      allow_fallback net.now_ns client limit window_seconds
        (record w { manager = handle_redis_failure w.manager })

  -- Allow. Its error is always nil, so the result is the Boolean alone.
  unfoldable pub allow : Net → String → ℤ → ℤ → World r rate → World r rate × Bool
  unfolding is_redis_healthy allow_redis
  allow net client limit window_seconds w =
      if is_redis_healthy w.manager
      then after_redis net client limit window_seconds
          (allow_redis net client limit window_seconds w)
      else allow_fallback net.now_ns client limit window_seconds w
