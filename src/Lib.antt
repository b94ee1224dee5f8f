-- ===== src/Lib.antt =====
-- A verification library for the rate-limiting gateway of this repository: a reverse proxy that asks a
-- sliding-window limiter in Redis about each request, forwards it or answers 429, and logs it to
-- PostgreSQL through an asynchronous logger.
--
-- The parts and their files:
--   Prelude     shared names, Boolean tests, lists over native numbers, signed integers and int64.
--   Limiter     backend/internal/limiter/limiter.go. Redis is the interface to a Redis with sorted sets
--               and expiry (a record of commands and RedisLaws), Redis/Reference one that meets it;
--               Script is slidingWindowLua; Member the set members; Manager is New, the breaker, the
--               recovery and cleanup ticks and allowLocal over golang.org/x/time/rate (RateLib); Allow is
--               Allow and allowRedis. A call of Redis ends as its Delivery says: it arrives, it is not
--               sent, its answer is lost, or the script is not known. Atomics is the breaker again, one
--               atomic operation at a time, as a step relation on all goroutines.
--   Database    backend/internal/database/database.go: LogEntry, InsertLogsBatch over an interface of
--               transactions (Batch), GetClientLimit (Limits), Init, runMigrations and Close (Migrations),
--               and the analytics queries (Analytics), where a table is the list of its rows and a query
--               ends as its Fetch says.
--   Logger      backend/internal/logger/logger.go: the channel, the workers and the counters. An event is
--               one select of one goroutine, and a list of events is an interleaving.
--   Http        what is used of net/http; Http/Middleware is backend/internal/middleware/middleware.go,
--               Http/Stack the stacks of backend/cmd/server/main.go; write_json is WriteJSON of
--               backend/internal/httputil/response.go.
--   Proxy       backend/internal/proxy/proxy.go: ServeHTTP and forwardRequest, over Limiter, Database
--               and Logger.
--   Admin       backend/internal/handlers/handlers.go, over the table that Proxy reads its limits from,
--               and its routes (Routes); query_int is QueryInt of
--               backend/internal/httputil/response.go.
--   Service     backend/cmd/server/main.go: the start, the two servers over one state, which is the
--               table of limits, the limiter and the logger, and the shutdown.
--   Config      backend/internal/config/config.go, which Logger and Proxy take their settings from.
--   Loadgen     backend/cmd/loadgen/main.go: flags, counters, latencies and percentiles; Settings is
--               the environment, the flags and fire; Jobs is main's slices, the channel of jobs and its
--               workers as a step relation; Report is the rows, the mean, the bars and the verdict.
--   MockApi     mock-api/main.go.
--
-- State is passed on: a method takes the state and returns it. A panic is `none` in Logger and the
-- outcome `panicked` in Http. Each gateway reads its own clock, and Redis expires its keys by
-- another. Counters keep their wrap-around, int32, int64 and uint64. Loops are structural; the
-- printing of a number n has fuel n + 1, above its number of digits. What Redis, PostgreSQL, the
-- token buckets, the upstream, the clock and the random source give is an argument; what the code
-- relies on of them is named in RedisLaws, PostgresLaws and RateLaws, and each has an instance that
-- meets it. AVG and percentile_cont are the parameters of Numeric.
--
-- Not modelled: a proxy request whose entry is handed to a waiting worker by a channel without a
-- buffer (LOG_BUFFER_SIZE=0; Logger has that event, Proxy logs by `log`), the interleavings of
-- allowLocal and of the cleanup, the load generator's memory running out, the sizes of the connection
-- pools, the listening servers and signals, the load generator's printing, the
-- dashboard, and log lines other than the middlewares'.
pub mod Prelude
pub mod Limiter
pub mod Database
pub mod Logger
pub mod Http
pub mod Proxy
pub mod Service
pub mod Config
pub mod Admin
pub mod Loadgen
pub mod MockApi
