-- ===== src/App/Health.antt =====
-- The handlers of GET /health: `healthHandler` of cmd/api/finance-api/main.go, and those in the main
-- functions of cmd/api/sync-service/main.go and cmd/api/auth-service/main.go. Contexts of the type
-- `C`, `context.WithTimeout` and the `Ping`s, each for a context, are parameters over a state `S`.
use moon_eye.Base.{ℕ, [], Str, Option, none, some, codes, str_eq, if◌then◌else◌}
use moon_eye.Base.Int.{ℤ, pos}
use moon_eye.Outcome.{Result, ok, err, Action}

-- The JSON that finance-api writes; an empty text is left out of it.
pub record HealthStatus : Type 0 where
  pub status : Str
  pub database : Str
  pub redis : Str

abbrev healthy_or_not : Result (Unit {0}) → Str
healthy_or_not (ok _) = codes "healthy"
healthy_or_not (err e) = codes "unhealthy"

-- After the database was asked.
abbrev pub with_database : Result (Unit {0}) → HealthStatus
with_database (ok _) = record { status = codes "ok"; database = codes "healthy"; redis = [] }
with_database (err e) = record {
  status = codes "degraded";
  database = codes "unhealthy";
  redis = [];
}

abbrev pub with_redis : HealthStatus → Result (Unit {0}) → HealthStatus
with_redis status (ok _) = record status { redis = codes "healthy" }
with_redis status (err e) = record status {
  status = if str_eq status.status (codes "ok") then codes "degraded" else status.status;
  redis = codes "unhealthy";
}

unfoldable pub health_code : HealthStatus → ℕ
health_code status = if str_eq status.status (codes "degraded") then 503 else 200

-- What a handler calls: with a context and nanoseconds, `with_timeout` gives a context that is done
-- by then.
pub record Pings (S C : Type 0) : Type 0 where
  pub with_timeout : C → ℤ → S → C × S
  pub ping_db : C → Action S (Unit {0})
  pub ping_redis : Option (C → Action S (Unit {0}))

-- `3*time.Second`.
abbrev pub health_timeout : ℤ
health_timeout = pos 3000000000

abbrev pub redis_health : Result (Unit {0}) → ℕ × Str
redis_health (ok _) = (200, codes "{\"status\":\"ok\"}")
redis_health (err e) = (503, codes "{\"status\":\"degraded\",\"redis\":\"unhealthy\"}")

module _ {S C : Type 0} where
  -- Both pings have the same context.
  abbrev pub finance_status : Pings S C → C → S → HealthStatus × S
  finance_status pings ctx s =
      let (r, s1) = pings.ping_db ctx s in
      elim pings.ping_redis [
        | none ↦ (with_database r, s1)
        | some ping_redis ↦
            (let (r', s2) = ping_redis ctx s1 in (with_redis (with_database r) r', s2))
      ]

  -- `healthHandler` for the context of the request: the code and the status that is written.
  unfoldable pub finance_health : Pings S C → C → S → (ℕ × HealthStatus) × S
  finance_health pings request_ctx s =
      let (ctx, s1) = pings.with_timeout request_ctx health_timeout s in
      let (status, s2) = finance_status pings ctx s1 in ((health_code status, status), s2)

  -- The handler of sync-service, which sets no timeout: Redis is asked only if the database answers.
  unfoldable pub sync_health :
      (C → Action S (Unit {0})) → (C → Action S (Unit {0})) → C → S → (ℕ × Str) × S
  sync_health ping_db ping_redis ctx s =
      let (r, s1) = ping_db ctx s in
      elim r [
        | ok _ ↦ (let (r', s2) = ping_redis ctx s1 in (redis_health r', s2))
        | err e ↦ ((503, codes "{\"status\":\"degraded\",\"db\":\"unhealthy\"}"), s1)
      ]

-- The handler of auth-service.
unfoldable pub auth_health : ℕ × Str
auth_health = (200, codes "{\"status\":\"ok\"}")
