-- ===== src/App/Start.antt =====
-- cmd/api/finance-api/main.go, cmd/api/sync-service/main.go and cmd/api/worker-service/main.go: what
-- a program loads and connects to before it runs. `logger.Fatal` ends the program, which is the
-- error here; the logger itself and the log are left out.
use moon_eye.Base.{[], ◌∷◌, Str, Option, none, some, codes}
use moon_eye.Outcome.{Action, lift, pure, wrapping, wrapped, ok, ◌>>=◌, ◌>>◌}
use moon_eye.App.Config.{Config, Viper, load}
use moon_eye.App.Connect.{Connections, new_postgres_pool, new_redis_client}

-- What the rest of the program is given.
pub record Started (P C : Type 0) : Type 0 where
  pub config : Config
  pub pool : P
  pub redis : Option C

-- `set_env` is `os.Setenv`, whose error is dropped.
module _ {V S P C O : Type 0} (viper : Viper V) (lib : Connections S P C O)
    (set_env : Str → Str → S → S) where
  abbrev load_config : Str → Action S Config
  load_config service_name = lift (wrapped (codes "load config") (load viper service_name))

  abbrev connect_db : Config → Action S P
  connect_db cfg = wrapping (codes "connect db") (new_postgres_pool lib cfg.database_url)

  abbrev connect_redis : Str → Action S (Option C)
  connect_redis url =
      wrapping (codes "connect redis") (new_redis_client lib url) >>= λ client. pure (some client)

  -- `if cfg.Redis.URL != ""`.
  abbrev connect_redis_if : Str → Action S (Option C)
  connect_redis_if [] = pure none
  connect_redis_if (c ∷ url) = connect_redis (c ∷ url)

  -- `if cfg.Auth.JWTSecret != ""`.
  unfoldable pub set_signing_key : Str → Action S (Unit {0})
  set_signing_key [] s = (ok tt, s)
  set_signing_key (c ∷ secret) s = (ok tt, set_env (codes "JWT_SIGNING_KEY") (c ∷ secret) s)

  unfoldable pub start_finance_api : Action S (Started P C)
  start_finance_api = do
    cfg ← load_config (codes "FINANCE_API")
    set_signing_key cfg.jwt_secret
    pool ← connect_db cfg
    redis ← connect_redis_if cfg.redis_url
    pure (record { config = cfg; pool = pool; redis = redis })

  unfoldable pub start_sync_service : Action S (Started P C)
  start_sync_service = do
    cfg ← load_config (codes "sync-service")
    pool ← connect_db cfg
    redis ← connect_redis cfg.redis_url
    pure (record { config = cfg; pool = pool; redis = redis })

  unfoldable pub start_worker_service : Action S (Started P C)
  start_worker_service = do
    cfg ← load_config (codes "WORKER_SERVICE")
    pool ← connect_db cfg
    redis ← connect_redis_if cfg.redis_url
    pure (record { config = cfg; pool = pool; redis = redis })
