-- ===== src/App/Connect.antt =====
-- pkg/shared/db/pg.go and pkg/shared/redisx/client.go: a connection is opened, asked for an answer,
-- and closed again if it gives none. pgxpool and go-redis are parameters over a state `S`.
use moon_eye.Base.{Str, codes}
use moon_eye.Base.Int.{ℤ, pos, ◌*ℤ◌}
use moon_eye.Outcome.{Result, ok, err, Action, lift, wrapped, wrapping, ◌>>=◌}
use moon_eye.Values.{second}

-- `pgxpool.Config`: what the DSN says, and the settings that are changed.
pub record PoolConfig : Type 0 where
  pub dsn : Str
  pub max_conns : ℤ
  pub min_conns : ℤ
  pub max_conn_idle_time : ℤ
  pub max_conn_lifetime : ℤ

abbrev pub minute : ℤ
minute = pos 60 *ℤ second

-- `P` is a pool, `C` a client, `O` what `redis.ParseURL` gives.
pub record Connections (S P C O : Type 0) : Type 0 where
  pub parse_config : Str → Result PoolConfig
  pub new_with_config : PoolConfig → Action S P
  pub ping_pool : P → Action S (Unit {0})
  pub close_pool : P → S → S
  pub parse_url : Str → Result O
  pub new_client : O → S → C × S
  pub ping_client : C → Action S (Unit {0})
  pub close_client : C → S → S

-- What a successful ping says, or what is left after `close`.
abbrev pub kept_if_alive :
    {S A : Type 0} → Str → (A → Action S (Unit {0})) → (A → S → S) → A → Action S A
kept_if_alive msg ping close a s =
    let (r, s') = ping a s in
    elim r [ ok _ ↦ (ok a, s') | err e ↦ (wrapped msg (err e), close a s') ]

module _ {S P C O : Type 0} (lib : Connections S P C O) where
  unfoldable pub with_limits : PoolConfig → PoolConfig
  with_limits cfg = record cfg {
    max_conns = pos 10;
    min_conns = pos 2;
    max_conn_idle_time = pos 5 *ℤ minute;
    max_conn_lifetime = pos 30 *ℤ minute;
  }

  -- `NewPostgresPool` after the DSN, and `NewClient` after the URL.
  abbrev pub open_pool : PoolConfig → Action S P
  open_pool cfg =
      wrapping (codes "new pool") (lib.new_with_config (with_limits cfg))
      >>= kept_if_alive (codes "ping db") lib.ping_pool lib.close_pool

  abbrev pub open_client : O → Action S C
  open_client opts s =
      let (client, s') = lib.new_client opts s in
      kept_if_alive (codes "ping redis") lib.ping_client lib.close_client client s'

  unfoldable pub new_postgres_pool : Str → Action S P
  new_postgres_pool dsn = lift (wrapped (codes "parse dsn") (lib.parse_config dsn)) >>= open_pool

  unfoldable pub new_redis_client : Str → Action S C
  new_redis_client url =
      lift (wrapped (codes "parse redis url") (lib.parse_url url)) >>= open_client
