-- ===== src/Tests/Programs.antt =====
-- The programs' start, health and end, at concrete inputs.
use moon_eye.Base.{
  ℕ, suc, ◌-◌, ◌+◌, ◌≡◌, if◌then◌else◌, ltb, arith, ◌≢◌, ◌≤◌, ◌⊎◌, refl, true, false, [], Str, some,
  codes,
}
use moon_eye.Base.Int.{ℤ, pos, negsuc}
use moon_eye.Outcome.{Error, Result, err, ok, other, Action}
use moon_eye.Sheets.Client.{noop_sheets_client}
use moon_eye.Sheets.Google.{SheetsApi}
use moon_eye.App.Connect.{Connections, new_postgres_pool, new_redis_client}
use moon_eye.App.Opened.{OpensOne, IsCounted, connect-OpensOne}
use moon_eye.App.Credentials.{
  GoogleLibraries, env_credentials_json, env_credentials_file, choose_sheets_client,
}
use moon_eye.App.Unused.{choose_sheets_client-default}
use moon_eye.App.Health.{finance_health, sync_health}
use moon_eye.App.Agreement.{BothAnswer, pings, health-codes}
use moon_eye.App.Server.{
  Running, Reach, next, start, listening, waiting, returned, fail, send, cancel, take_done,
  shut_down, done, finished, result_of, closed,
}
use moon_eye.App.Shutdown.{GoesOn, IsUndisturbed, Reach-ends, Reach-stopped, Reach-either}

-- A count of open connections, and a database that does not answer.
abbrev connections : Connections ℕ (Unit {0}) (Unit {0}) Str
connections = record {
  parse_config = λ dsn. ok (record {
    dsn = dsn;
    max_conns = pos 4;
    min_conns = pos 0;
    max_conn_idle_time = pos 0;
    max_conn_lifetime = pos 0;
  });
  new_with_config = λ cfg n. (ok tt, suc n);
  ping_pool = λ p n. (err (other (codes "timeout")), n);
  close_pool = λ p n. n - 1;
  parse_url = λ url. ok url;
  new_client = λ url n. (tt, suc n);
  ping_client = λ c n. (ok tt, n);
  close_client = λ c n. n - 1;
}

connections-IsCounted : IsCounted (λ n. n) connections
connections-IsCounted = record {
  pool_opens = λ cfg s. refl;
  pool_answers = λ p s. refl;
  pool_closes = λ p s. refl;
  client_opens = λ o s. refl;
  client_answers = λ c s. refl;
  client_closes = λ c s. refl;
}

connect-OpensOne_example :
    OpensOne (λ n. n) 3 (new_postgres_pool connections (codes "postgres://db") 3)
    × OpensOne (λ n. n) 3 (new_redis_client connections (codes "redis://cache") 3)
connect-OpensOne_example =
    connect-OpensOne (λ n. n) connections connections-IsCounted (codes "postgres://db")
      (codes "redis://cache") 3

abbrev api : SheetsApi ℕ
api = record {
  values_get = λ id range s. (ok [], s);
  values_update = λ id range rows s. (ok tt, suc s);
}

abbrev google : GoogleLibraries ℕ Str
google = record {
  get_env = λ name. [];
  is_json = λ s. true;
  trim_space = λ s. s;
  decode_base64 = λ s. ok s;
  credentials_from_json = λ s. ok s;
  new_service_with = λ c s. (ok api, s);
  new_service_from_file = λ path s. (ok api, s);
  new_service = λ s. (err (other (codes "no default")), s);
  quote = λ s. s;
}

abbrev default_service : Action ℕ (SheetsApi ℕ)
default_service s = (ok api, suc s)

choose_sheets_client-default_example :
    (choose_sheets_client (record google { new_service = default_service }) 0
      ≡ choose_sheets_client google 0)
    × (google.get_env env_credentials_json ≡ []
        → google.get_env env_credentials_file ≡ []
        → choose_sheets_client google 0 ≡ (noop_sheets_client, 0))
choose_sheets_client-default_example = choose_sheets_client-default google default_service 0

-- A context is the time by which it is done, a state the time, and the database takes five seconds.
abbrev until : ℕ → ℤ → ℕ → ℕ × ℕ
until done_at (pos n) now = (if ltb done_at (now + n) then done_at else now + n, now)
until done_at (negsuc n) now = (if ltb done_at now then done_at else now, now)

abbrev slow_db : ℕ → Action ℕ (Unit {0})
slow_db done_at now =
    if ltb done_at (now + 5000000000)
    then (err (other (codes "context deadline exceeded")), done_at)
    else (ok tt, now + 5000000000)

abbrev redis_up : ℕ → Action ℕ (Unit {0})
redis_up done_at now = (ok tt, now)

earlier :
    (done_at by now : ℕ)
    → (slow_db (if ltb done_at by then done_at else by) now).0 ≡ ok tt
    → slow_db done_at now ≡ slow_db (if ltb done_at by then done_at else by) now
earlier done_at by now h = ground (arith, h)

until-made : (done_at : ℕ) (n : ℤ) (now : ℕ) → (until done_at n now).1 ≡ now
until-made done_at (pos n) now = refl
until-made done_at (negsuc n) now = refl

until-asked :
    (done_at : ℕ) (n : ℤ) (s now : ℕ)
    → (slow_db (until done_at n s).0 now).0 ≡ ok tt
    → slow_db done_at now ≡ slow_db (until done_at n s).0 now
until-asked done_at (pos n) s now h = earlier done_at (s + n) now h
until-asked done_at (negsuc n) s now h = earlier done_at s now h

-- finance-api says that it is degraded, and sync-service that it is well.
health-codes_example :
    let both = BothAnswer until slow_db redis_up in
    let finance = (finance_health (pings until slow_db redis_up) 60000000000 0).0.0 in
    let sync = (sync_health slow_db redis_up 60000000000 0).0.0 in
    (((finance ≡ 200) × both 3000000000 0) ⊎ ((finance ≡ 503) × ¬ both 3000000000 0))
    × (((sync ≡ 200) × both 60000000000 0) ⊎ ((sync ≡ 503) × ¬ both 60000000000 0))
    × ((finance ≡ 503) ⊎ (sync ≡ 200))
health-codes_example =
    health-codes until slow_db redis_up 60000000000 0 (record {
      made = until-made;
      asked_db = until-asked;
      asked_redis = λ done_at n s now h. refl;
    })

abbrev refused : Error
refused = other (codes "address in use")

-- The server failed before `Run` waits.
abbrev broken : Running
broken = record {
  serving = finished;
  error_sent = some refused;
  signalled = false;
  cancelled = true;
  phase = waiting;
}

broken-Reach : Reach 3 broken
broken-Reach =
    next (next (next start (fail refused refl)) (send refused refl)) (cancel refused refl)

abbrev after_shutdown : Running
after_shutdown = record broken { phase = returned (ok tt) }

after_shutdown-Reach : Reach 5 after_shutdown
unfolding result_of closed
after_shutdown-Reach = next (next broken-Reach (take_done refl refl)) (shut_down done refl)

Reach-ends_example :
    (3 ≤ 8)
    × (((r : Result (Unit {0})) × (broken.phase ≡ returned r))
        ⊎ (GoesOn broken ⊎ IsUndisturbed broken))
Reach-ends_example = Reach-ends 3 broken broken-Reach

Reach-stopped_example : after_shutdown.serving ≢ listening
Reach-stopped_example = Reach-stopped 5 after_shutdown (ok tt) after_shutdown-Reach refl

Reach-either_example :
    ((t : Running) × Reach 4 t × (t.phase ≡ returned (err refused)))
    × ((u : Running) × Reach 5 u × (u.phase ≡ returned (ok tt)))
Reach-either_example = Reach-either 3 broken refused broken-Reach refl refl refl
