-- ===== src/App/Jobs.antt =====
-- internal/service/sync_queue_redis.go (`RedisSyncQueue`), and what cmd/api/finance-api/main.go,
-- cmd/api/sync-service/main.go and cmd/api/worker-service/main.go put together around the stream of
-- sync jobs.
use moon_eye.Base.{ℕ, [], Str, Option, none, some, codes}
use moon_eye.Base.Int.{ℤ, pos, ◌*ℤ◌}
use moon_eye.Outcome.{Result, Action, pure}
use moon_eye.Values.{Time, second}
use moon_eye.Transactions.Domain.{SyncJob, SyncQueue}
use moon_eye.Sheets.Sync.{SyncService, SyncJobPayload, handle_sync_job}
use moon_eye.Queue.Stream.{
  Message, RedisClient, RedisStreamConfig, new_config, enqueue_message, start,
}

unfoldable pub message_of : SyncJob → Message
message_of job = record {
  id = [];
  entity = job.entity;
  operation = job.operation;
  payload = job.payload;
  retry_count = pos 0;
}

module _ {S : Type 0} where
  -- `EnqueueSyncJob`; the producer may be nil.
  unfoldable pub enqueue_sync_job :
      Option (Message → Action S (Unit {0})) → SyncJob → Action S (Unit {0})
  enqueue_sync_job none job = pure tt
  enqueue_sync_job (some produce) job = produce (message_of job)

  abbrev pub redis_sync_queue : Option (Message → Action S (Unit {0})) → SyncQueue S
  redis_sync_queue producer = record { enqueue_sync_job = enqueue_sync_job producer }

-- The configurations of the three programs.
abbrev pub finance_stream : RedisStreamConfig
finance_stream = record {
  stream = codes "sync_queue";
  group = [];
  consumer_name = [];
  block_timeout = pos 0;
}

abbrev pub sync_service_stream : RedisStreamConfig
sync_service_stream = record {
  stream = codes "sync_queue";
  group = codes "sync_workers";
  consumer_name = codes "sync-service";
  block_timeout = pos 0;
}

abbrev pub worker_service_stream : RedisStreamConfig
worker_service_stream = record {
  stream = codes "sync_queue";
  group = codes "sync_workers";
  consumer_name = codes "worker-service";
  block_timeout = pos 5 *ℤ second;
}

-- The handler of both workers.
unfoldable pub job_handler :
    {S : Type 0}
    → (Str → Time)
    → (Str → Result SyncJobPayload)
    → SyncService S
    → Message
    → Action S (Unit {0})
job_handler parse_rfc3339 unmarshal svc msg =
    handle_sync_job parse_rfc3339 unmarshal (some svc) msg.payload

module _ {S : Type 0} (client : RedisClient S) where
  -- The queue that finance-api writes to.
  abbrev pub app_queue : SyncQueue S
  app_queue = redis_sync_queue (some (enqueue_message client (new_config finance_stream)))

  -- What the two workers run, with what waiting does to the state.
  module _ (handler : Message → Action S (Unit {0})) (wait : ℤ → S → S) where
    unfoldable pub run_sync_service : ℕ → Action S (Unit {0})
    run_sync_service n = start client (new_config sync_service_stream) n wait (some handler)

    unfoldable pub run_worker_service : ℕ → Action S (Unit {0})
    run_worker_service n = start client (new_config worker_service_stream) n wait (some handler)
