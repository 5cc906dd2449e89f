-- ===== src/App/Carried.antt =====
-- A sync job, from the use case that queues it to the worker that handles it.
use moon_eye.Base.{◌≡◌, refl, inl, inr, ◌∙◌, ap, [], Str, some, codes, arith}
use moon_eye.Base.Int.{ℤ}
use moon_eye.Outcome.{Result, ok, ◌>>=◌, lift, Result-cases}
use moon_eye.Values.{Time, Any}
use moon_eye.Transactions.Domain.{SyncJob}
use moon_eye.Transactions.Service.{Runtime, TransactionService, enqueue}
use moon_eye.Sheets.Sync.{SyncService, SyncJobPayload, sync_all, run_job, handle_sync_job}
use moon_eye.Queue.Stream.{RedisClient, message_values, decode_message, enqueue_message, new_config}
use moon_eye.Queue.Fields.{IsWire, carried, decode_message-message_values}
use moon_eye.App.Jobs.{message_of, enqueue_sync_job, app_queue, job_handler, finance_stream}

pub sent_to_stream :
    {S : Type 0} (client : RedisClient S) (job : SyncJob) (s : S)
    → (enqueue_sync_job (some (enqueue_message client (new_config finance_stream))) job s).1
      ≡ (client.x_add (codes "sync_queue") (message_values (message_of job)) s).1
unfolding enqueue_sync_job enqueue_message new_config
sent_to_stream client job s =
    elim (Result-cases (client.x_add (codes "sync_queue") (message_values (message_of job)) s).0) [
      | inl (a, e) ↦ rw (e, ◌>>=◌) refl
      | inr (x, e) ↦ rw (e, ◌>>=◌) refl
    ]

-- The job that a use case queues for a user.
abbrev pub job_for : {S : Type 0} → Runtime S → Str → Str → ℤ → SyncJob
job_for rt op user_id since = record {
  entity = codes "transaction";
  operation = op;
  payload = rt.marshal_sync_job user_id since;
}

abbrev pub all_of_user : Str → ℤ → SyncJobPayload
all_of_user user_id since = record {
  user_id = user_id;
  connection_id = [];
  mode = [];
  since_version = since;
}

module _ {S : Type 0} (rt : Runtime S) (svc : TransactionService S) (client : RedisClient S)
    (parse_rfc3339 : Str → Time) (unmarshal : Str → Result SyncJobPayload) (sync : SyncService S)
    (wire : Any → Str) where
  -- Queueing a job adds one message to the stream sync_queue, whatever Redis answers. A worker that
  -- reads the message as Redis carries it syncs all connections of that user, in their order, from
  -- that version on, provided that JSON gives back the user and the version that were written.
  pub job_handler-enqueue :
      (op user_id id : Str) (since : ℤ) (s : S)
      → svc.sync_q ≡ some (app_queue client)
      → unmarshal (rt.marshal_sync_job user_id since) ≡ ok (all_of_user user_id since)
      → IsWire wire
      → let fields = message_values (message_of (job_for rt op user_id since)) in
        (enqueue rt svc op user_id since s
          ≡ (ok tt, (client.x_add (codes "sync_queue") fields s).1))
        × (job_handler parse_rfc3339 unmarshal sync
              (decode_message (record { id = id; values = carried wire fields }))
            ≡ (sync.list_active_by_user user_id
                >>= sync_all parse_rfc3339 sync (all_of_user user_id since)))
  unfolding enqueue job_handler handle_sync_job message_of run_job
  job_handler-enqueue op user_id id since s queue json is = (
    rw (queue, enqueue)
        (ap (λ t. (ok tt, t)) (sent_to_stream client (job_for rt op user_id since) s)),
    ap (λ m. job_handler parse_rfc3339 unmarshal sync m)
          (decode_message-message_values wire id (message_of (job_for rt op user_id since)) 0 is
            refl (omega arith))
        ∙ ap (λ r. (lift r >>= run_job parse_rfc3339 sync)) json,
  )
