-- ===== src/Queue/Stream.antt =====
-- internal/queue/queue.go (`RedisStreamQueue`) and internal/worker/worker.go (`Runner`). The loop of
-- `Consume` takes a number of rounds, after which its context is done.
use moon_eye.Base.{
  ℕ, zero, suc, Bool, List, [], ◌∷◌, Str, Option, none, some, codes, str_eq, if◌then◌else◌,
}
use moon_eye.Base.Int.{ℤ, pos, ltb_ℤ, leb_ℤ, ◌+ℤ◌, ◌*ℤ◌}
use moon_eye.Base.Words.{wrap64}
use moon_eye.Strconv.{atoi_checked}
use moon_eye.Outcome.{Error, other, is_panic, error_text, ok, err, Action, pure, fail, ◌>>=◌, ◌>>◌}
use moon_eye.Values.{Any, int64, int, string, raw, Payload, get, second}

pub record Message : Type 0 where
  pub id : Str
  pub entity : Str
  pub operation : Str
  pub payload : Str
  pub retry_count : ℤ

-- `redis.XMessage`.
pub record XMessage : Type 0 where
  pub id : Str
  pub values : Payload

-- What the queue calls of go-redis. `x_read_group` takes the group, the consumer, the stream, the id
-- to read from, the count and the time to wait, and gives nothing for `redis.Nil`, else the messages
-- of each stream.
pub record RedisClient (S : Type 0) : Type 0 where
  pub x_add : Str → Payload → Action S Str
  pub x_group_create_mk_stream : Str → Str → Str → Action S (Unit {0})
  pub x_read_group : Str → Str → Str → Str → ℕ → ℤ → Action S (Option (List (List XMessage)))
  pub x_ack : Str → Str → Str → Action S (Unit {0})

pub record RedisStreamConfig : Type 0 where
  pub stream : Str
  pub group : Str
  pub consumer_name : Str
  pub block_timeout : ℤ

-- `NewRedisStreamQueue`: the default of 5 seconds.
unfoldable pub new_config : RedisStreamConfig → RedisStreamConfig
new_config cfg = record cfg {
  block_timeout = if leb_ℤ cfg.block_timeout (pos 0) then pos 5 *ℤ second else cfg.block_timeout;
}

abbrev pub field_entity : Str
field_entity = codes "entity"

abbrev pub field_operation : Str
field_operation = codes "operation"

abbrev pub field_payload : Str
field_payload = codes "payload"

abbrev pub field_retry_count : Str
field_retry_count = codes "retry_count"

-- The fields that `Enqueue` adds.
unfoldable pub message_values : Message → Payload
message_values msg =
    (field_entity, string msg.entity)
    ∷ (field_operation, string msg.operation)
    ∷ (field_payload, raw msg.payload)
    ∷ (if ltb_ℤ (pos 0) msg.retry_count then (field_retry_count, int msg.retry_count) ∷ [] else [])

-- `v, _ := fields[k].(string)`.
abbrev string_or_empty : Any → Str
string_or_empty (string s) = s
string_or_empty _ = []

abbrev bytes_or_empty : Any → Str
bytes_or_empty (string s) = s
bytes_or_empty (raw b) = b
bytes_or_empty _ = []

-- `Atoi` without an error.
abbrev count_or_zero : Any → ℤ
count_or_zero (string s) = elim (atoi_checked s) [ none ↦ pos 0 | some n ↦ n ]
count_or_zero (int64 n) = n
count_or_zero (int n) = n
count_or_zero _ = pos 0

unfoldable pub decode_message : XMessage → Message
decode_message m = record {
  id = m.id;
  entity = string_or_empty (get m.values field_entity);
  operation = string_or_empty (get m.values field_operation);
  payload = bytes_or_empty (get m.values field_payload);
  retry_count = count_or_zero (get m.values field_retry_count);
}

abbrev is_busy_group : Error → Bool
is_busy_group e = str_eq (error_text [] e) (codes "BUSYGROUP Consumer Group name already exists")

module _ {S : Type 0} (client : RedisClient S) (cfg : RedisStreamConfig) where
  unfoldable pub enqueue_message : Message → Action S (Unit {0})
  enqueue_message msg = client.x_add cfg.stream (message_values msg) >>= λ id. pure tt

  unfoldable pub ensure_group : Action S (Unit {0})
  ensure_group s =
      let (r, s') = client.x_group_create_mk_stream cfg.stream cfg.group (codes "0") s in
      elim r [ ok _ ↦ (ok tt, s') | err e ↦ (if is_busy_group e then ok tt else err e, s') ]

  -- One message: acknowledged if the handler gave no error. A panic ends the process.
  unfoldable pub deliver_message : (Message → Action S (Unit {0})) → XMessage → Action S (Unit {0})
  deliver_message handler m s =
      let (r, s') = handler (decode_message m) s in
      elim r [
        | ok _ ↦ (ok tt, (client.x_ack cfg.stream cfg.group m.id s').1)
        | err e ↦ (if is_panic e then err e else ok tt, s')
      ]

  unfoldable pub deliver_messages :
      (Message → Action S (Unit {0})) → List XMessage → Action S (Unit {0})
  deliver_messages handler [] = pure tt
  deliver_messages handler (m ∷ ms) = deliver_message handler m >> deliver_messages handler ms

  unfoldable pub deliver_streams :
      (Message → Action S (Unit {0})) → List (List XMessage) → Action S (Unit {0})
  deliver_streams handler [] = pure tt
  deliver_streams handler (ms ∷ streams) =
      deliver_messages handler ms >> deliver_streams handler streams

  unfoldable pub consume_round : (Message → Action S (Unit {0})) → Action S (Unit {0})
  consume_round handler =
      client.x_read_group cfg.group cfg.consumer_name cfg.stream (codes ">") 10 cfg.block_timeout
      >>= λ streams. elim streams [ none ↦ pure tt | some ss ↦ deliver_streams handler ss ]

  -- `ctx.Err()` after the rounds.
  unfoldable pub consume_rounds : ℕ → (Message → Action S (Unit {0})) → Action S (Unit {0})
  consume_rounds zero handler = fail (other (codes "context canceled"))
  consume_rounds (suc n) handler = consume_round handler >> consume_rounds n handler

  unfoldable pub consume : ℕ → (Message → Action S (Unit {0})) → Action S (Unit {0})
  consume n handler = ensure_group >> consume_rounds n handler

  -- `time.Duration(1+msg.RetryCount) * time.Second`.
  unfoldable pub backoff : Message → ℤ
  backoff msg = wrap64 (wrap64 (pos 1 +ℤ msg.retry_count) *ℤ second)

  -- The handler that `Runner.Start` gives to the queue, and what waiting does to the state.
  unfoldable pub run_handler :
      (ℤ → S → S) → (Message → Action S (Unit {0})) → Message → Action S (Unit {0})
  run_handler wait handler msg s =
      let (r, s') = handler msg s in
      elim r [
        | ok _ ↦ (ok tt, s')
        | err e ↦ (err e, if is_panic e then s' else wait (backoff msg) s')
      ]

  -- `Runner.Start`: without a handler it ends at once. The queue is there.
  unfoldable pub start :
      ℕ → (ℤ → S → S) → Option (Message → Action S (Unit {0})) → Action S (Unit {0})
  start n wait none = pure tt
  start n wait (some handler) = consume n (run_handler wait handler)
