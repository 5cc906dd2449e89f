-- ===== src/Tests/Queues.antt =====
-- A stream with two messages of which one fails, and a table with two items.
use moon_eye.Base.{
  ◌≤◌, ◌≡◌, refl, List, [], ◌∷◌, ◌++◌, Str, some, codes, arith, str_eq, if◌then◌else◌,
}
use moon_eye.Base.Int.{ℤ, pos}
use moon_eye.Strconv.{itoa}
use moon_eye.Outcome.{Result, ok, err, other, Action}
use moon_eye.Values.{Any, int, string, raw}
use moon_eye.Queue.Stream.{
  Message, XMessage, RedisClient, RedisStreamConfig, message_values, decode_message,
  deliver_messages,
}
use moon_eye.Queue.Delivery.{
  IsDelivered, written_client, written_handler, deliver_messages-IsDelivered,
}
use moon_eye.Queue.Fields.{IsWire, carried, decode_message-message_values}
use moon_eye.Queue.Items.{SyncQueueItem, SyncStore, turns}
use moon_eye.Queue.Drained.{turns_drain}

-- The messages that were handled, and the ids that were acknowledged.
abbrev Seen : Type 0
Seen = List Message × List Str

abbrev client : RedisClient Seen
client = record {
  x_add = λ stream values s. (ok [], s);
  x_group_create_mk_stream = λ stream group start s. (ok tt, s);
  x_read_group = λ group name stream from count block s. (ok (some []), s);
  x_ack = λ stream group id s. (ok tt, (s.0, s.1 ++ (id ∷ [])));
}

abbrev config : RedisStreamConfig
config = record {
  stream = codes "sync";
  group = codes "workers";
  consumer_name = codes "one";
  block_timeout = pos 5;
}

abbrev verdict : Message → Result (Unit {0})
verdict m = if str_eq m.entity (codes "bad") then err (other (codes "failed")) else ok tt

abbrev handler : Message → Action Seen (Unit {0})
handler m s = (verdict m, (s.0 ++ (m ∷ []), s.1))

abbrev batch : List XMessage
batch =
    record { id = codes "1-0"; values = (codes "entity", string (codes "bad")) ∷ [] }
    ∷ record { id = codes "2-0"; values = (codes "entity", string (codes "good")) ∷ [] }
    ∷ []

deliver_messages-IsDelivered_example : IsDelivered client config handler batch [] (
    deliver_messages
      (written_client client config handler)
      config
      (written_handler client config handler)
      batch
      (([], []), []))
deliver_messages-IsDelivered_example =
    deliver_messages-IsDelivered client config handler batch ([], []) []

abbrev wire : Any → Str
wire (string s) = s
wire (raw s) = s
wire (int (pos n)) = itoa n
wire _ = []

wire-IsWire : IsWire wire
wire-IsWire = record { text = λ s. refl; bytes = λ s. refl; number = λ n. refl }

abbrev job : Message
job = record {
  id = [];
  entity = codes "sync";
  operation = codes "trigger";
  payload = codes "{}";
  retry_count = pos 3;
}

decode_message-message_values_example :
    decode_message (record { id = codes "7-0"; values = carried wire (message_values job) })
    ≡ record job { id = codes "7-0" }
decode_message-message_values_example =
    decode_message-message_values wire (codes "7-0") job 3 wire-IsWire refl (ground arith)

abbrev item : ℤ → SyncQueueItem
item id = record {
  id = id;
  user_id = codes "ann";
  op_type = codes "update";
  payload = [];
  attempts = pos 0;
  available_at = pos 1;
  max_attempts = pos 5;
  created_at = pos 1;
}

abbrev two_items : SyncStore
two_items = record {
  items = item (pos 4) ∷ item (pos 9) ∷ [];
  clock = λ n. pos 9;
  ticks = 0;
  open_transactions = 0;
  outages = [];
}

turns_drain_example : ((turns 3 two_items).items ≡ []) × (1 ≤ (turns 3 two_items).open_transactions)
turns_drain_example =
    turns_drain 3 two_items refl (λ k. refl, refl, (λ k. refl, refl, tt)) (ground arith)
