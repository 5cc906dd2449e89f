-- ===== src/Queue/Fields.antt =====
-- internal/queue/queue.go: a message that is read is the message that was added.
use moon_eye.Base.{◌≡◌, ℕ, ◌<◌, [], ◌∷◌, Str, str_eq, arith}
use moon_eye.Base.Int.{pos}
use moon_eye.Base.Words.{sign_bit}
use moon_eye.Strconv.{itoa}
use moon_eye.Strconv.RoundTrip.{atoi_checked-itoa}
use moon_eye.Values.{Any, string, raw, int, Payload}
use moon_eye.Queue.Stream.{Message, message_values, decode_message}

-- How go-redis and Redis carry a field: every value comes back as a string.
pub record IsWire (wire : Any → Str) : Type 0 where
  pub text : (s : Str) → wire (string s) ≡ s
  pub bytes : (s : Str) → wire (raw s) ≡ s
  pub number : (n : ℕ) → wire (int (pos n)) ≡ itoa n

abbrev pub carried : (Any → Str) → Payload → Payload
carried wire [] = []
carried wire ((k, v) ∷ fields) = (k, string (wire v)) ∷ carried wire fields

-- The message that a consumer decodes from the fields that `Enqueue` adds is the message that was
-- enqueued, under the id of the entry, if its retry count is an `int` that is not negative. A count
-- of 0, which is not written, comes back as 0.
pub decode_message-message_values :
    (wire : Any → Str) (id : Str) (msg : Message) (n : ℕ)
    → IsWire wire
    → msg.retry_count ≡ pos n
    → n < sign_bit
    → decode_message (record { id = id; values = carried wire (message_values msg) })
      ≡ record msg { id = id }
unfolding message_values decode_message str_eq
decode_message-message_values wire id msg n is count small = ground (
  arith,
  count,
  is.text msg.entity,
  is.text msg.operation,
  is.bytes msg.payload,
  is.number n,
  atoi_checked-itoa n small,
)
