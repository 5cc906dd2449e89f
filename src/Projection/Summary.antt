-- ===== src/Projection/Summary.antt =====
-- internal/service/projection/transaction_summary.go: monthly totals by user, currency and type.
-- Not under src/, so a parameter: the JSON decoding, the month of a time, and Postgres's rounding of
-- a float64 to NUMERIC(18,2), which `Codec` gives.
pub mod Effects
use moon_eye.Base.{Bool, List, [], ◌∷◌, Str, codes, str_eq, if◌then◌else◌, ◌≡◌}
use moon_eye.Base.Int.{ℤ, pos, negsuc, ◌-ℤ◌}
use moon_eye.Outcome.{Result, Error, ok, err, wrap, Action, pure, lift, wrapped, ◌>>=◌, ◌>>◌}
use moon_eye.Values.{Time, Float64}
use moon_eye.Projection.Store.{ChangeEventRow, Store, SummaryKey, Totals, statement}
use moon_eye.Projection.Tables.{upsert_summary}

pub record TransactionPayload : Type 0 where
  pub user_id : Str
  pub amount : Float64
  pub currency : Str
  pub type : Str
  pub occurred_at : Time
  pub deleted : Bool

-- `-f` on a float64.
abbrev pub neg_float : Float64 → Float64
neg_float f = record f { mantissa = pos 0 -ℤ f.mantissa }

pub record Codec : Type 0 where
  -- `json.Unmarshal` of an event's payload.
  pub unmarshal : Str → Result TransactionPayload
  -- `t.UTC().Format("2006-01")`.
  pub month_of : Time → Str
  -- A float64 parameter in a NUMERIC(18,2) column, in hundredths.
  pub to_numeric : Float64 → ℤ
  -- Rounding does not depend on the sign.
  pub to_numeric-neg : (f : Float64) → to_numeric (neg_float f) ≡ pos 0 -ℤ to_numeric f

abbrev pub default_to : Str → Str → Str
default_to d [] = d
default_to d (c ∷ s) = c ∷ s

module _ (codec : Codec) where
  unfoldable pub add : SummaryKey → Float64 → ℤ → Action Store (Unit {0})
  add key amount count_delta = statement (λ s. (
    tt,
    record s {
      summary =
          upsert_summary key
            (record { total_amount = codec.to_numeric amount; count = count_delta }) s.summary;
    },
  ))

  -- The row that a payload counts in, after the defaults for currency and type.
  abbrev pub summary_key : TransactionPayload → SummaryKey
  summary_key txn = record {
    user_id = txn.user_id;
    period_key = codec.month_of txn.occurred_at;
    currency = default_to (codes "IDR") txn.currency;
    type = default_to (codes "expense") txn.type;
  }

  -- The switch on `event.OpType`.
  unfoldable pub apply_op : Str → TransactionPayload → Action Store (Unit {0})
  apply_op op txn =
      if str_eq op (codes "create")
      then add (summary_key txn) txn.amount (pos 1)
      else if str_eq op (codes "delete")
      then add (summary_key txn) (neg_float txn.amount) (negsuc 0)
      else if str_eq op (codes "update")
      then add (summary_key txn) txn.amount (pos 1)
      else pure tt

  unfoldable pub process : ChangeEventRow → Action Store (Unit {0})
  process event =
      if str_eq event.entity_type (codes "transaction")
      then lift (wrapped (codes "unmarshal transaction payload") (codec.unmarshal event.payload))
        >>= apply_op event.op_type
      else pure tt
