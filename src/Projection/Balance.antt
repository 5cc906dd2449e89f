-- ===== src/Projection/Balance.antt =====
-- internal/service/projection/monthly_balance.go: the balance of each account's month.
pub mod Effects
use moon_eye.Base.{List, [], ◌∷◌, Str, codes, str_eq, if◌then◌else◌, ◌≡◌}
use moon_eye.Base.Int.{ℤ, pos, ◌-ℤ◌}
use moon_eye.Outcome.{Result, wrap, Action, pure, lift, wrapped, ◌>>=◌}
use moon_eye.Values.{Time, Float64}
use moon_eye.Projection.Store.{ChangeEventRow, Store, BalanceKey, statement}
use moon_eye.Projection.Tables.{upsert_balance}
use moon_eye.Projection.Summary.{neg_float}

pub record TransactionPayloadBalance : Type 0 where
  pub user_id : Str
  pub account_id : Str
  pub amount : Float64
  pub occurred_at : Time

-- What is not under src/, as in `Summary.Codec`.
pub record Codec : Type 0 where
  pub unmarshal : Str → Result TransactionPayloadBalance
  pub month_of : Time → Str
  pub to_numeric : Float64 → ℤ
  pub to_numeric-neg : (f : Float64) → to_numeric (neg_float f) ≡ pos 0 -ℤ to_numeric f

module _ (codec : Codec) where
  unfoldable pub add : BalanceKey → Float64 → Action Store (Unit {0})
  add key amount =
      statement
        (λ s. (tt, record s { balance = upsert_balance key (codec.to_numeric amount) s.balance }))

  abbrev pub balance_key : TransactionPayloadBalance → BalanceKey
  balance_key txn = record {
    user_id = txn.user_id;
    account_id = txn.account_id;
    month_key = codec.month_of txn.occurred_at;
  }

  unfoldable pub apply_op : Str → TransactionPayloadBalance → Action Store (Unit {0})
  apply_op op txn =
      if str_eq op (codes "create")
      then add (balance_key txn) txn.amount
      else if str_eq op (codes "delete")
      then add (balance_key txn) (neg_float txn.amount)
      else if str_eq op (codes "update")
      then add (balance_key txn) txn.amount
      else pure tt

  unfoldable pub process : ChangeEventRow → Action Store (Unit {0})
  process event =
      if str_eq event.entity_type (codes "transaction")
      then lift (wrapped (codes "unmarshal transaction payload") (codec.unmarshal event.payload))
        >>= apply_op event.op_type
      else pure tt
