-- ===== src/Projection/Balance/Effects.antt =====
-- What each change event does to monthly_balance.
use moon_eye.Base.{◌≡◌, true, List, [], Str, codes, str_eq, Bool-cases, inl, inr, if◌then◌else◌}
use moon_eye.Base.Int.{ℤ, pos, ◌-ℤ◌}
use moon_eye.Outcome.{ok}
use moon_eye.Values.{Float64}
use moon_eye.Projection.Store.{ChangeEventRow, Store, BalanceKey, statement}
use moon_eye.Projection.Tables.{upsert_balance}
use moon_eye.Projection.Summary.{neg_float}
use moon_eye.Projection.Balance.{
  Codec, TransactionPayloadBalance, balance_key, add, apply_op, process,
}

module _ (codec : Codec) where
  -- The table after an event of this kind: an update adds the new amount to the old.
  unfoldable pub effect :
      Str → TransactionPayloadBalance → List (BalanceKey × ℤ) → List (BalanceKey × ℤ)
  effect op txn rows =
      if str_eq op (codes "create")
      then upsert_balance (balance_key codec txn) (codec.to_numeric txn.amount) rows
      else if str_eq op (codes "delete")
      then upsert_balance (balance_key codec txn) (pos 0 -ℤ codec.to_numeric txn.amount) rows
      else if str_eq op (codes "update")
      then upsert_balance (balance_key codec txn) (codec.to_numeric txn.amount) rows
      else rows

  add_calm :
      (key : BalanceKey) (amount : Float64) (s : Store)
      → s.outages ≡ []
      → add codec key amount s
        ≡ (ok tt, record s { balance = upsert_balance key (codec.to_numeric amount) s.balance })
  unfolding add statement
  add_calm key amount s calm = rw calm

  apply_op_calm :
      (op : Str) (txn : TransactionPayloadBalance) (s : Store)
      → s.outages ≡ []
      → apply_op codec op txn s ≡ (ok tt, record s { balance = effect op txn s.balance })
  unfolding apply_op effect
  apply_op_calm op txn s calm = elim (Bool-cases (str_eq op (codes "create"))) [
    | inl create ↦ rw (create, add_calm (balance_key codec txn) txn.amount s calm)
    | inr not_create ↦ elim (Bool-cases (str_eq op (codes "delete"))) [
      | inl delete ↦ rw (
        not_create,
        delete,
        add_calm (balance_key codec txn) (neg_float txn.amount) s calm,
        codec.to_numeric-neg txn.amount,
      )
      | inr not_delete ↦ elim (Bool-cases (str_eq op (codes "update"))) [
        | inl update ↦
            rw (not_create, not_delete, update, add_calm (balance_key codec txn) txn.amount s calm)
        | inr other_kind ↦ rw (not_create, not_delete, other_kind)
      ]
    ]
  ]

  -- An event of a transaction that can be read, with the database up.
  pub process_calm :
      (event : ChangeEventRow) (txn : TransactionPayloadBalance) (s : Store)
      → str_eq event.entity_type (codes "transaction") ≡ true
      → codec.unmarshal event.payload ≡ ok txn
      → s.outages ≡ []
      → process codec event s ≡ (ok tt, record s { balance = effect event.op_type txn s.balance })
  unfolding process
  process_calm event txn s kind read calm = rw (kind, read, apply_op_calm event.op_type txn s calm)
