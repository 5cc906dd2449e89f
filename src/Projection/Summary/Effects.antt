-- ===== src/Projection/Summary/Effects.antt =====
-- What each change event does to transaction_summary.
use moon_eye.Base.{
  ◌≡◌, refl, ◌∙◌, ap, Bool, true, false, List, [], Str, codes, str_eq, arith, Bool-cases, inl, inr,
  if◌then◌else◌,
}
use moon_eye.Base.Int.{ℤ, pos, negsuc, ◌+ℤ◌, ◌-ℤ◌, int_laws}
use moon_eye.Outcome.{Result, ok}
use moon_eye.Values.{Float64}
use moon_eye.Projection.Store.{ChangeEventRow, Store, SummaryKey, Totals, statement}
use moon_eye.Projection.Tables.{
  summary_key_eq, summary_key_eq_iff, upsert_summary, totals_at, add_totals, no_totals,
  totals_at-upsert_summary,
}
use moon_eye.Projection.Summary.{
  Codec, TransactionPayload, neg_float, summary_key, add, apply_op, process,
}

+ℤ-zero : (a : ℤ) → a +ℤ pos 0 ≡ a
+ℤ-zero a = omega int_laws

+ℤ-cancel : (a x : ℤ) → a +ℤ x +ℤ (pos 0 -ℤ x) ≡ a
+ℤ-cancel a x = omega int_laws

+ℤ-cancel_one : (a : ℤ) → a +ℤ pos 1 +ℤ negsuc 0 ≡ a
+ℤ-cancel_one a = omega int_laws

-- A row under a key that matches or not, added to and taken from.
both_rows :
    (b : Bool) (t : Totals) (x : ℤ)
    → let t' = if b then add_totals t (record { total_amount = x; count = pos 1 }) else t in
      (if b then add_totals t' (record { total_amount = pos 0 -ℤ x; count = negsuc 0 }) else t') ≡ t
both_rows true t x = ground (arith, +ℤ-cancel t.total_amount x, +ℤ-cancel_one t.count)
both_rows false t x = refl

module _ (codec : Codec) where
  -- What an event of this kind adds to its row.
  unfoldable pub delta : Str → TransactionPayload → Totals
  delta op txn =
      if str_eq op (codes "create")
      then record { total_amount = codec.to_numeric txn.amount; count = pos 1 }
      else if str_eq op (codes "delete")
      then record { total_amount = pos 0 -ℤ codec.to_numeric txn.amount; count = negsuc 0 }
      else if str_eq op (codes "update")
      then record { total_amount = codec.to_numeric txn.amount; count = pos 1 }
      else no_totals

  delta-create :
      (op : Str) (txn : TransactionPayload)
      → op ≡ codes "create"
      → delta op txn ≡ record { total_amount = codec.to_numeric txn.amount; count = pos 1 }
  unfolding delta str_eq
  delta-create op txn e = rw e

  delta-delete :
      (op : Str) (txn : TransactionPayload)
      → op ≡ codes "delete"
      → delta op txn
        ≡ record { total_amount = pos 0 -ℤ codec.to_numeric txn.amount; count = negsuc 0 }
  unfolding delta str_eq
  delta-delete op txn e = rw e

  delta-update :
      (op : Str) (txn : TransactionPayload)
      → op ≡ codes "update"
      → delta op txn ≡ record { total_amount = codec.to_numeric txn.amount; count = pos 1 }
  unfolding delta str_eq
  delta-update op txn e = rw e

  -- The table after an event of this kind: an unknown kind adds no row.
  unfoldable pub effect :
      Str → TransactionPayload → List (SummaryKey × Totals) → List (SummaryKey × Totals)
  effect op txn rows =
      if str_eq op (codes "create")
      then upsert_summary (summary_key codec txn) (delta op txn) rows
      else if str_eq op (codes "delete")
      then upsert_summary (summary_key codec txn) (delta op txn) rows
      else if str_eq op (codes "update")
      then upsert_summary (summary_key codec txn) (delta op txn) rows
      else rows

  add_calm :
      (key : SummaryKey) (amount : Float64) (n : ℤ) (s : Store)
      → s.outages ≡ []
      → add codec key amount n s ≡ (
        ok tt,
        record s {
          summary =
              upsert_summary key
                (record { total_amount = codec.to_numeric amount; count = n })
                s.summary;
        },
      )
  unfolding add statement
  add_calm key amount n s calm = rw calm

  apply_op_calm :
      (op : Str) (txn : TransactionPayload) (s : Store)
      → s.outages ≡ []
      → apply_op codec op txn s ≡ (ok tt, record s { summary = effect op txn s.summary })
  unfolding apply_op effect delta
  apply_op_calm op txn s calm = elim (Bool-cases (str_eq op (codes "create"))) [
    | inl create ↦ rw (create, add_calm (summary_key codec txn) txn.amount (pos 1) s calm)
    | inr not_create ↦ elim (Bool-cases (str_eq op (codes "delete"))) [
      | inl delete ↦ rw (
        not_create,
        delete,
        add_calm (summary_key codec txn) (neg_float txn.amount) (negsuc 0) s calm,
        codec.to_numeric-neg txn.amount,
      )
      | inr not_delete ↦ elim (Bool-cases (str_eq op (codes "update"))) [
        | inl update ↦ rw (
          not_create,
          not_delete,
          update,
          add_calm (summary_key codec txn) txn.amount (pos 1) s calm,
        )
        | inr other_kind ↦ rw (not_create, not_delete, other_kind)
      ]
    ]
  ]

  -- An event of a transaction that can be read, with the database up.
  pub process_calm :
      (event : ChangeEventRow) (txn : TransactionPayload) (s : Store)
      → str_eq event.entity_type (codes "transaction") ≡ true
      → codec.unmarshal event.payload ≡ ok txn
      → s.outages ≡ []
      → process codec event s ≡ (ok tt, record s { summary = effect event.op_type txn s.summary })
  unfolding process
  process_calm event txn s kind read calm = rw (kind, read, apply_op_calm event.op_type txn s calm)

  totals_at-effect :
      (op : Str) (txn : TransactionPayload) (j : SummaryKey) (rows : List (SummaryKey × Totals))
      → totals_at j (effect op txn rows) ≡ (
          if summary_key_eq (summary_key codec txn) j
          then add_totals (totals_at j rows) (delta op txn)
          else totals_at j rows)
  unfolding effect delta
  totals_at-effect op txn j rows = ground (
    arith,
    totals_at-upsert_summary (summary_key codec txn) j (delta op txn) rows,
    +ℤ-zero (totals_at j rows).total_amount,
    +ℤ-zero (totals_at j rows).count,
  )

  -- An event of a transaction that can be read adds its delta to the row of its user, month, currency
  -- and type, changes no other row, and touches no other table, when the database is up.
  pub process-totals :
      (event : ChangeEventRow) (txn : TransactionPayload) (s : Store) (j : SummaryKey)
      → str_eq event.entity_type (codes "transaction") ≡ true
      → codec.unmarshal event.payload ≡ ok txn
      → s.outages ≡ []
      → let (r, s') = process codec event s in
        (r ≡ ok tt)
        × (totals_at j s'.summary ≡ (
            if summary_key_eq (summary_key codec txn) j
            then add_totals (totals_at j s.summary) (delta event.op_type txn)
            else totals_at j s.summary))
        × (s'.change_events ≡ s.change_events)
        × (s'.cursors ≡ s.cursors)
        × (s'.balance ≡ s.balance)
        × (s'.outages ≡ [])
  process-totals event txn s j kind read calm =
      rw (process_calm event txn s kind read calm)
        (refl, totals_at-effect event.op_type txn j s.summary, refl, refl, refl, calm)

  module _ (created later : ChangeEventRow) (old new : TransactionPayload) (s : Store)
      (is_created : str_eq created.entity_type (codes "transaction") ≡ true)
      (is_later : str_eq later.entity_type (codes "transaction") ≡ true)
      (read_created : codec.unmarshal created.payload ≡ ok old)
      (read_later : codec.unmarshal later.payload ≡ ok new) (calm : s.outages ≡ []) where
    abbrev both : Store
    both = (process codec later (process codec created s).1).1

    both-summary : both.summary ≡ effect later.op_type new (effect created.op_type old s.summary)
    both-summary =
        ap (λ (p : Result (Unit {0}) × Store). (process codec later p.1).1.summary)
          (process_calm created old s is_created read_created calm)
        ∙ ap (λ (p : Result (Unit {0}) × Store). p.1.summary)
            (process_calm later new (record s { summary = effect created.op_type old s.summary })
              is_later read_later calm)

    totals_at-both :
        (j : SummaryKey)
        → let t =
            if summary_key_eq (summary_key codec old) j
            then add_totals (totals_at j s.summary) (delta created.op_type old)
            else totals_at j s.summary in
          totals_at j both.summary ≡ (
            if summary_key_eq (summary_key codec new) j
            then add_totals t (delta later.op_type new)
            else t)
    totals_at-both j =
        ap (totals_at j) both-summary
        ∙ totals_at-effect later.op_type new j (effect created.op_type old s.summary)
        ∙ ap
            (λ (t : Totals).
              if summary_key_eq (summary_key codec new) j
              then add_totals t (delta later.op_type new)
              else t)
            (totals_at-effect created.op_type old j s.summary)

    -- A delete event whose payload counts in the row of the create event and has its amount takes back
    -- what the create event added, in every row.
    pub process-create_delete :
        (j : SummaryKey)
        → created.op_type ≡ codes "create"
        → later.op_type ≡ codes "delete"
        → summary_key codec new ≡ summary_key codec old
        → codec.to_numeric new.amount ≡ codec.to_numeric old.amount
        → totals_at j both.summary ≡ totals_at j s.summary
    process-create_delete j op1 op2 same_row same_amount =
        totals_at-both j
        ∙ rw
            (
              ap (λ (k : SummaryKey). summary_key_eq k j) same_row,
              delta-create created.op_type old op1,
              delta-delete later.op_type new op2,
              same_amount,
            )
            (both_rows (summary_key_eq (summary_key codec old) j) (totals_at j s.summary)
              (codec.to_numeric old.amount))

    -- An update event in the row of the create event is added on top: the row counts the transaction
    -- twice, with the old amount and the new.
    pub process-create_update :
        created.op_type ≡ codes "create"
        → later.op_type ≡ codes "update"
        → summary_key codec new ≡ summary_key codec old
        → let t = totals_at (summary_key codec old) s.summary in
          totals_at (summary_key codec old) both.summary ≡ record {
            total_amount =
                t.total_amount +ℤ codec.to_numeric old.amount +ℤ codec.to_numeric new.amount;
            count = t.count +ℤ pos 1 +ℤ pos 1;
          }
    process-create_update op1 op2 same_row =
        totals_at-both (summary_key codec old)
        ∙ rw
            (
              ap (λ (k : SummaryKey). summary_key_eq k (summary_key codec old)) same_row,
              delta-create created.op_type old op1,
              delta-update later.op_type new op2,
              (summary_key_eq_iff (summary_key codec old) (summary_key codec old)).1 refl,
            )
            refl
