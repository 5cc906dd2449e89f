-- ===== src/Tests/Projecting.antt =====
-- Two events of one transaction.
use moon_eye.Base.{ℕ, false, ◌≡◌, refl, [], Str, codes, str_eq, if◌then◌else◌}
use moon_eye.Base.Int.{pos}
use moon_eye.Outcome.{ok}
use moon_eye.Projection.Store.{ChangeEventRow, Store}
use moon_eye.Projection.Tables.{summary_key_eq, totals_at, add_totals}
use moon_eye.Projection.Summary.{Codec, TransactionPayload, summary_key, process}
use moon_eye.Projection.Summary.Effects.{delta, process-totals, process-create_delete}

abbrev pub lunch : TransactionPayload
lunch = record {
  user_id = codes "ann";
  amount = record { mantissa = pos 900; halvings = 0 };
  currency = [];
  type = [];
  occurred_at = pos 0;
  deleted = false;
}

abbrev pub codec : Codec
codec = record {
  unmarshal = λ payload. ok lunch;
  month_of = λ t. codes "2024-01";
  to_numeric = λ f. f.mantissa;
  to_numeric-neg = λ f. refl;
}

abbrev pub event : ℕ → Str → ChangeEventRow
event id op = record {
  id = id;
  entity_type = codes "transaction";
  entity_id = codes "t1";
  user_id = codes "ann";
  op_type = op;
  version = pos 1;
  payload = [];
  created_at = pos 0;
}

abbrev empty : Store
empty = record { change_events = []; cursors = []; summary = []; balance = []; outages = [] }

process-totals_example :
    let (r, s') = process codec (event 1 (codes "create")) empty in
    (r ≡ ok tt)
    × (totals_at (summary_key codec lunch) s'.summary ≡ (
        if summary_key_eq (summary_key codec lunch) (summary_key codec lunch)
        then add_totals
            (totals_at (summary_key codec lunch) [])
            (delta codec (codes "create") lunch)
        else totals_at (summary_key codec lunch) []))
    × (s'.change_events ≡ [])
    × (s'.cursors ≡ [])
    × (s'.balance ≡ [])
    × (s'.outages ≡ [])
unfolding str_eq
process-totals_example =
    process-totals codec (event 1 (codes "create")) lunch empty (summary_key codec lunch) refl refl
      refl

process-create_delete_example :
    totals_at
      (summary_key codec lunch)
      (process codec
        (event 2 (codes "delete"))
        (process codec (event 1 (codes "create")) empty).1).1.summary
    ≡ totals_at (summary_key codec lunch) []
unfolding str_eq
process-create_delete_example =
    process-create_delete codec (event 1 (codes "create")) (event 2 (codes "delete")) lunch lunch
      empty refl refl refl refl refl (summary_key codec lunch) refl refl refl refl
