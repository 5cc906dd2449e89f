-- ===== src/Projection/Store.antt =====
-- The part of the database that internal/service/projection uses, and how its statements fail. The
-- rows of change_events are those of source.go; projection_cursors, transaction_summary and
-- monthly_balance are the tables of migrations/0004.
use moon_eye.Base.{ℕ, List, [], ◌∷◌, Str, Option, none, some}
use moon_eye.Base.Int.{ℤ}
use moon_eye.Outcome.{Error, ok, err, Action}
use moon_eye.Values.{Time}

-- `ID` is a BIGSERIAL, which is positive.
pub record ChangeEventRow : Type 0 where
  pub id : ℕ
  pub entity_type : Str
  pub entity_id : Str
  pub user_id : Str
  pub op_type : Str
  pub version : ℤ
  pub payload : Str
  pub created_at : Time

pub record SummaryKey : Type 0 where
  pub user_id : Str
  pub period_key : Str
  pub currency : Str
  pub type : Str

-- `total_amount` is a NUMERIC(18,2), here in hundredths.
pub record Totals : Type 0 where
  pub total_amount : ℤ
  pub count : ℤ

pub record BalanceKey : Type 0 where
  pub user_id : Str
  pub account_id : Str
  pub month_key : Str

-- `outages` tells for each statement to come whether it fails for a reason outside the program, such
-- as a lost connection or a refused cast; after its end statements succeed.
pub record Store : Type 0 where
  pub change_events : List ChangeEventRow
  pub cursors : List (Str × ℕ)
  pub summary : List (SummaryKey × Totals)
  pub balance : List (BalanceKey × ℤ)
  pub outages : List (Option Error)

-- One statement on the tables.
unfoldable pub statement : {A : Type 0} → (Store → A × Store) → Action Store A
statement f s = elim s.outages [
  | [] ↦ let (a, s') = f s in (ok a, s')
  | none ∷ rest ↦ let (a, s') = f (record s { outages = rest }) in (ok a, s')
  | some e ∷ rest ↦ (err e, record s { outages = rest })
]
