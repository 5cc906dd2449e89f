-- ===== src/Projection/Tables.antt =====
-- The upserts of transaction_summary and monthly_balance: a row that is missing is inserted, one
-- that is there is added to.
use moon_eye.Base.{
  ◌≡◌, Bool, true, ◌&&◌, List, [], ◌∷◌, str_eq, str_eq_iff, arith, if◌then◌else◌, ◌↔◌, ap,
}
use moon_eye.Base.Int.{ℤ, pos, ◌+ℤ◌, int_laws}
use moon_eye.Projection.Store.{SummaryKey, Totals, BalanceKey}

unfoldable pub summary_key_eq : SummaryKey → SummaryKey → Bool
summary_key_eq a b =
    str_eq a.user_id b.user_id
    && str_eq a.period_key b.period_key
    && str_eq a.currency b.currency
    && str_eq a.type b.type

unfoldable pub balance_key_eq : BalanceKey → BalanceKey → Bool
balance_key_eq a b =
    str_eq a.user_id b.user_id && str_eq a.account_id b.account_id && str_eq a.month_key b.month_key

abbrev pub add_totals : Totals → Totals → Totals
add_totals a b = record {
  total_amount = a.total_amount +ℤ b.total_amount;
  count = a.count +ℤ b.count;
}

unfoldable pub upsert_summary :
    SummaryKey → Totals → List (SummaryKey × Totals) → List (SummaryKey × Totals)
upsert_summary k d [] = (k, d) ∷ []
upsert_summary k d ((j, t) ∷ rows) =
    if summary_key_eq j k then (j, add_totals t d) ∷ rows else (j, t) ∷ upsert_summary k d rows

unfoldable pub upsert_balance : BalanceKey → ℤ → List (BalanceKey × ℤ) → List (BalanceKey × ℤ)
upsert_balance k d [] = (k, d) ∷ []
upsert_balance k d ((j, b) ∷ rows) =
    if balance_key_eq j k then (j, b +ℤ d) ∷ rows else (j, b) ∷ upsert_balance k d rows

abbrev pub no_totals : Totals
no_totals = record { total_amount = pos 0; count = pos 0 }

-- The totals under a key, zero where there is no row.
unfoldable pub totals_at : SummaryKey → List (SummaryKey × Totals) → Totals
totals_at k [] = no_totals
totals_at k ((j, t) ∷ rows) = if summary_key_eq j k then t else totals_at k rows

unfoldable pub balance_at : BalanceKey → List (BalanceKey × ℤ) → ℤ
balance_at k [] = pos 0
balance_at k ((j, b) ∷ rows) = if balance_key_eq j k then b else balance_at k rows

pub summary_key_eq_iff : (a b : SummaryKey) → (summary_key_eq a b ≡ true) ↔ (a ≡ b)
unfolding summary_key_eq
summary_key_eq_iff a b = (
  λ h. ground (
    arith,
    str_eq_iff a.user_id b.user_id,
    str_eq_iff a.period_key b.period_key,
    str_eq_iff a.currency b.currency,
    str_eq_iff a.type b.type,
  ),
  λ e. ground (
    arith,
    ap (λ (k : SummaryKey). summary_key_eq k b) e,
    str_eq_iff b.user_id b.user_id,
    str_eq_iff b.period_key b.period_key,
    str_eq_iff b.currency b.currency,
    str_eq_iff b.type b.type,
  ),
)

pub balance_key_eq_iff : (a b : BalanceKey) → (balance_key_eq a b ≡ true) ↔ (a ≡ b)
unfolding balance_key_eq
balance_key_eq_iff a b = (
  λ h. ground (
    arith,
    str_eq_iff a.user_id b.user_id,
    str_eq_iff a.account_id b.account_id,
    str_eq_iff a.month_key b.month_key,
  ),
  λ e. ground (
    arith,
    ap (λ (k : BalanceKey). balance_key_eq k b) e,
    str_eq_iff b.user_id b.user_id,
    str_eq_iff b.account_id b.account_id,
    str_eq_iff b.month_key b.month_key,
  ),
)

zero-+ℤ : (a : ℤ) → pos 0 +ℤ a ≡ a
zero-+ℤ a = omega int_laws

-- An upsert adds to the totals under its key and leaves the others.
pub totals_at-upsert_summary :
    (k j : SummaryKey) (d : Totals) (rows : List (SummaryKey × Totals))
    → totals_at j (upsert_summary k d rows)
      ≡ (if summary_key_eq k j then add_totals (totals_at j rows) d else totals_at j rows)
unfolding totals_at upsert_summary
totals_at-upsert_summary k j d [] = ground (arith, zero-+ℤ d.total_amount, zero-+ℤ d.count)
totals_at-upsert_summary k j d ((i, t) ∷ rows) = ground (
  arith,
  summary_key_eq_iff i k,
  summary_key_eq_iff i j,
  summary_key_eq_iff k j,
  totals_at-upsert_summary k j d rows,
)

pub balance_at-upsert_balance :
    (k j : BalanceKey) (d : ℤ) (rows : List (BalanceKey × ℤ))
    → balance_at j (upsert_balance k d rows)
      ≡ (if balance_key_eq k j then balance_at j rows +ℤ d else balance_at j rows)
unfolding balance_at upsert_balance
balance_at-upsert_balance k j d [] = ground (arith, zero-+ℤ d)
balance_at-upsert_balance k j d ((i, b) ∷ rows) = ground (
  arith,
  balance_key_eq_iff i k,
  balance_key_eq_iff i j,
  balance_key_eq_iff k j,
  balance_at-upsert_balance k j d rows,
)
