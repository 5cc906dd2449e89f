-- ===== src/Database/ChangeEvents.antt =====
-- internal/db/sqlc/change_events.sql.go: the two queries of change events, which no repository calls.
use moon_eye.Base.{
  ℕ, Bool, true, false, List, [], ◌∷◌, Option, none, some, leb, ◌==◌, if◌then◌else◌,
}
use moon_eye.Base.Int.{ℤ, eq_ℤ}
use moon_eye.Outcome.{Action}
use moon_eye.Values.{Time}
use moon_eye.Database.Rows.{ChangeEventRecord, Database, execute}
use moon_eye.Database.Queries.{where_rows, first_row, later_or_same, page_rows}

-- `GetChangeEventByID`.
unfoldable pub get_change_event_by_id : ℕ → Action Database ChangeEventRecord
get_change_event_by_id id =
    execute (λ s. (first_row (where_rows (λ r. r.id == id) s.change_events), s))

abbrev same_time : Option Time → Option Time → Bool
same_time (some t) (some u) = eq_ℤ t u
same_time none none = true
same_time _ _ = false

-- `ORDER BY created_at DESC, id DESC`.
unfoldable pub comes_first : ChangeEventRecord → ChangeEventRecord → Bool
comes_first r q =
    if same_time r.created_at q.created_at
    then leb q.id r.id
    else later_or_same r.created_at q.created_at

unfoldable pub insert_newest : ChangeEventRecord → List ChangeEventRecord → List ChangeEventRecord
insert_newest r [] = r ∷ []
insert_newest r (q ∷ qs) =
    let rest = insert_newest r qs in if comes_first r q then r ∷ q ∷ qs else q ∷ rest

unfoldable pub newest_first : List ChangeEventRecord → List ChangeEventRecord
newest_first [] = []
newest_first (r ∷ rs) = insert_newest r (newest_first rs)

-- `ListChangeEvents`, with its limit and offset.
unfoldable pub list_change_events : ℤ → ℤ → Action Database (List ChangeEventRecord)
list_change_events limit offset =
    execute (λ s. (page_rows limit offset (newest_first s.change_events), s))
