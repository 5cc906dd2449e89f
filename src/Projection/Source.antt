-- ===== src/Projection/Source.antt =====
-- internal/service/projection/source_db.go and cursor_db.go: reading change events by id, and the
-- cursor of a projector.
use moon_eye.Base.{
  ℕ, zero, List, [], ◌∷◌, Str, Option, none, some, lookup, insert, take, ltb, if◌then◌else◌,
}
use moon_eye.Base.Int.{ℤ, pos, negsuc}
use moon_eye.Outcome.{Action}
use moon_eye.Projection.Store.{ChangeEventRow, Store, statement}

-- `WHERE id > $1`.
abbrev pub since : ℕ → List ChangeEventRow → List ChangeEventRow
since id [] = []
since id (ev ∷ evs) = let rest = since id evs in if ltb id ev.id then ev ∷ rest else rest

-- `ORDER BY id ASC`.
unfoldable pub insert_event : ChangeEventRow → List ChangeEventRow → List ChangeEventRow
insert_event e [] = e ∷ []
insert_event e (f ∷ fs) = if ltb f.id e.id then f ∷ insert_event e fs else e ∷ f ∷ fs

unfoldable pub order_by_id : List ChangeEventRow → List ChangeEventRow
order_by_id [] = []
order_by_id (e ∷ es) = insert_event e (order_by_id es)

-- `if limit <= 0 { limit = 100 }`.
abbrev pub page_size : ℤ → ℕ
page_size (pos zero) = 100
page_size (pos n) = n
page_size (negsuc n) = 100

unfoldable pub list_since : ℕ → ℤ → Action Store (List ChangeEventRow)
list_since since_id limit =
    statement (λ s. (take (page_size limit) (order_by_id (since since_id s.change_events)), s))

-- No row is the cursor 0.
abbrev pub cursor_or_zero : Option ℕ → ℕ
cursor_or_zero none = 0
cursor_or_zero (some id) = id

unfoldable pub get_cursor : Str → Action Store ℕ
get_cursor name = statement (λ s. (cursor_or_zero (lookup name s.cursors), s))

unfoldable pub set_cursor : Str → ℕ → Action Store (Unit {0})
set_cursor name id = statement (λ s. (tt, record s { cursors = insert name id s.cursors }))
