-- ===== src/Tests/Listing.antt =====
-- Change events of two users, listed for one of them.
use moon_eye.Base.{◌≡◌, refl, ◌≤◌, [], ◌∷◌, length, none, some, codes, str_eq}
use moon_eye.Base.Int.{ℤ, pos}
use moon_eye.Outcome.{ok}
use moon_eye.Values.{Time, Float64}
use moon_eye.Sheets.Rows.{ChangeEvent}
use moon_eye.Database.Pg.{Uuid}
use moon_eye.Database.Rows.{ChangeEventRecord, Database, execute}
use moon_eye.Database.SyncReaders.{
  scan_rows, insert_by_version, order_by_version, is_transaction_since, scan_event,
  list_transaction_events_since,
}
use moon_eye.Database.Queries.{where_rows, page_rows}
use moon_eye.Database.Listed.{AreListed, list_transaction_events_since-AreListed}
use moon_eye.Database.ChangeEvents.{
  get_change_event_by_id, list_change_events, newest_first, insert_newest, comes_first,
}
use moon_eye.Tests.Sample.{driver, sample}

abbrev event_of : Uuid → ℤ → ChangeEventRecord
event_of user_id version = record {
  id = 1;
  entity_type = codes "transaction";
  entity_id = some 7;
  user_id = some user_id;
  op_type = codes "update";
  payload = [];
  version = version;
  created_at = some (pos 5);
  updated_at = some (pos 5);
  deleted_at = none;
}

abbrev changed : Database
changed = record sample {
  change_events =
      event_of 1 (pos 4) ∷ event_of 2 (pos 3) ∷ event_of 1 (pos 1) ∷ event_of 1 (pos 2) ∷ [];
}

abbrev listed : ℤ → ChangeEvent
listed version = record {
  id = pos 1;
  entity_type = codes "transaction";
  entity_id = 7 ∷ [];
  user_id = 1 ∷ [];
  op_type = codes "update";
  version = version;
  payload = [];
  created_at = pos 5;
}

abbrev seconds : Time → Float64
seconds t = record { mantissa = t; halvings = 0 }

list_transaction_events_since-AreListed_example :
    (uid : Uuid) × (driver.parse_uuid (1 ∷ []) ≡ ok uid)
    × AreListed (driver.print_uuid uid) (pos 1) (pos 1) (listed (pos 2) ∷ listed (pos 4) ∷ [])
    × (length (listed (pos 2) ∷ listed (pos 4) ∷ []) ≤ 5)
unfolding list_transaction_events_since execute where_rows is_transaction_since str_eq
    order_by_version insert_by_version scan_rows scan_event
list_transaction_events_since-AreListed_example =
    list_transaction_events_since-AreListed driver seconds (1 ∷ []) (pos 1) 5 changed
      (listed (pos 2) ∷ listed (pos 4) ∷ []) refl

-- Two events of one time.
abbrev numbered : Database
numbered = record sample {
  change_events = event_of 1 (pos 1) ∷ record (event_of 1 (pos 2)) { id = 2 } ∷ [];
}

-- Of events of one time the one with the larger id is first.
stored_event : get_change_event_by_id 1 changed ≡ (ok (event_of 1 (pos 4)), changed)
unfolding get_change_event_by_id execute where_rows
stored_event = refl

second_page : list_change_events (pos 1) (pos 1) numbered ≡ (ok (event_of 1 (pos 1) ∷ []), numbered)
unfolding list_change_events execute newest_first insert_newest comes_first page_rows
second_page = refl
