-- ===== src/Projection/Worker.antt =====
-- The projection runner as cmd/api/worker-service/main.go wires it: both projectors over the
-- database, and the cursor of the runner's name.
pub mod Clean
pub mod Kept
pub mod Accepted
pub mod Cursor
pub mod Growing
pub mod Caught
use moon_eye.Base.{[], ◌∷◌, Str}
use moon_eye.Base.Int.{ℤ}
use moon_eye.Projection.Store.{Store}
use moon_eye.Projection.Source.{list_since, get_cursor, set_cursor}
use moon_eye.Projection.Summary
use moon_eye.Projection.Balance
use moon_eye.Projection.Runner.{Runner}

module _ (summary : Summary.Codec) (balance : Balance.Codec) (name : Str) (size : ℤ) where
  abbrev pub worker_runner : Runner Store
  worker_runner = record {
    list_since = list_since;
    get_cursor = get_cursor name;
    set_cursor = set_cursor name;
    processors = Summary.process summary ∷ Balance.process balance ∷ [];
    batch_size = size;
  }
