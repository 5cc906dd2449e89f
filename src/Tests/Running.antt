-- ===== src/Tests/Running.antt =====
-- One turn of the runner over one event.
use moon_eye.Base.{◌⊎◌, ◌≡◌, refl, [], ◌∷◌, codes, str_eq, arith}
use moon_eye.Base.Int.{pos}
use moon_eye.Outcome.{ok}
use moon_eye.Projection.Store.{Store}
use moon_eye.Projection.Balance
use moon_eye.Projection.Runner.{round, rounds}
use moon_eye.Projection.Worker.{worker_runner}
use moon_eye.Projection.Worker.Clean.{readable}
use moon_eye.Projection.Worker.Caught.{CaughtUp, rounds-CaughtUp}
use moon_eye.Projection.Worker.Cursor.{Advances, round-cursors}
use moon_eye.Tests.Projecting.{codec, event, lunch}

abbrev balance_lunch : Balance.TransactionPayloadBalance
balance_lunch = record {
  user_id = codes "ann";
  account_id = codes "cash";
  amount = record { mantissa = pos 900; halvings = 0 };
  occurred_at = pos 0;
}

abbrev balance_codec : Balance.Codec
balance_codec = record {
  unmarshal = λ payload. ok balance_lunch;
  month_of = λ t. codes "2024-01";
  to_numeric = λ f. f.mantissa;
  to_numeric-neg = λ f. refl;
}

abbrev pending : Store
pending = record {
  change_events = event 3 (codes "create") ∷ [];
  cursors = [];
  summary = [];
  balance = [];
  outages = [];
}

round-cursors_example :
    ((round (worker_runner codec balance_codec (codes "main") (pos 20)) pending).cursors ≡ [])
    ⊎ Advances codec balance_codec (codes "main") (pos 20) pending
round-cursors_example = round-cursors codec balance_codec (codes "main") (pos 20) pending

-- Three events, of which one was taken, and a page of one.
abbrev behind : Store
behind = record pending {
  change_events =
      event 3 (codes "create") ∷ event 5 (codes "delete") ∷ event 8 (codes "create") ∷ [];
  cursors = (codes "main", 3) ∷ [];
}

rounds-CaughtUp_example :
    CaughtUp codec balance_codec
      (codes "main")
      (pos 1)
      behind
      (rounds (worker_runner codec balance_codec (codes "main") (pos 1)) 2 behind)
unfolding str_eq
rounds-CaughtUp_example =
    rounds-CaughtUp codec balance_codec (codes "main") (pos 1) 2 behind refl (omega arith)
      (
        readable lunch balance_lunch refl refl refl,
        (readable lunch balance_lunch refl refl refl, tt),
      )
      (omega arith)
