-- ===== src/Projection/Worker/Accepted.antt =====
-- What the loop over a batch has done when it is still `ok`.
use moon_eye.Base.{
  ℕ, ◌≡◌, sym, refl, ◌∙◌, true, ◌⊎◌, List, [], ◌∷◌, ltb, Bool-cases, inl, inr, ◌≤◌, ◌<◌, arith,
  if◌then◌else◌, subst,
}
use moon_eye.Outcome.{ok, Action, Result-cases, ◌>>=◌}
use moon_eye.Projection.Store.{ChangeEventRow, Store}
use moon_eye.Projection.Summary
use moon_eye.Projection.Balance
use moon_eye.Projection.Runner.{run_processors, run_events}

-- No event has an id above the number.
abbrev pub NoneAbove : ℕ → List ChangeEventRow → Type 0
NoneAbove n [] = Unit
NoneAbove n (ev ∷ evs) = (ev.id ≤ n) × NoneAbove n evs

-- One of the events has the number as its id.
pub data HasId (n : ℕ) : List ChangeEventRow → Type 0 where
  here : (ev : ChangeEventRow) (evs : List ChangeEventRow) → ev.id ≡ n → HasId n (ev ∷ evs)
  later : (ev : ChangeEventRow) (evs : List ChangeEventRow) → HasId n evs → HasId n (ev ∷ evs)

module _ (summary : Summary.Codec) (balance : Balance.Codec) where
  abbrev pub processors : List (ChangeEventRow → Action Store (Unit {0}))
  processors = Summary.process summary ∷ Balance.process balance ∷ []

  -- Both projectors accept every event, each on the state that the one before left.
  abbrev pub BothAccept : List ChangeEventRow → Store → Type 0
  BothAccept [] s = Unit
  BothAccept (ev ∷ evs) s =
      let (summed, s1) = Summary.process summary ev s in
      let (balanced, s2) = Balance.process balance ev s1 in
      (summed ≡ ok tt) × (balanced ≡ ok tt) × BothAccept evs s2

  run_processors-accepted :
      (ev : ChangeEventRow) (s : Store)
      → (run_processors processors ev s).0 ≡ ok tt
      → let p = Summary.process summary ev s in
        let q = Balance.process balance ev p.1 in
        (p.0 ≡ ok tt) × (q.0 ≡ ok tt) × ((run_processors processors ev s).1 ≡ q.1)
  unfolding run_processors
  run_processors-accepted ev s h =
      let p = Summary.process summary ev s in
      elim (Result-cases p.0) [
        | inr (x, e) ↦ absurd (ground (arith, rw (e, run_processors, ◌>>=◌) at h))
        | inl (u, e) ↦ elim (Result-cases (Balance.process balance ev p.1).0) [
          | inr (x, e2) ↦ absurd (ground (arith, rw (e, e2, run_processors, ◌>>=◌) at h))
          | inl (v, e2) ↦ (e, e2, rw (e, run_processors, ◌>>=◌, e2) refl)
        ]
      ]

  -- What a run of the loop says that is still `ok`.
  pub record IsAccepted (from : ℕ) (evs : List ChangeEventRow) (s : Store) (n : ℕ) : Type 0 where
    pub accepted : BothAccept evs s
    pub above : NoneAbove n evs
    pub not_below : from ≤ n
    pub taken : (n ≡ from) ⊎ HasId n evs

  larger :
      (m n : ℕ)
      → let next = if ltb m n then n else m in (m ≤ next) × (n ≤ next) × ((next ≡ m) ⊎ (next ≡ n))
  larger m n = elim (Bool-cases (ltb m n)) [
    | inl less ↦ rw less (ground arith, ground arith, inr refl)
    | inr more ↦ rw more (ground arith, ground arith, inl refl)
  ]

  taken_of :
      (from next n : ℕ) (ev : ChangeEventRow) (evs : List ChangeEventRow)
      → (next ≡ from) ⊎ (next ≡ ev.id)
      → (n ≡ next) ⊎ HasId n evs
      → (n ≡ from) ⊎ HasId n (ev ∷ evs)
  taken_of from next n ev evs at (inr found) = inr (later ev evs found)
  taken_of from next n ev evs (inl kept) (inl last) = inl (last ∙ kept)
  taken_of from next n ev evs (inr now) (inl last) = inr (here ev evs (sym (last ∙ now)))

  one_more :
      (from : ℕ) (ev : ChangeEventRow) (evs : List ChangeEventRow) (s : Store) (next n : ℕ)
      → (let p = Summary.process summary ev s in
          let q = Balance.process balance ev p.1 in
          (p.0 ≡ ok tt) × (q.0 ≡ ok tt) × ((run_processors processors ev s).1 ≡ q.1))
      → (from ≤ next) × (ev.id ≤ next) × ((next ≡ from) ⊎ (next ≡ ev.id))
      → IsAccepted next evs (run_processors processors ev s).1 n
      → IsAccepted from (ev ∷ evs) s n
  one_more from ev evs s next n (summed, balanced, left) (kept, seen, at) rest = record {
    accepted = (summed, balanced, subst (BothAccept evs) left rest.accepted);
    above = (omega (arith, seen, rest.not_below), rest.above);
    not_below = omega (arith, kept, rest.not_below);
    taken = taken_of from next n ev evs at rest.taken;
  }

  pub taken_if_positive :
      (n : ℕ) (evs : List ChangeEventRow) → 0 < n → (n ≡ 0) ⊎ HasId n evs → HasId n evs
  taken_if_positive n evs h (inl zero_id) = absurd (omega (arith, h, zero_id))
  taken_if_positive n evs h (inr found) = found

  pub run_events-IsAccepted :
      (from : ℕ) (evs : List ChangeEventRow) (s : Store)
      → (run_events processors from evs s).0.0 ≡ true
      → IsAccepted from evs s (run_events processors from evs s).0.1
  unfolding run_events
  run_events-IsAccepted from [] s h = record {
    accepted = tt;
    above = tt;
    not_below = omega arith;
    taken = inl refl;
  }
  run_events-IsAccepted from (ev ∷ evs) s h =
      let p = run_processors processors ev s in
      let next = if ltb from ev.id then ev.id else from in
      elim (Result-cases p.0) [
        | inl (u, e) ↦
            rw (e, run_events)
              (one_more from ev evs s next _ (run_processors-accepted ev s e) (larger from ev.id)
                (run_events-IsAccepted next evs p.1 (rw (e, run_events) at h)))
        | inr (x, e) ↦ absurd (ground (arith, rw (e, run_events) at h))
      ]
