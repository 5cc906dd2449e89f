-- ===== src/Projection/Worker/Kept.antt =====
-- What leaves the cursors alone: the statements, the processors and the loops over them.
use moon_eye.Base.{
  ℕ, ◌≡◌, refl, ◌∙◌, List, [], ◌∷◌, Str, Option, none, some, codes, str_eq, ltb, Bool-cases, inl,
  inr, if◌then◌else◌,
}
use moon_eye.Outcome.{Error, Action, ◌>>=◌, Result-cases}
use moon_eye.Projection.Store.{ChangeEventRow, Store, statement}
use moon_eye.Projection.Summary
use moon_eye.Projection.Balance
use moon_eye.Projection.Runner.{run_processors, run_events}

abbrev pub KeepsCursors : {A : Type 0} → Action Store A → Type 0
KeepsCursors m = (s : Store) → (m s).1.cursors ≡ s.cursors

statement-tables :
    {A : Type 0} (f : Store → A × Store) (s : Store) (o : List (Option Error))
    → ((t : Store) → (f t).1.cursors ≡ t.cursors)
    → s.outages ≡ o
    → (statement f s).1.cursors ≡ s.cursors
unfolding statement
statement-tables f s [] h e = rw e (h (record s { outages = [] }))
statement-tables f s (none ∷ rest) h e = rw e (h (record s { outages = rest }))
statement-tables f s (some x ∷ rest) h e = rw e refl

pub statement-KeepsCursors :
    {A : Type 0} (f : Store → A × Store)
    → ((t : Store) → (f t).1.cursors ≡ t.cursors)
    → KeepsCursors (statement f)
statement-KeepsCursors f h s = statement-tables f s s.outages h refl

bind-KeepsCursors :
    {A B : Type 0} (m : Action Store A) (f : A → Action Store B)
    → KeepsCursors m
    → ((a : A) → KeepsCursors (f a))
    → KeepsCursors (m >>= f)
bind-KeepsCursors m f hm hf s = elim (Result-cases (m s).0) [
  | inl (a, e) ↦ rw (e, ◌>>=◌) (hf a (m s).1 ∙ hm s)
  | inr (x, e) ↦ rw (e, ◌>>=◌) (hm s)
]

abbrev pub AllKeep : List (ChangeEventRow → Action Store (Unit {0})) → Type 0
AllKeep [] = Unit
AllKeep (p ∷ ps) = ((ev : ChangeEventRow) → KeepsCursors (p ev)) × AllKeep ps

run_processors-KeepsCursors :
    (ps : List (ChangeEventRow → Action Store (Unit {0}))) (ev : ChangeEventRow)
    → AllKeep ps
    → KeepsCursors (run_processors ps ev)
unfolding run_processors
run_processors-KeepsCursors [] ev h s = refl
run_processors-KeepsCursors (p ∷ ps) ev h s =
    bind-KeepsCursors (p ev) (λ _. run_processors ps ev) (h.0 ev)
      (λ _. run_processors-KeepsCursors ps ev h.1) s

pub run_events-cursors :
    (ps : List (ChangeEventRow → Action Store (Unit {0}))) (m : ℕ) (evs : List ChangeEventRow)
    (s : Store)
    → AllKeep ps
    → (run_events ps m evs s).1.cursors ≡ s.cursors
unfolding run_events
run_events-cursors ps m [] s h = refl
run_events-cursors ps m (ev ∷ evs) s h =
    let m' = if ltb m ev.id then ev.id else m in
    let kept = run_processors-KeepsCursors ps ev h s in
    elim (Result-cases (run_processors ps ev s).0) [
      | inl (u, e) ↦
          rw (e, run_events) (run_events-cursors ps m' evs (run_processors ps ev s).1 h ∙ kept)
      | inr (x, e) ↦ rw (e, run_events) kept
    ]

module _ (summary : Summary.Codec) (balance : Balance.Codec) where
  summary_apply_op-KeepsCursors :
      (op : Str) (txn : Summary.TransactionPayload) → KeepsCursors (Summary.apply_op summary op txn)
  unfolding Summary.apply_op Summary.add
  summary_apply_op-KeepsCursors op txn s = elim (Bool-cases (str_eq op (codes "create"))) [
    | inl create ↦ rw (create, Summary.apply_op) (statement-KeepsCursors _ (λ t. refl) s)
    | inr not_create ↦ elim (Bool-cases (str_eq op (codes "delete"))) [
      | inl delete ↦
          rw (not_create, delete, Summary.apply_op) (statement-KeepsCursors _ (λ t. refl) s)
      | inr not_delete ↦ elim (Bool-cases (str_eq op (codes "update"))) [
        | inl update ↦
            rw (not_create, not_delete, update, Summary.apply_op)
              (statement-KeepsCursors _ (λ t. refl) s)
        | inr other_kind ↦ rw (not_create, not_delete, other_kind, Summary.apply_op) refl
      ]
    ]
  ]

  pub summary-KeepsCursors : (ev : ChangeEventRow) → KeepsCursors (Summary.process summary ev)
  unfolding Summary.process
  summary-KeepsCursors ev s = elim (Bool-cases (str_eq ev.entity_type (codes "transaction"))) [
    | inl kind ↦ elim (Result-cases (summary.unmarshal ev.payload)) [
      | inl (txn, e) ↦ rw (kind, e) (summary_apply_op-KeepsCursors ev.op_type txn s)
      | inr (x, e) ↦ rw (kind, e) refl
    ]
    | inr foreign ↦ rw foreign refl
  ]

  balance_apply_op-KeepsCursors :
      (op : Str) (txn : Balance.TransactionPayloadBalance)
      → KeepsCursors (Balance.apply_op balance op txn)
  unfolding Balance.apply_op Balance.add
  balance_apply_op-KeepsCursors op txn s = elim (Bool-cases (str_eq op (codes "create"))) [
    | inl create ↦ rw (create, Balance.apply_op) (statement-KeepsCursors _ (λ t. refl) s)
    | inr not_create ↦ elim (Bool-cases (str_eq op (codes "delete"))) [
      | inl delete ↦
          rw (not_create, delete, Balance.apply_op) (statement-KeepsCursors _ (λ t. refl) s)
      | inr not_delete ↦ elim (Bool-cases (str_eq op (codes "update"))) [
        | inl update ↦
            rw (not_create, not_delete, update, Balance.apply_op)
              (statement-KeepsCursors _ (λ t. refl) s)
        | inr other_kind ↦ rw (not_create, not_delete, other_kind, Balance.apply_op) refl
      ]
    ]
  ]

  pub balance-KeepsCursors : (ev : ChangeEventRow) → KeepsCursors (Balance.process balance ev)
  unfolding Balance.process
  balance-KeepsCursors ev s = elim (Bool-cases (str_eq ev.entity_type (codes "transaction"))) [
    | inl kind ↦ elim (Result-cases (balance.unmarshal ev.payload)) [
      | inl (txn, e) ↦ rw (kind, e) (balance_apply_op-KeepsCursors ev.op_type txn s)
      | inr (x, e) ↦ rw (kind, e) refl
    ]
    | inr foreign ↦ rw foreign refl
  ]
