-- ===== src/App/Shutdown.antt =====
-- `App.Run` of cmd/api/finance-api/main.go comes to an end, with the server stopped, and its result
-- may hide that the server failed.
use moon_eye.Base.{
  ℕ, suc, ◌+◌, ◌≤◌, ◌<◌, ◌≡◌, ◌≢◌, refl, ◌⊎◌, Bool, true, false, none, some, arith, inl, inr,
  Bool-cases, Option-cases,
}
use moon_eye.Outcome.{Error, Result, ok, err}
use moon_eye.App.Server.{
  Serving, listening, failed, sent, finished, Phase, waiting, stopping, returned, Running, done,
  result_of, closed, Step, fail, send, cancel, notify, cancel_outside, take_signal, take_done,
  take_error, shut_down, Reach, start, next,
}

abbrev serving_left : Serving → ℕ
serving_left listening = 3
serving_left (failed e) = 2
serving_left (sent e) = 1
serving_left finished = 0

abbrev phase_left : Phase → ℕ
phase_left waiting = 3
phase_left stopping = 1
phase_left (returned r) = 0

abbrev left_if : Bool → ℕ
left_if true = 0
left_if false = 1

-- A bound on the steps that are left.
abbrev steps_left : Running → ℕ
steps_left s =
    serving_left s.serving + left_if s.signalled + left_if s.cancelled + phase_left s.phase

closed-left : (v : Serving) → serving_left (closed v) ≤ serving_left v
unfolding closed
closed-left listening = omega arith
closed-left (failed e) = omega arith
closed-left (sent e) = omega arith
closed-left finished = omega arith

Step-left : {s t : Running} → Step s t → steps_left t < steps_left s
Step-left (fail e h) = ground arith
Step-left (send e h) = ground arith
Step-left (cancel e h) = ground arith
Step-left (notify h) = ground arith
Step-left (cancel_outside h) = ground arith
Step-left (take_signal h k) = ground arith
Step-left (take_done h k) = ground arith
Step-left (take_error e h k) = ground arith
Step-left {s} (shut_down end h) = ground (arith, closed-left s.serving)

Reach-left : {n : ℕ} {s : Running} → Reach n s → n + steps_left s ≤ 8
Reach-left start = omega arith
Reach-left (next {n} {s} {t} r st) = omega (arith, Reach-left r, Step-left st)

-- The goroutine has finished only if the context is done.
IsCancelled : Running → Type 0
IsCancelled s = s.serving ≡ finished → s.cancelled ≡ true

Step-IsCancelled : {s t : Running} → Step s t → IsCancelled s → IsCancelled t
unfolding IsCancelled
Step-IsCancelled (fail e h) c = λ q. cc
Step-IsCancelled (send e h) c = λ q. cc
Step-IsCancelled (cancel e h) c = λ q. refl
Step-IsCancelled (notify h) c = c
Step-IsCancelled (cancel_outside h) c = λ q. refl
Step-IsCancelled (take_signal h k) c = c
Step-IsCancelled (take_done h k) c = c
Step-IsCancelled (take_error e h k) c = λ q. refl
Step-IsCancelled (shut_down end h) c = λ q. refl

Reach-IsCancelled : {n : ℕ} {s : Running} → Reach n s → IsCancelled s
unfolding IsCancelled
Reach-IsCancelled start = λ q. cc
Reach-IsCancelled (next r st) = Step-IsCancelled st (Reach-IsCancelled r)

-- A step that the program takes by itself, not one that has to come from outside: a failure of the
-- server, a signal, or the end of the caller's context.
pub is_own : {s t : Running} → Step s t → Bool
is_own (fail e h) = false
is_own (send e h) = true
is_own (cancel e h) = true
is_own (notify h) = false
is_own (cancel_outside h) = false
is_own (take_signal h k) = true
is_own (take_done h k) = true
is_own (take_error e h k) = true
is_own (shut_down end h) = true

-- The program can take a step by itself.
pub record GoesOn (s : Running) : Type 0 where
  pub target : Running
  pub step : Step s target
  pub own : is_own step ≡ true

-- Nothing has happened to the server: it listens, there is no signal, no error was sent, and the
-- context is not done.
pub record IsUndisturbed (s : Running) : Type 0 where
  pub waits : s.phase ≡ waiting
  pub listens : s.serving ≡ listening
  pub unsignalled : s.signalled ≡ false
  pub no_error : s.error_sent ≡ none
  pub not_cancelled : s.cancelled ≡ false

go_on : (s t : Running) (st : Step s t) → is_own st ≡ true → GoesOn s
go_on s t st h = record { target = t; step = st; own = h }

-- While `Run` waits: the goroutine, when nothing else has happened.
serves_on :
    (s : Running) (v : Serving)
    → IsCancelled s
    → s.phase ≡ waiting
    → s.signalled ≡ false
    → s.error_sent ≡ none
    → s.cancelled ≡ false
    → s.serving ≡ v
    → GoesOn s ⊎ IsUndisturbed s
unfolding is_own IsCancelled
serves_on s listening c waits quiet unsent live h = inr (record {
  waits = waits;
  listens = h;
  unsignalled = quiet;
  no_error = unsent;
  not_cancelled = live;
})
serves_on s (failed e) c waits quiet unsent live h = inl (go_on s _ (send e h) refl)
serves_on s (sent e) c waits quiet unsent live h = inl (go_on s _ (cancel e h) refl)
serves_on s finished c waits quiet unsent live h = absurd (ground (arith, c h, live))

waits_on : (s : Running) → IsCancelled s → s.phase ≡ waiting → GoesOn s ⊎ IsUndisturbed s
unfolding is_own
waits_on s c waits = elim (Bool-cases s.signalled) [
  | inl signal ↦ inl (go_on s _ (take_signal waits signal) refl)
  | inr quiet ↦ elim (Bool-cases s.cancelled) [
    | inl over ↦ inl (go_on s _ (take_done waits over) refl)
    | inr live ↦ elim (Option-cases s.error_sent) [
      | inl unsent ↦ serves_on s s.serving c waits quiet unsent live refl
      | inr (e, held) ↦ inl (go_on s _ (take_error e waits held) refl)
    ]
  ]
]

runs_on :
    (s : Running) (p : Phase)
    → IsCancelled s
    → s.phase ≡ p
    → ((r : Result (Unit {0})) × (s.phase ≡ returned r)) ⊎ (GoesOn s ⊎ IsUndisturbed s)
unfolding is_own
runs_on s waiting c h = inr (waits_on s c h)
runs_on s stopping c h = inr (inl (go_on s _ (shut_down done h) refl))
runs_on s (returned r) c h = inl (r, h)

-- `Run` comes to an end once a signal arrives, the context is cancelled or the server fails: every
-- run, in whatever order its parts take turns, has at most 8 steps, those from outside included, and
-- in every state that it leads to `Run` has returned, or the program can take a step by itself, or
-- `Run` waits and none of the three has happened.
pub Reach-ends :
    (n : ℕ) (s : Running)
    → Reach n s
    → (n ≤ 8) × (((r : Result (Unit {0})) × (s.phase ≡ returned r)) ⊎ (GoesOn s ⊎ IsUndisturbed s))
Reach-ends n s r = (omega (arith, Reach-left r), runs_on s s.phase (Reach-IsCancelled r) refl)

-- Neither an error that was sent nor the end of `Run` leaves the server listening.
record IsSafe (s : Running) : Type 0 where
  sent_after : (e : Error) → s.error_sent ≡ some e → s.serving ≢ listening
  over_after : (r : Result (Unit {0})) → s.phase ≡ returned r → s.serving ≢ listening

closed-stops : (v : Serving) → closed v ≢ listening
unfolding closed
closed-stops listening = λ h. cc
closed-stops (failed e) = λ h. cc
closed-stops (sent e) = λ h. cc
closed-stops finished = λ h. cc

Step-IsSafe : {s t : Running} → Step s t → IsSafe s → IsSafe t
Step-IsSafe (fail e h) safe = record { sent_after = λ x p q. cc; over_after = λ r p q. cc }
Step-IsSafe (send e h) safe = record { sent_after = λ x p q. cc; over_after = λ r p q. cc }
Step-IsSafe (cancel e h) safe = record { sent_after = λ x p q. cc; over_after = λ r p q. cc }
Step-IsSafe (notify h) safe = record { sent_after = safe.sent_after; over_after = safe.over_after }
Step-IsSafe (cancel_outside h) safe = record {
  sent_after = safe.sent_after;
  over_after = safe.over_after;
}
Step-IsSafe (take_signal h k) safe = record {
  sent_after = safe.sent_after;
  over_after = λ r p q. cc;
}
Step-IsSafe (take_done h k) safe = record { sent_after = safe.sent_after; over_after = λ r p q. cc }
Step-IsSafe (take_error e h k) safe = record {
  sent_after = λ x p q. cc;
  over_after = λ r p q. safe.sent_after e k q;
}
Step-IsSafe {s} (shut_down end h) safe = record {
  sent_after = λ x p q. closed-stops s.serving q;
  over_after = λ r p q. closed-stops s.serving q;
}

Reach-IsSafe : {n : ℕ} {s : Running} → Reach n s → IsSafe s
Reach-IsSafe start = record { sent_after = λ x p q. cc; over_after = λ r p q. cc }
Reach-IsSafe (next r st) = Step-IsSafe st (Reach-IsSafe r)

-- When `Run` has returned, with or without an error, the server does not listen any more.
pub Reach-stopped :
    (n : ℕ) (s : Running) (r : Result (Unit {0}))
    → Reach n s
    → s.phase ≡ returned r
    → s.serving ≢ listening
Reach-stopped n s r reached over = (Reach-IsSafe reached).over_after r over

-- A server that failed while `Run` waits, with its error sent and the context cancelled: `Run` may
-- return the error, and it may return no error.
pub Reach-either :
    (n : ℕ) (s : Running) (e : Error)
    → Reach n s
    → s.phase ≡ waiting
    → s.error_sent ≡ some e
    → s.cancelled ≡ true
    → ((t : Running) × Reach (suc n) t × (t.phase ≡ returned (err e)))
      × ((u : Running) × Reach (suc (suc n)) u × (u.phase ≡ returned (ok tt)))
unfolding result_of
Reach-either n s e reached waits held over = (
  (_, next reached (take_error e waits held), refl),
  (_, next (next reached (take_done waits over)) (shut_down done refl), refl),
)
