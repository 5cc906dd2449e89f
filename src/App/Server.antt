-- ===== src/App/Server.antt =====
-- `App.Run` of cmd/api/finance-api/main.go: the server runs beside the wait for a signal, and is shut
-- down in the end. The goroutine, the signals, the context and the `select`, which takes any case
-- that is ready, are the steps of one relation.
use moon_eye.Base.{ℕ, zero, suc, ◌≡◌, Bool, true, false, Option, none, some}
use moon_eye.Outcome.{Error, Result, ok, err}

-- Where the goroutine is that serves. `ListenAndServe` failed with the error in `failed`, which was
-- then sent to `errCh` in `sent`.
pub data Serving : Type 0 where
  listening : Serving
  failed sent : Error → Serving
  finished : Serving

pub data Phase : Type 0 where
  -- In the `select`, before `Shutdown`, and after `Run`.
  waiting stopping : Phase
  returned : Result (Unit {0}) → Phase

-- `error_sent` is what `errCh` holds, `signalled` tells whether `sigCh` holds a signal, and
-- `cancelled` whether `baseCtx` is done.
pub record Running : Type 0 where
  pub serving : Serving
  pub error_sent : Option Error
  pub signalled : Bool
  pub cancelled : Bool
  pub phase : Phase

-- What `Shutdown` may give: it stops the server in every case.
pub data ShutdownEnd : Type 0 where
  done deadline_exceeded : ShutdownEnd
  shutdown_error : Error → ShutdownEnd

unfoldable pub result_of : ShutdownEnd → Result (Unit {0})
result_of done = ok tt
result_of deadline_exceeded = ok tt
result_of (shutdown_error e) = err e

-- `Shutdown` closes the listener, so that `ListenAndServe` gives `ErrServerClosed`.
unfoldable pub closed : Serving → Serving
closed listening = finished
closed (failed e) = failed e
closed (sent e) = sent e
closed finished = finished

pub data Step (s : Running) : Running → Type 0 where
  -- The goroutine: `ListenAndServe` fails, `errCh <- err`, and `cancel()`.
  fail : (e : Error) → s.serving ≡ listening → Step s (record s { serving = failed e })
  send :
      (e : Error)
      → s.serving ≡ failed e
      → Step s (record s { serving = sent e; error_sent = some e })
  cancel :
      (e : Error) → s.serving ≡ sent e → Step s (record s { serving = finished; cancelled = true })
  -- From outside: a signal, where none waits already, and the end of the caller's context.
  notify : s.signalled ≡ false → Step s (record s { signalled = true })
  cancel_outside : s.cancelled ≡ false → Step s (record s { cancelled = true })
  -- The cases of the `select`.
  take_signal :
      s.phase ≡ waiting
      → s.signalled ≡ true
      → Step s (record s { signalled = false; phase = stopping })
  take_done : s.phase ≡ waiting → s.cancelled ≡ true → Step s (record s { phase = stopping })
  take_error :
      (e : Error)
      → s.phase ≡ waiting
      → s.error_sent ≡ some e
      → Step s (record s { error_sent = none; cancelled = true; phase = returned (err e) })
  -- `Shutdown`, and the end of `Run` with its `defer cancel()`.
  shut_down :
      (end : ShutdownEnd)
      → s.phase ≡ stopping
      → Step s (record s {
        serving = closed s.serving;
        cancelled = true;
        phase = returned (result_of end);
      })

abbrev pub started : Running
started = record {
  serving = listening;
  error_sent = none;
  signalled = false;
  cancelled = false;
  phase = waiting;
}

-- What so many steps lead to.
pub data Reach : ℕ → Running → Type 0 where
  start : Reach zero started
  next : {n : ℕ} {s t : Running} → Reach n s → Step s t → Reach (suc n) t
