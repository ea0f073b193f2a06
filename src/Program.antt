-- ===== src/Program.antt =====
-- client/main/client.go and client/runner/runner.go: the clients as goroutines that the program waits for,
-- and the cancellation of their context. The steps of the goroutines come in any order.
pub mod Ended
pub mod Progress
use flare_system_client.Prelude.{
  ℕ, zero, suc, ◌≡◌, Bool, true, false, List, [], ◌∷◌, ◌++◌, Bytes, Go, ok, if◌then◌else◌, ◌>>=◌,
}

-- What `Run` of a client returns: no error, `context.Canceled`, or another error.
pub data RunResult : Type 0 where
  no_error context_canceled unexpected : RunResult

-- Where the goroutine of `RunAsync` is: in `Run`, before the test of the error, before `wg.Done`, after it.
pub data Goroutine : Type 0 where
  active : Goroutine
  returned leaving gone : RunResult → Goroutine

pub data ProgramPhase : Type 0 where
  running ended crashed : ProgramPhase

-- `to_start`: for each call of `RunAsync` that is still to come, whether there is a client.
pub record ProgramState : Type 0 where
  pub to_start : List Bool
  pub goroutines : List Goroutine
  pub counter : ℕ
  pub signalled : Bool
  pub cancelled : Bool
  pub phase : ProgramPhase

-- `Start` until the first `RunAsync`: any constructor's error ends the program. A client that the
-- configuration does not enable is nil, here `false`.
unfoldable pub start : Go Bytes Bool → Go Bytes Bool → Go Bytes Bool → Go Bytes ProgramState
start new_epoch_client new_protocol_client new_finalizer_client =
    new_epoch_client >>= λ registration. new_protocol_client >>= λ protocol.
    new_finalizer_client >>= λ finalizer. ok (record {
      to_start = protocol ∷ registration ∷ finalizer ∷ [];
      goroutines = [];
      counter = 0;
      signalled = false;
      cancelled = false;
      phase = running;
    })

-- `RunAsync`
unfoldable pub run_async : Bool → ProgramState → ProgramState
run_async present s =
    if present then record s { goroutines = active ∷ s.goroutines; counter = suc s.counter } else s

-- What the goroutine does with what `Run` returned.
unfoldable pub report : RunResult → ProgramState → ProgramState
report no_error s = s
report context_canceled s = s
report unexpected s = record s { cancelled = true }

-- `wg.Done`: a counter below zero is a panic.
unfoldable pub leave : ProgramState → ProgramState
leave s = elim s.counter [ zero ↦ record s { phase = crashed } | suc n ↦ record s { counter = n } ]

-- The steps of the program: the next `RunAsync`; a client's `Run` returns; its goroutine looks at the
-- error; the goroutine ends; a signal comes; and `wg.Wait` lets `main` return.
pub data ProgramStep : ProgramState → ProgramState → Type 0 where
  start_next :
      (s : ProgramState) (present : Bool) (rest : List Bool)
      → s.phase ≡ running
      → s.to_start ≡ present ∷ rest
      → ProgramStep s (run_async present (record s { to_start = rest }))
  run_returns :
      (s : ProgramState) (newer older : List Goroutine) (r : RunResult)
      → s.phase ≡ running
      → s.goroutines ≡ newer ++ (active ∷ older)
      → ProgramStep s (record s { goroutines = newer ++ (returned r ∷ older) })
  look :
      (s : ProgramState) (newer older : List Goroutine) (r : RunResult)
      → s.phase ≡ running
      → s.goroutines ≡ newer ++ (returned r ∷ older)
      → ProgramStep s (report r (record s { goroutines = newer ++ (leaving r ∷ older) }))
  finish :
      (s : ProgramState) (newer older : List Goroutine) (r : RunResult)
      → s.phase ≡ running
      → s.goroutines ≡ newer ++ (leaving r ∷ older)
      → ProgramStep s (leave (record s { goroutines = newer ++ (gone r ∷ older) }))
  signal :
      (s : ProgramState)
      → s.phase ≡ running
      → ProgramStep s (record s { signalled = true; cancelled = true })
  wait_returns :
      (s : ProgramState)
      → s.phase ≡ running
      → s.to_start ≡ []
      → s.counter ≡ 0
      → ProgramStep s (record s { phase = ended })

-- Any number of steps.
pub data ProgramSteps : ProgramState → ProgramState → Type 0 where
  no_step : (s : ProgramState) → ProgramSteps s s
  step : {s t u : ProgramState} → ProgramStep s t → ProgramSteps t u → ProgramSteps s u

-- The states that the program reaches when `Start` has made the clients.
pub data ProgramReaches (first second third : Bool) : ProgramState → Type 0 where
  started :
      (s : ProgramState)
      → start (ok second) (ok first) (ok third) ≡ ok s
      → ProgramReaches first second third s
  reached :
      {s t : ProgramState}
      → ProgramReaches first second third s
      → ProgramStep s t
      → ProgramReaches first second third t
