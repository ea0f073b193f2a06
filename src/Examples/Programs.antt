-- ===== src/Examples/Programs.antt =====
-- A program with the protocol client alone, which fails.
use flare_system_client.Prelude.{◌≡◌, refl, Bool, true, false, List, [], ◌∷◌, All, ltb, ◌||◌}
use flare_system_client.Program.{
  unexpected, Goroutine, active, returned, leaving, running, ended, crashed, ProgramState, start,
  run_async, report, start_next, run_returns, look, ProgramSteps, ProgramReaches, started, reached,
}
use flare_system_client.Program.Ended.{IsGone, failures, program-IsSound}
use flare_system_client.Program.Progress.{program-ends}

abbrev with_clients : List Bool → List Goroutine → Bool → ProgramState
with_clients to_start [] cancelled = record {
  to_start = to_start;
  goroutines = [];
  counter = 0;
  signalled = false;
  cancelled = cancelled;
  phase = running;
}
with_clients to_start (g ∷ gs) cancelled = record {
  to_start = to_start;
  goroutines = g ∷ gs;
  counter = 1;
  signalled = false;
  cancelled = cancelled;
  phase = running;
}

abbrev two_absent : List Bool
two_absent = false ∷ false ∷ []

abbrev client_started : ProgramState
client_started = with_clients two_absent (active ∷ []) false

abbrev client_returned : ProgramState
client_returned = with_clients two_absent (returned unexpected ∷ []) false

abbrev client_failed : ProgramState
client_failed = with_clients two_absent (leaving unexpected ∷ []) true

client_failed-reached : ProgramReaches true false false client_failed
unfolding start run_async report
client_failed-reached =
    reached {s = client_returned}
      (reached {s = client_started}
        (reached (started (with_clients (true ∷ two_absent) [] false) refl)
          (start_next (with_clients (true ∷ two_absent) [] false) true two_absent refl refl))
        (run_returns client_started [] [] unexpected refl refl))
      (look client_returned [] [] unexpected refl refl)

program-IsSound_example :
    (client_failed.phase ≡ crashed → ⊥)
    × (client_failed.cancelled
        ≡ (client_failed.signalled || ltb 0 (failures client_failed.goroutines)))
    × (client_failed.phase ≡ ended
        → (client_failed.to_start ≡ []) × All IsGone client_failed.goroutines)
program-IsSound_example = program-IsSound client_failed-reached

program-ends_example : (t : ProgramState) × ProgramSteps client_failed t × (t.phase ≡ ended)
program-ends_example = program-ends client_failed-reached refl
