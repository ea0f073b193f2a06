-- ===== src/Program/Progress.antt =====
-- client/runner/runner.go: the program never waits for ever for clients that return.
use flare_system_client.Program.{
  RunResult, no_error, Goroutine, active, returned, leaving, gone, running, ended, ProgramState,
  run_async, report, leave, ProgramStep, start_next, run_returns, look, finish, wait_returns,
  ProgramSteps, no_step, step, ProgramReaches,
}
use flare_system_client.Program.Ended.{
  open_one, leave-counted, step-IsSound, reached-IsSound, IsSound,
}
use flare_system_client.Prelude.{
  append_assoc, ◌≡◌, refl, sym, subst, ◌∙◌, arith, Bool, true, false, List, [], ◌∷◌, ◌++◌, sum_by,
}

abbrev CanEnd : ProgramState → Type 0
CanEnd s = (t : ProgramState) × ProgramSteps s t × (t.phase ≡ ended)

one_more : {s t : ProgramState} → ProgramStep s t → CanEnd t → CanEnd s
one_more st (t, sts, e) = (t, step st sts, e)

-- All calls of `RunAsync` are made, and the goroutines in `newer` have ended.
record IsFinishing (newer older : List Goroutine) (s : ProgramState) : Type 0 where
  run : s.phase ≡ running
  started : s.to_start ≡ []
  rows : s.goroutines ≡ newer ++ older
  still_open : s.counter ≡ sum_by open_one older

Finishes : List Goroutine → Type 0
Finishes older = (newer : List Goroutine) (s : ProgramState) → IsFinishing newer older s → CanEnd s

leaving-Finishes :
    (r : RunResult) (older : List Goroutine) → Finishes older → Finishes (leaving r ∷ older)
unfolding Finishes
leaving-Finishes r older rest newer s f = one_more (finish s newer older r f.run f.rows) (
    rest (newer ++ (gone r ∷ [])) (leave (record s { goroutines = newer ++ (gone r ∷ older) })) (
      subst (IsFinishing (newer ++ (gone r ∷ [])) older)
        (sym (
          leave-counted (record s { goroutines = newer ++ (gone r ∷ older) })
            (sum_by open_one older) (omega (arith, f.still_open))))
        (record {
          run = f.run;
          started = f.started;
          rows = sym (append_assoc newer (gone r ∷ []) older);
          still_open = refl;
        })))

report-IsFinishing :
    (r : RunResult) (newer older : List Goroutine) (s : ProgramState)
    → IsFinishing newer older s
    → IsFinishing newer older (report r s)
unfolding report
report-IsFinishing RunResult.no_error newer older s f = f
report-IsFinishing RunResult.context_canceled newer older s f = f
report-IsFinishing RunResult.unexpected newer older s f = record {
  run = f.run;
  started = f.started;
  rows = f.rows;
  still_open = f.still_open;
}

-- `s` with one goroutine replaced by another that the wait group counts too.
replaced_one :
    (newer older : List Goroutine) (g h : Goroutine) (s : ProgramState)
    → open_one g ≡ open_one h
    → IsFinishing newer (g ∷ older) s
    → IsFinishing newer (h ∷ older) (record s { goroutines = newer ++ (h ∷ older) })
replaced_one newer older g h s e f = record {
  run = f.run;
  started = f.started;
  rows = refl;
  still_open = omega (arith, f.still_open);
}

returned-Finishes :
    (r : RunResult) (older : List Goroutine) → Finishes older → Finishes (returned r ∷ older)
unfolding Finishes
returned-Finishes r older rest newer s f = one_more (look s newer older r f.run f.rows) (
    leaving-Finishes r older rest newer _ (
      report-IsFinishing r newer (leaving r ∷ older) _
        (replaced_one newer older (returned r) (leaving r) s refl f)))

active-Finishes : (older : List Goroutine) → Finishes older → Finishes (active ∷ older)
unfolding Finishes
active-Finishes older rest newer s f = one_more (run_returns s newer older no_error f.run f.rows) (
    returned-Finishes no_error older rest newer _
      (replaced_one newer older active (returned no_error) s refl f))

finish_all : (older : List Goroutine) → Finishes older
unfolding Finishes
finish_all [] newer s f =
    one_more (wait_returns s f.run f.started f.still_open)
      (record s { phase = ended }, no_step _, refl)
finish_all (active ∷ older) newer s f = active-Finishes older (finish_all older) newer s f
finish_all (returned r ∷ older) newer s f = returned-Finishes r older (finish_all older) newer s f
finish_all (leaving r ∷ older) newer s f = leaving-Finishes r older (finish_all older) newer s f
finish_all (gone r ∷ older) newer s f = finish_all older (newer ++ (gone r ∷ [])) s (record {
  run = f.run;
  started = f.started;
  rows = f.rows ∙ sym (append_assoc newer (gone r ∷ []) older);
  still_open = omega (arith, f.still_open);
})

run_async-phase :
    (b : Bool) (s : ProgramState)
    → ((run_async b s).phase ≡ s.phase) × ((run_async b s).to_start ≡ s.to_start)
unfolding run_async
run_async-phase true s = (refl, refl)
run_async-phase false s = (refl, refl)

starts :
    (rest : List Bool) (s : ProgramState)
    → s.to_start ≡ rest
    → s.phase ≡ running
    → IsSound s
    → CanEnd s
starts [] s e run i =
    unfold Finishes in
    finish_all s.goroutines [] s
      (record { run = run; started = e; rows = refl; still_open = i.counted })
starts (b ∷ rest) s e run i =
    let st = start_next s b rest run e in
    let kept = run_async-phase b (record s { to_start = rest }) in
    one_more st (starts rest _ kept.1 (kept.0 ∙ run) (step-IsSound st i))

-- From every state that the program reaches before `main` returns, `main` can return: the remaining clients
-- are started, and when the `Run` of each client returns, the goroutines end and `wg.Wait` lets `main` go on.
pub program-ends :
    {first second third : Bool} {s : ProgramState}
    → ProgramReaches first second third s
    → s.phase ≡ running
    → (t : ProgramState) × ProgramSteps s t × (t.phase ≡ ended)
program-ends {s = s} r run = starts s.to_start s refl run (reached-IsSound r)
