-- ===== src/Program/Ended.antt =====
-- client/runner/runner.go: when the program ends, and when its context is cancelled.
use flare_system_client.Program.{
  RunResult, no_error, context_canceled, unexpected, Goroutine, active, returned, leaving, gone,
  running, ended, crashed, ProgramState, start, run_async, report, leave, ProgramStep, start_next,
  run_returns, look, finish, signal, wait_returns, ProgramReaches, started, reached,
}
use flare_system_client.Prelude.{
  ℕ, suc, ◌+◌, ◌≡◌, refl, sym, ap, subst, ◌∙◌, arith, Bool, true, false, ◌||◌, List, [], ◌∷◌, ◌++◌,
  All, sum_by, sum_by-append, ltb, ok, ok-injective,
}

-- 1 for a goroutine that the wait group counts.
abbrev pub open_one : Goroutine → ℕ
open_one active = 1
open_one (returned r) = 1
open_one (leaving r) = 1
open_one (gone r) = 0

abbrev bad : RunResult → ℕ
bad no_error = 0
bad context_canceled = 0
bad unexpected = 1

-- 1 for a goroutine that has looked at an unexpected error.
abbrev failed_one : Goroutine → ℕ
failed_one active = 0
failed_one (returned r) = 0
failed_one (leaving r) = bad r
failed_one (gone r) = bad r

abbrev pub IsGone : Goroutine → Type 0
IsGone g = (r : RunResult) × (g ≡ gone r)

pub record IsSound (s : ProgramState) : Type 0 where
  pub counted : s.counter ≡ sum_by open_one s.goroutines
  calm : s.phase ≡ crashed → ⊥
  at_end : s.phase ≡ ended → (s.counter ≡ 0) × (s.to_start ≡ [])
  causes : s.cancelled ≡ (s.signalled || ltb 0 (sum_by failed_one s.goroutines))

-- A goroutine in the middle of the list replaced by another.
replaced :
    (f : Goroutine → ℕ) (newer older gs : List Goroutine) (g h : Goroutine)
    → gs ≡ newer ++ (g ∷ older)
    → sum_by f (newer ++ (h ∷ older)) + f g ≡ sum_by f gs + f h
replaced f newer older gs g h e =
    rw e (omega (arith, sum_by-append f newer (g ∷ older), sum_by-append f newer (h ∷ older)))

started-IsSound :
    (first second third : Bool) (s : ProgramState)
    → start (ok second) (ok first) (ok third) ≡ ok s
    → IsSound s
unfolding start
started-IsSound first second third s e = subst IsSound (ok-injective e) (record {
  counted = refl;
  calm = λ c. absurd (ground arith);
  at_end = λ c. absurd (ground arith);
  causes = refl;
})

run_async-IsSound :
    (b : Bool) (rest : List Bool) (s : ProgramState)
    → s.phase ≡ running
    → IsSound s
    → IsSound (run_async b (record s { to_start = rest }))
unfolding run_async
run_async-IsSound true rest s run i = record {
  counted = omega (arith, i.counted);
  calm = i.calm;
  at_end = λ c. absurd (ground (arith, run));
  causes = i.causes ∙ ap (λ n. s.signalled || ltb 0 n) (omega arith);
}
run_async-IsSound false rest s run i = record {
  counted = i.counted;
  calm = i.calm;
  at_end = λ c. absurd (ground (arith, run));
  causes = i.causes;
}

-- A step of a goroutine that stays counted.
moved-IsSound :
    (s : ProgramState) (newer older : List Goroutine) (g h : Goroutine) (c : Bool)
    → s.phase ≡ running
    → s.goroutines ≡ newer ++ (g ∷ older)
    → open_one g ≡ open_one h
    → c ≡ (s.signalled || ltb 0 (sum_by failed_one (newer ++ (h ∷ older))))
    → IsSound s
    → IsSound (record s { goroutines = newer ++ (h ∷ older); cancelled = c })
moved-IsSound s newer older g h c run e same causes i = record {
  counted = omega (arith, i.counted, replaced open_one newer older s.goroutines g h e);
  calm = i.calm;
  at_end = λ c. absurd (ground (arith, run));
  causes = causes;
}

same_causes :
    (s : ProgramState) (newer older : List Goroutine) (g h : Goroutine)
    → s.goroutines ≡ newer ++ (g ∷ older)
    → failed_one g ≡ failed_one h
    → IsSound s
    → s.cancelled ≡ (s.signalled || ltb 0 (sum_by failed_one (newer ++ (h ∷ older))))
same_causes s newer older g h e same i =
    i.causes
    ∙ ap (λ n. s.signalled || ltb 0 n)
        (omega (arith, replaced failed_one newer older s.goroutines g h e))

with_failure : (b : Bool) (n m : ℕ) → n ≡ m + 1 → true ≡ (b || ltb 0 n)
with_failure true n m e = refl
with_failure false n m e = ground arith

report-IsSound :
    (r : RunResult) (s : ProgramState) (newer older : List Goroutine)
    → s.phase ≡ running
    → s.goroutines ≡ newer ++ (returned r ∷ older)
    → IsSound s
    → IsSound (report r (record s { goroutines = newer ++ (leaving r ∷ older) }))
unfolding report
report-IsSound no_error s newer older run e i =
    moved-IsSound s newer older (returned no_error) (leaving no_error) s.cancelled run e refl
      (same_causes s newer older (returned no_error) (leaving no_error) e refl i) i
report-IsSound context_canceled s newer older run e i =
    moved-IsSound s newer older (returned context_canceled) (leaving context_canceled) s.cancelled
      run e refl
      (same_causes s newer older (returned context_canceled) (leaving context_canceled) e refl i) i
report-IsSound unexpected s newer older run e i =
    moved-IsSound s newer older (returned unexpected) (leaving unexpected) true run e refl
      (with_failure s.signalled _ (sum_by failed_one s.goroutines) (
        omega (
          arith,
          replaced failed_one newer older s.goroutines (returned unexpected) (leaving unexpected) e,
        )))
      i

pub leave-counted :
    (s : ProgramState) (n : ℕ) → s.counter ≡ suc n → leave s ≡ record s { counter = n }
unfolding leave
leave-counted s n e = rw e refl

finish-IsSound :
    (r : RunResult) (s : ProgramState) (newer older : List Goroutine)
    → s.phase ≡ running
    → s.goroutines ≡ newer ++ (leaving r ∷ older)
    → IsSound s
    → IsSound (leave (record s { goroutines = newer ++ (gone r ∷ older) }))
finish-IsSound r s newer older run e i =
    let fewer = replaced open_one newer older s.goroutines (leaving r) (gone r) e in
    let left = sum_by open_one (newer ++ (gone r ∷ older)) in
    subst IsSound
      (sym (
        leave-counted (record s { goroutines = newer ++ (gone r ∷ older) }) left
          (omega (arith, i.counted, fewer))))
      (record {
        counted = refl;
        calm = i.calm;
        at_end = λ c. absurd (ground (arith, run));
        causes = same_causes s newer older (leaving r) (gone r) e refl i;
      })

pub step-IsSound : {s t : ProgramState} → ProgramStep s t → IsSound s → IsSound t
step-IsSound (start_next s b rest run e) i = run_async-IsSound b rest s run i
step-IsSound (run_returns s newer older r run e) i =
    moved-IsSound s newer older active (returned r) s.cancelled run e refl
      (same_causes s newer older active (returned r) e refl i) i
step-IsSound (look s newer older r run e) i = report-IsSound r s newer older run e i
step-IsSound (finish s newer older r run e) i = finish-IsSound r s newer older run e i
step-IsSound (signal s run) i = record {
  counted = i.counted;
  calm = i.calm;
  at_end = i.at_end;
  causes = refl;
}
step-IsSound (wait_returns s run none zero_left) i = record {
  counted = i.counted;
  calm = λ c. absurd (ground arith);
  at_end = λ c. (zero_left, none);
  causes = i.causes;
}

pub reached-IsSound :
    {first second third : Bool} {s : ProgramState} → ProgramReaches first second third s → IsSound s
reached-IsSound {first} {second} {third} (started s e) = started-IsSound first second third s e
reached-IsSound (reached r st) = step-IsSound st (reached-IsSound r)

when_none_open : (gs : List Goroutine) → sum_by open_one gs ≡ 0 → All IsGone gs
when_none_open [] e = tt
when_none_open (active ∷ gs) e = absurd (omega arith)
when_none_open (returned r ∷ gs) e = absurd (omega arith)
when_none_open (leaving r ∷ gs) e = absurd (omega arith)
when_none_open (gone r ∷ gs) e = ((r, refl), when_none_open gs (omega arith))

-- How many goroutines have seen that `Run` returned an error other than `context.Canceled`.
abbrev pub failures : List Goroutine → ℕ
failures gs = sum_by failed_one gs

-- In every state that the program reaches, the counter of the wait group has not become negative, and the
-- context is cancelled exactly when a signal has come or a goroutine has looked at an error that its client's
-- `Run` returned other than `context.Canceled`. When `main` has returned, each call of `RunAsync` has been
-- made and each goroutine is past its `wg.Done`.
pub program-IsSound :
    {first second third : Bool} {s : ProgramState}
    → ProgramReaches first second third s
    → (s.phase ≡ crashed → ⊥)
      × (s.cancelled ≡ (s.signalled || ltb 0 (failures s.goroutines)))
      × (s.phase ≡ ended → (s.to_start ≡ []) × All IsGone s.goroutines)
program-IsSound {s = s} r =
    let i = reached-IsSound r in
    (
      i.calm,
      i.causes,
      λ e. ((i.at_end e).1, when_none_open s.goroutines (omega (arith, i.counted, (i.at_end e).0))),
    )
