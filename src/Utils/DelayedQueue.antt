-- ===== src/Utils/DelayedQueue.antt =====
-- utils/queue.go: items that wait for a time. The Go map is a function into options; there is a timer for
-- each time that a goroutine waits for.
pub mod Timed
use flare_system_client.Prelude.{
  ℕ, ◌+◌, Bool, true, false, List, [], ◌∷◌, ◌++◌, Option, none, some, if◌then◌else◌, ℤ, ltb_ℤ, ◌≡◌,
}
use flare_system_client.Utils.Int64.{eq_ℤ}

pub record DelayedQueueManager (T : Type 0) : Type 0 where
  pub time_map : ℤ → Option (List T)
  pub timers : List ℤ

-- `createTimer`
unfoldable pub create_timer : List ℤ → ℤ → List ℤ
create_timer timers t = t ∷ timers

unfoldable pub remove_timer : List ℤ → ℤ → List ℤ
remove_timer [] t = []
remove_timer (u ∷ us) t = if eq_ℤ u t then us else u ∷ remove_timer us t

unfoldable pub timers_at : List ℤ → ℤ → ℕ
timers_at [] t = 0
timers_at (u ∷ us) t = (if eq_ℤ u t then 1 else 0) + timers_at us t

module _ {T : Type 0} where
  unfoldable pub new_delayed_queue_manager : DelayedQueueManager T
  new_delayed_queue_manager = record { time_map = λ t. none; timers = [] }

  -- The items that wait for a time, or none.
  abbrev pub waiting : DelayedQueueManager T → ℤ → List T
  waiting q t = elim (q.time_map t) [ none ↦ [] | some items ↦ items ]

  abbrev pub has_time : DelayedQueueManager T → ℤ → Bool
  has_time q t = elim (q.time_map t) [ none ↦ false | some items ↦ true ]

  -- `Add` behind its test.
  unfoldable pub put : DelayedQueueManager T → ℤ → T → DelayedQueueManager T
  put q t item = record {
    time_map = λ u. if eq_ℤ u t then some (waiting q t ++ (item ∷ [])) else q.time_map u;
    timers = if has_time q t then q.timers else create_timer q.timers t;
  }

  -- `Add` at the time `now`: an item whose time is over is dropped.
  unfoldable pub add : DelayedQueueManager T → ℤ → ℤ → T → DelayedQueueManager T
  add q now t item = elim (ltb_ℤ t now) [ true ↦ q | false ↦ put q t item ]

  -- `Get`: the items of a time, which no longer wait.
  unfoldable pub get : DelayedQueueManager T → ℤ → List T × DelayedQueueManager T
  get q t = (waiting q t, record q { time_map = λ u. if eq_ℤ u t then none else q.time_map u })

  -- The goroutine of `createTimer`, when its timer for `t` fires: what it gives to the processor.
  unfoldable pub fire : DelayedQueueManager T → ℤ → List T × DelayedQueueManager T
  fire q t = let (items, q') = get q t in (items, record q' { timers = remove_timer q'.timers t })

  -- The steps of a manager, with the items that each gives to the processor.
  pub data Step : DelayedQueueManager T → List T → DelayedQueueManager T → Type 0 where
    added : (q : DelayedQueueManager T) (now t : ℤ) (item : T) → Step q [] (add q now t item)
    fired :
        (q : DelayedQueueManager T) (t : ℤ) → has_time q t ≡ true → Step q (fire q t).0 (fire q t).1
