-- ===== src/Utils/DelayedQueue/Timed.antt =====
-- utils/queue.go: every waiting item has its timer.
use flare_system_client.Prelude.{
  ◌+◌, ◌≡◌, refl, ap, Bool, true, false, List, [], ◌∷◌, ◌++◌, Option, none, some, Bool-cases, inl,
  inr, if◌then◌else◌, ℤ, pos, negsuc, ltb_ℤ, arith, ◌&&◌, ltb,
}
use flare_system_client.Utils.Int64.{eq_ℤ, eq_ℤ→eq}
use flare_system_client.Utils.DelayedQueue.{
  DelayedQueueManager, waiting, has_time, create_timer, put, add, get, remove_timer, fire,
  timers_at, Step, added, fired,
}

eq_ℤ_comm : (a b : ℤ) → eq_ℤ a b ≡ eq_ℤ b a
eq_ℤ_comm (pos a) (pos b) = ground arith
eq_ℤ_comm (pos a) (negsuc b) = refl
eq_ℤ_comm (negsuc a) (pos b) = refl
eq_ℤ_comm (negsuc a) (negsuc b) = ground arith

eq_ℤ_refl : (a : ℤ) → eq_ℤ a a ≡ true
eq_ℤ_refl (pos a) = ground arith
eq_ℤ_refl (negsuc a) = ground arith

create_timer-timers_at :
    (b : Bool) (us : List ℤ) (t u : ℤ)
    → timers_at (if b then us else create_timer us t) u
      ≡ (if b then 0 else if eq_ℤ t u then 1 else 0) + timers_at us u
unfolding timers_at create_timer
create_timer-timers_at true us t u = omega arith
create_timer-timers_at false us t u = refl

remove_timer-timers_at :
    (us : List ℤ) (t u : ℤ)
    → timers_at (remove_timer us t) u + (if eq_ℤ t u && ltb 0 (timers_at us t) then 1 else 0)
      ≡ timers_at us u
unfolding timers_at remove_timer
remove_timer-timers_at [] t u = ground arith
remove_timer-timers_at (x ∷ us) t u = elim (Bool-cases (eq_ℤ x t)) [
  | inl same ↦ rw (eq_ℤ→eq x t same, eq_ℤ_refl t) (ground arith)
  | inr other ↦ rw other (ground (arith, other, remove_timer-timers_at us t u))
]

branch :
    {A : Type 0} (b : Bool) (x y : Option A)
    → elim (if b then x else y) [ none ↦ false | some _ ↦ true ] ≡ (
        if b
        then elim x [ none ↦ false | some _ ↦ true ]
        else elim y [ none ↦ false | some _ ↦ true ])
branch true x y = refl
branch false x y = refl

module _ {T : Type 0} where
  -- There is one timer for each time that items wait for, and no other timer.
  abbrev pub IsTimed : DelayedQueueManager T → Type 0
  IsTimed q = (t : ℤ) → timers_at q.timers t ≡ (if has_time q t then 1 else 0)

  put-has_time :
      (q : DelayedQueueManager T) (t u : ℤ) (item : T)
      → has_time (put q t item) u ≡ (if eq_ℤ u t then true else has_time q u)
  unfolding put
  put-has_time q t u item = branch (eq_ℤ u t) (some (waiting q t ++ (item ∷ []))) (q.time_map u)

  put-timers_at :
      (q : DelayedQueueManager T) (t u : ℤ) (item : T)
      → timers_at (put q t item).timers u
        ≡ (if has_time q t then 0 else if eq_ℤ t u then 1 else 0) + timers_at q.timers u
  unfolding put
  put-timers_at q t u item = create_timer-timers_at (has_time q t) q.timers t u

  put-IsTimed : (q : DelayedQueueManager T) (t : ℤ) (item : T) → IsTimed q → IsTimed (put q t item)
  put-IsTimed q t item h u = elim (Bool-cases (eq_ℤ u t)) [
    | inl same ↦
        rw (put-timers_at q t u item, put-has_time q t u item, eq_ℤ→eq u t same, eq_ℤ_refl t)
          (ground (arith, h t))
    | inr other ↦
        rw (put-timers_at q t u item, put-has_time q t u item, eq_ℤ_comm t u, other)
          (ground (arith, h u))
  ]

  fire-has_time :
      (q : DelayedQueueManager T) (t u : ℤ)
      → has_time (fire q t).1 u ≡ (if eq_ℤ u t then false else has_time q u)
  unfolding fire get
  fire-has_time q t u = branch (eq_ℤ u t) none (q.time_map u)

  fire-timers_at :
      (q : DelayedQueueManager T) (t u : ℤ)
      → timers_at (fire q t).1.timers u
          + (if eq_ℤ t u && ltb 0 (timers_at q.timers t) then 1 else 0)
        ≡ timers_at q.timers u
  unfolding fire get
  fire-timers_at q t u = remove_timer-timers_at q.timers t u

  fire-IsTimed :
      (q : DelayedQueueManager T) (t : ℤ) → has_time q t ≡ true → IsTimed q → IsTimed (fire q t).1
  fire-IsTimed q t there h u = elim (Bool-cases (eq_ℤ u t)) [
    | inl same ↦ ground (
      arith,
      eq_ℤ_comm t u,
      same,
      there,
      h t,
      h u,
      ap (timers_at q.timers) (eq_ℤ→eq u t same),
      fire-timers_at q t u,
      fire-has_time q t u,
    )
    | inr other ↦
        ground (arith, eq_ℤ_comm t u, other, h u, fire-timers_at q t u, fire-has_time q t u)
  ]

  -- If a manager has one timer for each time that items wait for, and no other timer, it still
  -- does after any step: an item is added or dropped, or a timer fires. So no waiting item is left
  -- without a timer.
  pub Step-IsTimed :
      (q q' : DelayedQueueManager T) (items : List T) → Step q items q' → IsTimed q → IsTimed q'
  unfolding add
  Step-IsTimed _ _ _ (added q now t item) h = elim (Bool-cases (ltb_ℤ t now)) [
    | inl late ↦ rw (late, add) h
    | inr early ↦ rw (early, add) (put-IsTimed q t item h)
  ]
  Step-IsTimed _ _ _ (fired q t there) h = fire-IsTimed q t there h
