-- ===== src/Protocol/Waiting/Reached.antt =====
-- client/protocol/protocol_client.go: the wait ends.
use flare_system_client.Utils.Epochs.{epoch_index, start_time, end_time}
use flare_system_client.Utils.Epochs.Located.{epoch_index-Located, start_time_mono, first_start}
use flare_system_client.Protocol.Waiting.{
  RegistrationWait, retry_notify, now, is_registered, wait_for_next_reward_epoch,
  wait_until_registered,
}
use flare_system_client.Prelude.{
  ℕ, zero, suc, ◌+◌, ◌≤◌, ◌<◌, ◌≡◌, refl, sym, ap, ◌∙◌, arith, ◌⊎◌, inl, inr, Bool, true, false,
  Bool-cases, Bytes, if◌then◌else◌, Option, some, Go, ok, err, panicked, ℤ, pos, leb, leb→le, subst,
  ok-injective, ltb_ℤ, ◌-ℤ◌, ◌+ℤ◌, ◌≤ℤ◌, int_laws,
}
use flare_system_client.Prelude.Calls.{Call, return, on_err, ◌>>◌, handled, >>=-ok}

-- The surroundings of a voter that is registered from the reward epoch `from` on: the clock does not go
-- back, a query is answered, and a sleep lasts as long as it should and is not cancelled.
pub record IsRegisteredFrom {W : Type 0} (r : RegistrationWait W) (clock : W → ℤ) (from : ℕ)
    : Type 0 where
  pub time_reads : (w : W) → clock w ≤ℤ (r.time_now w).0
  pub time_passes : (w : W) → (r.time_now w).0 ≤ℤ clock (r.time_now w).1
  pub query_answers :
      (epoch : ℤ) (w : W)
      → (registered : Bool) × ((r.is_voter_registered epoch w).0 ≡ ok registered)
        × (clock w ≤ℤ clock (r.is_voter_registered epoch w).1)
  pub query_registered : (k : ℕ) (w : W) → from ≤ k → (r.is_voter_registered (pos k) w).0 ≡ ok true
  pub sleep_ends : (d : ℤ) (w : W) → (r.sleep d w).0 ≡ ok tt
  pub sleep_lasts : (d : ℤ) (w : W) → clock w +ℤ d ≤ℤ clock (r.sleep d w).1

-- An answer at once is the answer.
retry_notify-ok :
    {W A : Type 0} (f : Call W Bytes A) (n : ℕ) (w : W) (a : A)
    → (f w).0 ≡ ok a
    → retry_notify f n w ≡ f w
unfolding retry_notify on_err
retry_notify-ok f zero w a e = refl
retry_notify-ok f (suc n) w a e = kept (f w) a _ e
  where
    kept :
        {W A : Type 0} (left : Go Bytes A × W) (a : A) (handle : Bytes → Call W Bytes A)
        → left.0 ≡ ok a
        → handled left handle ≡ left
    kept (ok b, w) a handle e = refl
    kept (err x, w) a handle e = absurd (ground arith)
    kept (panicked, w) a handle e = absurd (ground arith)

module _ {W : Type 0} (r : RegistrationWait W) (clock : W → ℤ) (from n : ℕ)
    (laws : IsRegisteredFrom r clock from) (positive : r.reward_epoch.period ≡ pos (suc n)) where
  next_epoch : (k : ℕ) → pos k +ℤ pos 1 ≡ pos (suc k)
  unfolding ◌+ℤ◌
  next_epoch k = ground arith

  -- A sleep until a time that has not passed reaches it.
  slept : (a b c t : ℤ) → t ≤ℤ b → b +ℤ (a -ℤ t) ≤ℤ c → a ≤ℤ c
  slept a b c t h h' = omega int_laws

  passed_by : (a b c : ℤ) → ltb_ℤ a b ≡ true → b ≤ℤ c → a ≤ℤ c
  passed_by a b c h h' = ground arith

  -- The wait ends in the next epoch.
  wait_ends :
      (k : ℕ) (w : W)
      → (w' : W) × ((wait_for_next_reward_epoch r (pos k) w).0 ≡ ok tt)
        × ((wait_for_next_reward_epoch r (pos k) w).1 ≡ w')
        × (start_time r.reward_epoch (pos (suc k)) ≤ℤ clock w')
  unfolding wait_for_next_reward_epoch now return
  wait_ends k w =
      let (t, w1) = r.time_now w in
      let next = start_time r.reward_epoch (pos k +ℤ pos 1) in
      let read =
        >>=-ok (now r) (λ t. if ltb_ℤ next t then return (ok tt) else r.sleep (next -ℤ t)) w t
          refl in
      elim (Bool-cases (ltb_ℤ next t)) [
        | inl passed ↦ (
          w1,
          ap (λ x. x.0) read ∙ rw passed refl,
          ap (λ x. x.1) read ∙ rw passed refl,
          subst (λ e. start_time r.reward_epoch e ≤ℤ clock w1) (next_epoch k)
              (passed_by next t (clock w1) passed (laws.time_passes w)),
        )
        | inr waits ↦ (
          (r.sleep (next -ℤ t) w1).1,
          ap (λ x. x.0) read ∙ rw waits (laws.sleep_ends _ w1),
          ap (λ x. x.1) read ∙ rw waits refl,
          subst (λ e. start_time r.reward_epoch e ≤ℤ clock (r.sleep (next -ℤ t) w1).1)
              (next_epoch k)
              (slept next (clock w1) _ t (laws.time_passes w) (laws.sleep_lasts (next -ℤ t) w1)),
        )
      ]

  no_room : (a b c : ℤ) → a ≤ℤ b → b ≤ℤ c → ltb_ℤ c a ≡ true → ⊥
  no_room a b c h h' h'' = ground arith

  -- The epoch of a later time is not an earlier one.
  not_earlier :
      (k j : ℕ) (t : ℤ)
      → start_time r.reward_epoch (pos k) ≤ℤ t
      → ltb_ℤ t (end_time r.reward_epoch (pos j)) ≡ true
      → k ≤ j
  unfolding end_time
  not_earlier k j t low high = elim (Bool-cases (leb k j)) [
    | inl h ↦ leb→le k j h
    | inr h ↦ absurd (
        no_room _ _ t (start_time_mono r.reward_epoch n (suc j) k positive (ground arith)) low
          (subst (λ e. ltb_ℤ t (start_time r.reward_epoch e) ≡ true) (next_epoch j) high))
  ]

  -- What follows the query.
  abbrev pub outcome : ℕ → ℤ → Bool → Call W Bytes (Option ℤ)
  outcome rounds epoch registered =
      if registered
      then return (ok (some epoch))
      else wait_for_next_reward_epoch r epoch >> wait_until_registered r rounds

  -- A round comes to its query.
  round_query :
      (rounds j : ℕ) (w : W) (b : Bool)
      → epoch_index {E = Bytes} r.reward_epoch (r.time_now w).0 ≡ ok (pos j)
      → (r.is_voter_registered (pos j) (r.time_now w).1).0 ≡ ok b
      → wait_until_registered r (suc rounds) w
        ≡ outcome rounds (pos j) b (r.is_voter_registered (pos j) (r.time_now w).1).1
  unfolding wait_until_registered is_registered now return
  round_query rounds j w b idx answer =
      let (t, w1) = r.time_now w in
      let same = retry_notify-ok (r.is_voter_registered (pos j)) r.query_retries w1 b answer in
      >>=-ok (now r) _ w t refl
      ∙ >>=-ok (return (epoch_index r.reward_epoch t)) _ w1 (pos j) idx
      ∙ >>=-ok (is_registered r (pos j)) (outcome rounds (pos j)) w1 b (ap (λ x. x.0) same ∙ answer)
      ∙ ap (λ x. outcome rounds (pos j) b x.1) same

  registered :
      (rounds j : ℕ) (b : Bool) (w : W)
      → b ≡ true
      → outcome rounds (pos j) b w ≡ (ok (some (pos j)), w)
  unfolding return
  registered rounds j b w h = rw h refl

  unregistered :
      (rounds j : ℕ) (b : Bool) (w w' : W)
      → b ≡ false
      → (wait_for_next_reward_epoch r (pos j) w).0 ≡ ok tt
      → (wait_for_next_reward_epoch r (pos j) w).1 ≡ w'
      → outcome rounds (pos j) b w ≡ wait_until_registered r rounds w'
  unregistered rounds j b w w' h calm left = rw h (
      >>=-ok (wait_for_next_reward_epoch r (pos j)) (λ u. wait_until_registered r rounds) w tt calm
      ∙ ap (wait_until_registered r rounds) left)

  before_from :
      (j : ℕ) (w : W) (b : Bool) → (r.is_voter_registered (pos j) w).0 ≡ ok b → b ≡ false → j < from
  before_from j w b answer h = elim (Bool-cases (leb from j)) [
    | inr less ↦ ground arith
    | inl le ↦
        (let yes_too : b ≡ true =
            ok-injective (sym answer ∙ laws.query_registered j w (leb→le from j le)) in
          absurd (ground arith))
  ]

  le_trans : (a b c : ℤ) → a ≤ℤ b → b ≤ℤ c → a ≤ℤ c
  le_trans a b c h h' = omega arith

  -- A time in some epoch is a time since the first one.
  since_start :
      (j : ℕ) (t : ℤ) → start_time r.reward_epoch (pos (suc j)) ≤ℤ t → r.reward_epoch.start ≤ℤ t
  since_start j t h =
      le_trans _ (start_time r.reward_epoch (pos (suc j))) t
        (subst (λ s. s ≤ℤ start_time r.reward_epoch (pos (suc j))) (first_start r.reward_epoch)
          (start_time_mono r.reward_epoch n 0 (suc j) positive (omega arith)))
        h

  -- One round from a time in the epoch `k` or later.
  one_round :
      (rounds k : ℕ) (w : W)
      → r.reward_epoch.start ≤ℤ clock w
      → start_time r.reward_epoch (pos k) ≤ℤ clock w
      → ((j : ℕ) × (w' : W) × (k ≤ j)
          × (wait_until_registered r (suc rounds) w ≡ (ok (some (pos j)), w')))
        ⊎ ((j : ℕ) × (w' : W) × (k ≤ j)
            × (j < from)
            × (start_time r.reward_epoch (pos (suc j)) ≤ℤ clock w')
            × (wait_until_registered r (suc rounds) w ≡ wait_until_registered r rounds w'))
  one_round rounds k w started h =
      let (t, w1) = r.time_now w in
      let reads = laws.time_reads w in
      let after : r.reward_epoch.start ≤ℤ t = le_trans _ (clock w) t started reads in
      let (j, idx, low, high) = epoch_index-Located {E = Bytes} r.reward_epoch n positive t after in
      let later = not_earlier k j t (le_trans _ (clock w) t h reads) high in
      let (b, answer, mono) = laws.query_answers (pos j) w1 in
      elim (Bool-cases b) [
        | inl t' ↦
            inl (j, _, later, round_query rounds j w b idx answer ∙ registered rounds j b _ t')
        | inr f ↦
            (let (w', calm, left, reached) = wait_ends j (r.is_voter_registered (pos j) w1).1 in
              inr (
                j,
                w',
                later,
                before_from j w1 b answer f,
                reached,
                round_query rounds j w b idx answer ∙ unregistered rounds j b _ w' f calm left,
              ))
      ]

  -- If the voter is registered from the reward epoch `from` on, `rounds` + 1 rounds of the wait that
  -- starts in the epoch `k` or later are enough where `from` is `k` + `rounds` at most: then the result is
  -- an epoch that is not before `k`. The clock must not go back, a query must be answered, a sleep must
  -- last and not be cancelled, and the period must be positive.
  pub wait_until_registered-ends :
      (rounds k : ℕ) (w : W)
      → r.reward_epoch.start ≤ℤ clock w
      → start_time r.reward_epoch (pos k) ≤ℤ clock w
      → from ≤ k + rounds
      → (j : ℕ) × (w' : W) × (k ≤ j)
        × (wait_until_registered r (suc rounds) w ≡ (ok (some (pos j)), w'))
  wait_until_registered-ends zero k w started h room = elim (one_round zero k w started h) [
    | inl found ↦ found
    | inr (j, w', later, early, reached, same) ↦ absurd (omega arith)
  ]
  wait_until_registered-ends (suc rounds) k w started h room =
      elim (one_round (suc rounds) k w started h) [
        | inl found ↦ found
        | inr (j, w', later, early, reached, same) ↦
            (let (i, w'', late, e) =
                wait_until_registered-ends rounds (suc j) w' (since_start j (clock w') reached)
                  reached (omega arith) in
              (i, w'', omega arith, same ∙ e))
      ]
