-- ===== src/Examples/Lists.antt =====
-- Two signing policies, epochs, retries and a delayed queue.
use flare_system_client.Utils.Epochs.{Epoch, epoch_index_int64, start_time_int64}
use flare_system_client.Utils.Epochs.Bounded.{epoch_index_int64_iff}
use flare_system_client.Prelude.{
  ok, ◌↔◌, ◌*◌, ◌<◌, ◌^◌, ℕ, suc, ◌<◌, ◌≡◌, ◌⊎◌, refl, List, [], ◌∷◌, ◌++◌, Option, none, some, pos,
  arith, ◌-ℤ◌, ltb, if◌then◌else◌,
}
use flare_system_client.Voters.{VoterSet}
use flare_system_client.Finalizer.Policies.{
  SigningPolicy, last_of, add, find_by_voting_round_id, remove_by_voting_round,
}
use flare_system_client.Finalizer.Policies.Order.{
  IsOrdered, add-IsOrdered, Cut, remove_by_voting_round-Cut,
}
use flare_system_client.Finalizer.Policies.Lookup.{InForce, find_by_voting_round_id-InForce}
use flare_system_client.Utils.DelayedQueue.{
  DelayedQueueManager, add as delayed_add, added, timers_at,
}
use flare_system_client.Utils.DelayedQueue.Timed.{IsTimed, Step-IsTimed}
use flare_system_client.Shared.{success, failed, execute_with_retry}
use flare_system_client.Shared.Retry.{after, execute_with_retry-Ends}

abbrev pub no_voters : VoterSet
no_voters = record {
  voters = [];
  weights = [];
  total_weight = 0;
  thresholds = [];
  voter_data_map = λ a. none;
}

abbrev pub policy_of : ℕ → ℕ → SigningPolicy
policy_of id start = record {
  reward_epoch_id = pos id;
  start_voting_round_id = start;
  threshold = 400;
  seed = some 7;
  raw_bytes = [];
  block_timestamp = 1000;
  voters = no_voters;
}

abbrev two_policies : List SigningPolicy
two_policies = policy_of 1 100 ∷ policy_of 2 200 ∷ []

two_policies-IsOrdered : IsOrdered two_policies
unfolding ◌-ℤ◌
two_policies-IsOrdered = ((refl, omega arith), tt)

add-IsOrdered_example :
    IsOrdered (two_policies ++ (policy_of 3 300 ∷ []))
    × (two_policies ++ (policy_of 3 300 ∷ []) ≡ two_policies ++ (policy_of 3 300 ∷ []))
unfolding add last_of ◌-ℤ◌
add-IsOrdered_example =
    add-IsOrdered two_policies (policy_of 3 300) (two_policies ++ (policy_of 3 300 ∷ []))
      two_policies-IsOrdered refl

find_by_voting_round_id-InForce_example :
    InForce two_policies 150 (find_by_voting_round_id two_policies 150)
find_by_voting_round_id-InForce_example =
    find_by_voting_round_id-InForce two_policies 150 two_policies-IsOrdered

remove_by_voting_round-Cut_example :
    Cut two_policies 150
      (remove_by_voting_round two_policies 150).0
      (remove_by_voting_round two_policies 150).1
remove_by_voting_round-Cut_example =
    remove_by_voting_round-Cut two_policies 150 two_policies-IsOrdered

abbrev fresh : DelayedQueueManager ℕ
fresh = record { time_map = λ t. none; timers = [] }

fresh-IsTimed : IsTimed fresh
unfolding timers_at
fresh-IsTimed t = refl

Step-IsTimed_example : IsTimed (delayed_add fresh (pos 5) (pos 9) 42)
Step-IsTimed_example =
    Step-IsTimed fresh (delayed_add fresh (pos 5) (pos 9) 42) [] (added fresh (pos 5) (pos 9) 42)
      fresh-IsTimed

-- A call that succeeds from the third time on.
abbrev third_time : ℕ → Option ℕ × ℕ
third_time w = (if ltb w 2 then none else some w, suc w)

execute_with_retry-Ends_example :
    ((k : ℕ) × (a : ℕ) × (k < 4)
      × ((i : ℕ) → i < k → (third_time (after third_time i 0)).0 ≡ none)
      × ((third_time (after third_time k 0)).0 ≡ some a)
      × (execute_with_retry third_time 4 0 ≡ (success a, after third_time (suc k) 0)))
    ⊎ (((i : ℕ) → i < 4 → (third_time (after third_time i 0)).0 ≡ none)
        × (execute_with_retry third_time 4 0 ≡ (failed, after third_time 4 0)))
execute_with_retry-Ends_example = execute_with_retry-Ends third_time 4 0

-- Rounds of 90 seconds, in nanoseconds.
abbrev rounds_of_90_s : Epoch
rounds_of_90_s = record { start = pos 1000; period = pos 90000000000 }

epoch_index_int64_iff_example :
    (epoch_index_int64 {E = Unit {0}} rounds_of_90_s (start_time_int64 rounds_of_90_s (pos 3))
      ≡ ok (pos 3))
    ↔ (3 * 90000000000 < 2 ^ 63)
epoch_index_int64_iff_example = epoch_index_int64_iff rounds_of_90_s 89999999999 refl 3
