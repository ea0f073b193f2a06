-- ===== src/Examples/Clients.antt =====
-- A finalizer with one signing policy.
use flare_system_client.Prelude.{
  ℕ, ◌+◌, ◌≡◌, refl, false, true, [], ◌∷◌, none, some, ok, pos, arith, ltb_ℤ, ◌+ℤ◌, ◌*ℤ◌, search,
}
use flare_system_client.Crypto.{Crypto}
use flare_system_client.Voters.{total_weight}
use flare_system_client.Utils.Epochs.{start_time, end_time}
use flare_system_client.Finalizer.Payload.{SubmitterPayloadItem}
use flare_system_client.Finalizer.Policies.{
  find_by_voting_round_id, get_for_voting_round, start_at, last_of,
}
use flare_system_client.Finalizer.Submissions.Store.{find}
use flare_system_client.Finalizer.Client.{
  FinalizerContext, FinalizerState, process_submission_data, signing_policy_data, lowered_threshold,
}
use flare_system_client.Finalizer.Client.Kept.{IsInOrder, process_submission_data-IsInOrder}
use flare_system_client.Finalizer.Client.Late.{signing_policy_data-lowered}
use flare_system_client.Examples.Messages.{three_set, policy_for, payload_by}

abbrev pub context : FinalizerContext
context = record {
  starting_reward_epoch = pos 0;
  starting_voting_round = 0;
  start_time_offset = pos 1000;
  voter_threshold_bips = 500;
  grace_period_end_offset = pos 20;
  voting_epoch = record { start = pos 1000; period = pos 90 };
  reward_epoch = record { start = pos 1; period = pos 3360 };
}

abbrev start : FinalizerState
start = record { policies = policy_for three_set ∷ []; submissions = λ r. none; queue = [] }

start-IsInOrder : IsInOrder start
unfolding find
start-IsInOrder = record {
  submissions_kept = λ r i h m e. absurd (ground arith);
  policies_small = (omega arith, tt);
}

abbrev pub item_by : ℕ → SubmitterPayloadItem
item_by signer = record { protocol_id = 1; voting_round_id = 150; payload = payload_by signer }

process_submission_data-IsInOrder_example :
    IsInOrder (process_submission_data context (pos 1000000) start (item_by 20 ∷ item_by 30 ∷ [])).0
process_submission_data-IsInOrder_example =
    process_submission_data-IsInOrder context (pos 1000000) start (item_by 20 ∷ item_by 30 ∷ [])
      start-IsInOrder

-- The policy of reward epoch 1, after the first reward epoch.
in_force : get_for_voting_round (policy_for three_set ∷ []) 150 ≡ some (policy_for three_set, true)
unfolding get_for_voting_round find_by_voting_round_id search start_at last_of
in_force = refl

over : ltb_ℤ (pos 1000000) (end_time context.voting_epoch (pos (1 + 3360))) ≡ false
unfolding end_time start_time ◌+ℤ◌ ◌*ℤ◌
over = refl

signing_policy_data-lowered_example :
    signing_policy_data context (pos 1000000) (policy_for three_set ∷ []) 150
    ≡ ok (some (policy_for three_set, lowered_threshold (total_weight three_set)))
signing_policy_data-lowered_example =
    signing_policy_data-lowered context (pos 1000000) (policy_for three_set ∷ []) 150
      (policy_for three_set) 1 3359 1 in_force refl refl refl (omega arith) (omega arith) over

abbrev no_crypto : Crypto
no_crypto = record {
  keccak = λ b. 1;
  text_hash = λ h. h;
  recover = λ h s. some 9;
  sign = λ h k. none;
}
