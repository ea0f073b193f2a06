-- ===== src/Finalizer/Client.antt =====
-- client/finalizer/finalizer_client.go: what the finalizer does with new policies and with submitted
-- signatures. Times are whole numbers; `now` is the time that a call reads from the clock.
pub mod Chosen
pub mod Kept
pub mod Late
use flare_system_client.Prelude.{
  ℕ, suc, ◌+◌, ◌*◌, ◌/◌, ◌%◌, ◌^◌, Bool, true, false, List, [], ◌∷◌, ltb, leb, if◌then◌else◌,
  Option, none, some, Go, ok, err, panicked, ◌>>=◌, ℤ, pos, negsuc, ltb_ℤ, ◌+ℤ◌, ◌-ℤ◌, ◌*ℤ◌,
}
use flare_system_client.Utils.Epochs.{Epoch, IntEpoch, epoch_index, end_time, end_epoch, start_time}
use flare_system_client.Utils.Int64.{to_uint32}
use flare_system_client.Voters.{word16, total_weight, Error as VotersError}
use flare_system_client.Finalizer.Payload.{SubmitterPayloadItem}
use flare_system_client.Finalizer.Policies.{
  SigningPolicy, PolicyData, new_signing_policy, add, get_for_voting_round, first,
  remove_by_voting_round, Error as PolicyError,
}
use flare_system_client.Finalizer.Submissions.{SubmissionStorage, remove_voting_round_ids}
use flare_system_client.Finalizer.Submissions as Submissions
use flare_system_client.Finalizer.Queue.{QueueItem, add_item}
use flare_system_client.Finalizer.Relay.{PolicyResponse}

pub data Error : Type 0 where
  no_signing_policy : ℕ → Error

pub record FinalizerContext : Type 0 where
  pub starting_reward_epoch : ℤ
  pub starting_voting_round : ℕ
  pub start_time_offset : ℤ
  pub voter_threshold_bips : ℕ
  pub grace_period_end_offset : ℤ
  pub voting_epoch : Epoch
  pub reward_epoch : IntEpoch

-- The storages of `finalizerClient`, and the queue of its processor.
pub record FinalizerState : Type 0 where
  pub policies : List SigningPolicy
  pub submissions : SubmissionStorage
  pub queue : List QueueItem

-- `uint16((uint32(w) * 60) / 100)`
abbrev pub lowered_threshold : ℕ → ℕ
lowered_threshold w = w * 60 % 2 ^ 32 / 100 % word16

module _ (ctx : FinalizerContext) (now : ℤ) where
  unfoldable pub check_voting_round_time : ℕ → Go Error Bool
  check_voting_round_time voting_round_id =
      epoch_index ctx.voting_epoch now >>= λ current. ok (leb voting_round_id (to_uint32 current))

  -- `signingPolicyData`: the policy and the threshold for a voting round.
  unfoldable pub signing_policy_data :
      List SigningPolicy → ℕ → Go Error (Option (SigningPolicy × ℕ))
  signing_policy_data policies voting_round_id =
      elim (get_for_voting_round policies voting_round_id) [
        | none ↦ ok none
        | some (sp, last) ↦ elim last [
          | false ↦ ok (some (sp, sp.threshold))
          | true ↦ end_epoch ctx.reward_epoch sp.reward_epoch_id >>= λ end_voting_epoch. ok (
              some (
                sp,
                if ltb_ℤ now (end_time ctx.voting_epoch end_voting_epoch)
                    then sp.threshold
                    else lowered_threshold (total_weight sp.voters),
              ))
        ]
      ]

  -- The end of one round of the loop of `ProcessSubmissionData`, for a round with a policy.
  unfoldable pub add_submission :
      FinalizerState → SubmitterPayloadItem → SigningPolicy → ℕ → Go Error FinalizerState
  add_submission st item sp threshold =
      let (submissions, result) = Submissions.add st.submissions item.payload sp threshold in
      elim result [
        | panicked ↦ panicked
        | err _ ↦ ok (record st { submissions = submissions })
        | ok r ↦ ok (record st {
          submissions = submissions;
          queue = if r.threshold_reached then add_item st.queue item sp.seed else st.queue;
        })
      ]

  -- The rest of a round of the loop, for what `signingPolicyData` returns. A voting round without a
  -- policy is an error, if it is not before the first policy.
  unfoldable pub with_policy :
      FinalizerState → SubmitterPayloadItem → Option (SigningPolicy × ℕ) → Go Error FinalizerState
  with_policy st item (some (sp, threshold)) = add_submission st item sp threshold
  with_policy st item none = elim (first st.policies) [
    | none ↦ err (no_signing_policy item.voting_round_id)
    | some f ↦ elim (ltb item.voting_round_id f.start_voting_round_id) [
      | true ↦ ok st
      | false ↦ err (no_signing_policy item.voting_round_id)
    ]
  ]

  -- One round of the loop.
  unfoldable pub process_item : FinalizerState → SubmitterPayloadItem → Go Error FinalizerState
  process_item st item = elim (ltb item.voting_round_id ctx.starting_voting_round) [
    | true ↦ ok st
    | false ↦ check_voting_round_time item.voting_round_id >>= λ in_time. elim in_time [
      | false ↦ ok st
      | true ↦ signing_policy_data st.policies item.voting_round_id >>= with_policy st item
    ]
  ]

  -- `ProcessSubmissionData`, with the state that it leaves: what was added before an error stays.
  unfoldable pub process_submission_data :
      FinalizerState → List SubmitterPayloadItem → FinalizerState × Go Error (Unit {0})
  process_submission_data st [] = (st, ok tt)
  process_submission_data st (item ∷ items) = elim (process_item st item) [
    | ok st' ↦ process_submission_data st' items
    | err e ↦ (st, err e)
    | panicked ↦ (st, panicked)
  ]

  -- `rewardEpochCleanup`
  unfoldable pub reward_epoch_cleanup : FinalizerState → Go Error FinalizerState
  reward_epoch_cleanup st =
      epoch_index ctx.voting_epoch (now -ℤ pos 2 *ℤ ctx.start_time_offset) >>= λ cleanup_round.
      elim (ltb_ℤ cleanup_round (pos 0)) [
        | true ↦ ok st
        | false ↦
            let (ids, policies) = remove_by_voting_round st.policies (to_uint32 cleanup_round) in
            ok (record st {
              policies = policies;
              submissions = remove_voting_round_ids st.submissions ids;
            })
      ]

  -- The loop of `runSigningPolicyInitializedListener`, for one policy. A policy that does not fit the
  -- storage is passed over, with a warning.
  unfoldable pub on_signing_policy : FinalizerState → PolicyData → Go Error FinalizerState
  on_signing_policy st d = elim (new_signing_policy d) [
    | panicked ↦ panicked
    | err _ ↦ panicked
    | ok policy ↦ elim (ltb_ℤ policy.reward_epoch_id ctx.starting_reward_epoch) [
      | true ↦ ok st
      | false ↦ elim (add st.policies policy) [
        | ok policies ↦ reward_epoch_cleanup (record st { policies = policies })
        | err _ ↦ reward_epoch_cleanup st
        | panicked ↦ panicked
      ]
    ]
  ]

module _ (ctx : FinalizerContext) where
  -- The loop of `fetchExistingSigningPolicies`: the policies of the database join the storage.
  unfoldable pub add_existing :
      List SigningPolicy → List PolicyResponse → Go PolicyError (List SigningPolicy)
  add_existing policies [] = ok policies
  add_existing policies (r ∷ rs) = elim (new_signing_policy r.policy_data) [
    | panicked ↦ panicked
    | err _ ↦ panicked
    | ok policy ↦ elim (ltb_ℤ policy.reward_epoch_id ctx.starting_reward_epoch) [
      | true ↦ add_existing policies rs
      | false ↦ add policies policy >>= λ policies'. add_existing policies' rs
    ]
  ]
