-- ===== src/Finalizer/Running.antt =====
-- client/finalizer/finalizer_client.go: the start of the finalizer and its goroutines, as a step relation.
-- A step is what a goroutine does between two locks of the storages and the queues; what it has read
-- and not yet used is part of the state. `W` is the outside world.
pub mod Fair
pub mod Stored
pub mod Invariant
pub mod Relayed
use flare_system_client.Prelude.{
  ℕ, ◌+◌, ◌*◌, Bool, true, false, List, [], ◌∷◌, ◌++◌, Bytes, Option, none, some, Go, ok, err,
  panicked, ◌>>=◌, ℤ, pos, ◌-ℤ◌, ◌*ℤ◌, ltb, ltb_ℤ, ◌≡◌, if◌then◌else◌,
}
use flare_system_client.Utils.Epochs.{epoch_index}
use flare_system_client.Utils.Int64.{to_uint32}
use flare_system_client.Utils.DelayedQueue.{
  DelayedQueueManager, new_delayed_queue_manager, has_time, fire,
}
use flare_system_client.Finalizer.Payload.{SignedPayload, SubmitterPayloadItem}
use flare_system_client.Finalizer.Policies.{
  SigningPolicy, PolicyData, new_signing_policy, remove_by_voting_round,
}
use flare_system_client.Finalizer.Policies as Policies
use flare_system_client.Finalizer.Submissions.{
  SubmissionStorage, AddPayloadResult, new_submission_storage, remove_voting_round_ids,
}
use flare_system_client.Finalizer.Submissions as Submissions
use flare_system_client.Finalizer.Relay.{RelayClient, Log, PolicyResponse, fetch_signing_policies}
use flare_system_client.Finalizer.Queue.{
  QueueItem, Weighed, Sorter, pop, add_item, process_item, is_voter_for_current_epoch,
}
use flare_system_client.Finalizer.Client.{
  FinalizerContext, Error, add_existing, check_voting_round_time, signing_policy_data,
}
use flare_system_client.Finalizer.Processor.{handle_item}

-- The time of the last policy, or the start time if there is none.
unfoldable pub last_time : ℕ → List PolicyResponse → ℕ
last_time start_time [] = start_time
last_time start_time (r ∷ rs) = last_time r.timestamp rs

-- `fetchExistingSigningPolicies`, on what the database returns: the policies of the new storage, and
-- the time from which the listeners go on. `err none` is the error of the database or of a log.
unfoldable pub fetch_existing_signing_policies :
    FinalizerContext
    → (Log → Option PolicyData)
    → Option (List Log)
    → ℕ
    → Go (Option Policies.Error) (List SigningPolicy × ℕ)
fetch_existing_signing_policies ctx parse logs start_time =
    elim (fetch_signing_policies parse logs) [
      | none ↦ err none
      | some sp_list ↦ elim (add_existing ctx [] sp_list) [
        | panicked ↦ panicked
        | err e ↦ err (some e)
        | ok policies ↦ ok (policies, last_time start_time sp_list)
      ]
    ]

-- How far `SubmissionTxListener` is with an item: it has a policy and a threshold for it, or it has
-- stored its payload and the threshold was reached.
pub data Submitting : Type 0 where
  waiting : Submitting
  chosen : SubmitterPayloadItem → SigningPolicy → ℕ → Submitting
  reached : SubmitterPayloadItem → SigningPolicy → Submitting

-- How far `Run` of the queue's processor is: it has popped an item, or knows if the sender is selected.
pub data Processing : Type 0 where
  ticking : Processing
  popped : QueueItem → Processing
  answered : QueueItem → Bool → Processing

-- The state of `finalizerClient` while its goroutines run. `removed` are the reward epochs of removed
-- policies that `rewardEpochCleanup` is to remove the submissions of, and `late` are the items that
-- timers gave to `processDelayedQueue`.
pub record FinalizerRun : Type 0 where
  pub policies : List SigningPolicy
  pub submissions : SubmissionStorage
  pub queue : List QueueItem
  pub delayed : DelayedQueueManager QueueItem
  pub submitting : Submitting
  pub processing : Processing
  pub removed : List ℕ
  pub late : List QueueItem

-- `NewFinalizerClient` with the policies that the database has.
unfoldable pub start_run : List SigningPolicy → FinalizerRun
start_run policies = record {
  policies = policies;
  submissions = new_submission_storage;
  queue = [];
  delayed = new_delayed_queue_manager;
  submitting = waiting;
  processing = ticking;
  removed = [];
  late = [];
}

-- What follows `submissionStorage.Add`: a refused payload is passed over.
unfoldable pub after_addition : SubmitterPayloadItem → SigningPolicy → AddPayloadResult → Submitting
after_addition item sp result = if result.threshold_reached then reached item sp else waiting

module _ (ctx : FinalizerContext) (parse : Log → Option PolicyData) (by_weight : Sorter Weighed)
    (by_index : Sorter SignedPayload) {W : Type 0} (relay : RelayClient W) where
  pub data FinalizerStep : FinalizerRun → FinalizerRun → Type 0 where
    -- `runSigningPolicyInitializedListener`; a policy that does not fit leaves the storage alone.
    policy_added :
        (r : FinalizerRun) (log : Log) (d : PolicyData) (sp : SigningPolicy)
        (policies : List SigningPolicy)
        → parse log ≡ some d
        → new_signing_policy d ≡ ok sp
        → ltb_ℤ sp.reward_epoch_id ctx.starting_reward_epoch ≡ false
        → Policies.add r.policies sp ≡ ok policies
        → FinalizerStep r (record r { policies = policies })
    policies_removed :
        (r : FinalizerRun) (now cleanup_round : ℤ)
        → epoch_index {E = Error} ctx.voting_epoch (now -ℤ pos 2 *ℤ ctx.start_time_offset)
          ≡ ok cleanup_round
        → ltb_ℤ cleanup_round (pos 0) ≡ false
        → FinalizerStep r (record r {
          policies = (remove_by_voting_round r.policies (to_uint32 cleanup_round)).1;
          removed = (remove_by_voting_round r.policies (to_uint32 cleanup_round)).0;
        })
    submissions_removed :
        (r : FinalizerRun)
        → FinalizerStep r (record r {
          submissions = remove_voting_round_ids r.submissions r.removed;
          removed = [];
        })
    -- `SubmissionTxListener` in `ProcessSubmissionData`.
    policy_chosen :
        (r : FinalizerRun) (now : ℤ) (item : SubmitterPayloadItem) (sp : SigningPolicy)
        (threshold : ℕ)
        → r.submitting ≡ waiting
        → ltb item.voting_round_id ctx.starting_voting_round ≡ false
        → check_voting_round_time ctx now item.voting_round_id ≡ ok true
        → signing_policy_data ctx now r.policies item.voting_round_id ≡ ok (some (sp, threshold))
        → FinalizerStep r (record r { submitting = chosen item sp threshold })
    payload_added :
        (r : FinalizerRun) (item : SubmitterPayloadItem) (sp : SigningPolicy) (threshold : ℕ)
        (result : AddPayloadResult)
        → r.submitting ≡ chosen item sp threshold
        → (Submissions.add r.submissions item.payload sp threshold).1 ≡ ok result
        → FinalizerStep r (record r {
          submissions = (Submissions.add r.submissions item.payload sp threshold).0;
          submitting = after_addition item sp result;
        })
    payload_refused :
        (r : FinalizerRun) (item : SubmitterPayloadItem) (sp : SigningPolicy) (threshold : ℕ)
        (e : Submissions.Error)
        → r.submitting ≡ chosen item sp threshold
        → (Submissions.add r.submissions item.payload sp threshold).1 ≡ err e
        → FinalizerStep r (record r {
          submissions = (Submissions.add r.submissions item.payload sp threshold).0;
          submitting = waiting;
        })
    message_queued :
        (r : FinalizerRun) (item : SubmitterPayloadItem) (sp : SigningPolicy)
        → r.submitting ≡ reached item sp
        → FinalizerStep r (record r { queue = add_item r.queue item sp.seed; submitting = waiting })
    -- `Run` of the queue's processor.
    item_popped :
        (r : FinalizerRun) (item : QueueItem)
        → r.processing ≡ ticking
        → (pop r.queue).0 ≡ some item
        → FinalizerStep r (record r { queue = (pop r.queue).1; processing = popped item })
    item_answered :
        (r : FinalizerRun) (keccak : Bytes → ℕ) (rounds : ℕ) (item : QueueItem) (selected : Bool)
        → r.processing ≡ popped item
        → is_voter_for_current_epoch keccak rounds ctx.voter_threshold_bips relay.sender_address
            r.submissions item
          ≡ ok (some selected)
        → FinalizerStep r (record r { processing = answered item selected })
    item_handled :
        (r : FinalizerRun) (now : ℤ) (item : QueueItem) (selected : Bool)
        (delayed : DelayedQueueManager QueueItem) (w w' : W)
        → r.processing ≡ answered item selected
        → handle_item ctx by_weight by_index relay r.submissions now r.delayed item w selected
          ≡ ok (delayed, w')
        → FinalizerStep r (record r { delayed = delayed; processing = ticking })
    -- The goroutines of the delayed queue's timers: `processDelayedQueue` takes its items, and passes
    -- over them or processes them.
    timer_fired :
        (r : FinalizerRun) (t : ℤ)
        → has_time r.delayed t ≡ true
        → FinalizerStep r
            (record r { delayed = (fire r.delayed t).1; late = r.late ++ (fire r.delayed t).0 })
    late_passed :
        (r : FinalizerRun) (before after : List QueueItem) (item : QueueItem)
        → r.late ≡ before ++ (item ∷ after)
        → FinalizerStep r (record r { late = before ++ after })
    late_processed :
        (r : FinalizerRun) (before after : List QueueItem) (item : QueueItem) (done : Bool)
        (w w' : W)
        → r.late ≡ before ++ (item ∷ after)
        → process_item by_weight by_index relay r.submissions item true w ≡ ok (done, w')
        → FinalizerStep r (record r { late = before ++ after })

  -- The states of `RunContext` from its start on.
  pub data RunReaches : FinalizerRun → Type 0 where
    started :
        (logs : Option (List Log)) (start_time from : ℕ) (policies : List SigningPolicy)
        → fetch_existing_signing_policies ctx parse logs start_time ≡ ok (policies, from)
        → RunReaches (start_run policies)
    goes_on : (r r' : FinalizerRun) → RunReaches r → FinalizerStep r r' → RunReaches r'
