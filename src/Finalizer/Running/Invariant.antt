-- ===== src/Finalizer/Running/Invariant.antt =====
-- client/finalizer: what holds in every state of the running finalizer, however its goroutines interleave.
use flare_system_client.Prelude.{
  ℕ, ◌≡◌, subst, true, false, List, ◌++◌, All, Option, arith, if◌then◌else◌,
}
use flare_system_client.Utils.Int64.{to_uint32}
use flare_system_client.Utils.DelayedQueue.{DelayedQueueManager, fire}
use flare_system_client.Finalizer.Payload.{SignedPayload, SubmitterPayloadItem}
use flare_system_client.Finalizer.Policies.{SigningPolicy, PolicyData}
use flare_system_client.Finalizer.Submissions.{
  MessageData, SubmissionStorage, AddPayloadResult, new_submission_storage,
}
use flare_system_client.Finalizer.Submissions as Submissions
use flare_system_client.Finalizer.Submissions.Store.{find}
use flare_system_client.Finalizer.Submissions.Kept.{IsKept, AllKept, add-AllKept}
use flare_system_client.Finalizer.Relay.{RelayClient, Log}
use flare_system_client.Finalizer.Queue.{QueueItem, Weighed, Sorter, pop, add_item}
use flare_system_client.Finalizer.Client.{FinalizerContext}
use flare_system_client.Finalizer.Client.Chosen.{signing_policy_data-All}
use flare_system_client.Finalizer.Running.{
  Submitting, waiting, chosen, reached, Processing, ticking, popped, answered, FinalizerRun,
  start_run, after_addition, FinalizerStep, policy_added, policies_removed, submissions_removed,
  policy_chosen, payload_added, payload_refused, message_queued, item_popped, item_answered,
  item_handled, timer_fired, late_passed, late_processed, RunReaches, started, goes_on,
}
use flare_system_client.Finalizer.Running.Fair.{
  IsFair, FairParse, new_signing_policy-IsFair, add-All, remove_by_voting_round-All,
  fetch_existing_signing_policies-AllFair,
}
use flare_system_client.Finalizer.Running.Stored.{
  AllStored, add-AllStored, remove_voting_round_ids-AllStored,
}

abbrev pub HasFair : Submitting → Type 0
HasFair waiting = Unit {0}
HasFair (chosen item sp threshold) = IsFair sp
HasFair (reached item sp) = IsFair sp

-- Every policy that the finalizer knows is fair, and every stored message has its books in order.
pub record IsSound (r : FinalizerRun) : Type 0 where
  pub policies_fair : All IsFair r.policies
  pub messages_kept : AllKept r.submissions
  pub messages_fair : AllStored (λ m. IsFair m.signing_policy) r.submissions
  pub submitting_fair : HasFair r.submitting

module _ (ctx : FinalizerContext) (parse : Log → Option PolicyData) (fair : FairParse parse)
    (by_weight : Sorter Weighed) (by_index : Sorter SignedPayload) {W : Type 0}
    (relay : RelayClient W) where
  start_run-IsSound :
      (policies : List SigningPolicy) → All IsFair policies → IsSound (start_run policies)
  unfolding start_run new_submission_storage find
  start_run-IsSound policies h = record {
    policies_fair = h;
    messages_kept = λ r i k m e. absurd (ground arith);
    messages_fair = λ r i k m e. absurd (ground arith);
    submitting_fair = tt;
  }

  after_addition-HasFair :
      (item : SubmitterPayloadItem) (sp : SigningPolicy) (result : AddPayloadResult)
      → IsFair sp
      → HasFair (after_addition item sp result)
  unfolding after_addition
  after_addition-HasFair item sp result h =
      elim result.threshold_reached as (λ b. HasFair (if b then reached item sp else waiting)) [
        | true ↦ h
        | false ↦ tt
      ]

  -- What an addition to the submissions keeps.
  add-IsSound :
      (r : FinalizerRun) (item : SubmitterPayloadItem) (sp : SigningPolicy) (threshold : ℕ)
      (next : Submitting)
      → IsSound r
      → r.submitting ≡ chosen item sp threshold
      → (IsFair sp → HasFair next)
      → IsSound (record r {
        submissions = (Submissions.add r.submissions item.payload sp threshold).0;
        submitting = next;
      })
  add-IsSound r item sp threshold next h at after =
      let known : IsFair sp = subst HasFair at h.submitting_fair in
      record {
        policies_fair = h.policies_fair;
        messages_kept =
            add-AllKept r.submissions item.payload sp threshold h.messages_kept known.small;
        messages_fair =
            add-AllStored IsFair r.submissions item.payload sp threshold h.messages_fair known;
        submitting_fair = after known;
      }

  -- What the steps keep that leave the storages alone.
  same_storages :
      (r : FinalizerRun) (queue : List QueueItem) (delayed : DelayedQueueManager QueueItem)
      (submitting : Submitting) (processing : Processing) (late : List QueueItem)
      → IsSound r
      → HasFair submitting
      → IsSound (record r {
        queue = queue;
        delayed = delayed;
        submitting = submitting;
        processing = processing;
        late = late;
      })
  same_storages r queue delayed submitting processing late h f = record {
    policies_fair = h.policies_fair;
    messages_kept = h.messages_kept;
    messages_fair = h.messages_fair;
    submitting_fair = f;
  }

  FinalizerStep-IsSound :
      (r r' : FinalizerRun)
      → FinalizerStep ctx parse by_weight by_index relay r r'
      → IsSound r
      → IsSound r'
  FinalizerStep-IsSound _ _ (policy_added r log d sp policies parsed made later joined) h = record {
    policies_fair =
        add-All IsFair r.policies policies sp h.policies_fair
          (new_signing_policy-IsFair d sp (fair log d parsed) made) joined;
    messages_kept = h.messages_kept;
    messages_fair = h.messages_fair;
    submitting_fair = h.submitting_fair;
  }
  FinalizerStep-IsSound _ _ (policies_removed r now cleanup_round read later) h = record {
    policies_fair =
        remove_by_voting_round-All IsFair r.policies (to_uint32 cleanup_round) h.policies_fair;
    messages_kept = h.messages_kept;
    messages_fair = h.messages_fair;
    submitting_fair = h.submitting_fair;
  }
  FinalizerStep-IsSound _ _ (submissions_removed r) h = record {
    policies_fair = h.policies_fair;
    messages_kept =
        remove_voting_round_ids-AllStored IsKept r.removed r.submissions h.messages_kept;
    messages_fair =
        remove_voting_round_ids-AllStored (λ m. IsFair m.signing_policy) r.removed r.submissions
          h.messages_fair;
    submitting_fair = h.submitting_fair;
  }
  FinalizerStep-IsSound _ _ (policy_chosen r now item sp threshold free first in_time found) h =
      same_storages r r.queue r.delayed (chosen item sp threshold) r.processing r.late h (
        signing_policy_data-All IsFair ctx now r.policies item.voting_round_id threshold sp
          h.policies_fair found)
  FinalizerStep-IsSound _ _ (payload_added r item sp threshold result at done) h =
      add-IsSound r item sp threshold (after_addition item sp result) h at
        (after_addition-HasFair item sp result)
  FinalizerStep-IsSound _ _ (payload_refused r item sp threshold e at failed) h =
      add-IsSound r item sp threshold waiting h at (λ known. tt)
  FinalizerStep-IsSound _ _ (message_queued r item sp at) h =
      same_storages r (add_item r.queue item sp.seed) r.delayed waiting r.processing r.late h tt
  FinalizerStep-IsSound _ _ (item_popped r item at there) h =
      same_storages r (pop r.queue).1 r.delayed r.submitting (popped item) r.late h
        h.submitting_fair
  FinalizerStep-IsSound _ _ (item_answered r keccak rounds item selected at answer) h =
      same_storages r r.queue r.delayed r.submitting (answered item selected) r.late h
        h.submitting_fair
  FinalizerStep-IsSound _ _ (item_handled r now item selected delayed w w' at done) h =
      same_storages r r.queue delayed r.submitting ticking r.late h h.submitting_fair
  FinalizerStep-IsSound _ _ (timer_fired r t there) h =
      same_storages r r.queue (fire r.delayed t).1 r.submitting r.processing
        (r.late ++ (fire r.delayed t).0) h h.submitting_fair
  FinalizerStep-IsSound _ _ (late_passed r before after item at) h =
      same_storages r r.queue r.delayed r.submitting r.processing (before ++ after) h
        h.submitting_fair
  FinalizerStep-IsSound _ _ (late_processed r before after item done w w' at did) h =
      same_storages r r.queue r.delayed r.submitting r.processing (before ++ after) h
        h.submitting_fair

  pub RunReaches-IsSound :
      (r : FinalizerRun) → RunReaches ctx parse by_weight by_index relay r → IsSound r
  RunReaches-IsSound _ (started logs start_time from policies fetched) =
      start_run-IsSound policies (
        fetch_existing_signing_policies-AllFair parse fair ctx logs start_time from policies
          fetched)
  RunReaches-IsSound _ (goes_on r r' before step) =
      FinalizerStep-IsSound r r' step (RunReaches-IsSound r before)
