-- ===== src/Examples/Finalizing.antt =====
-- A finalizer that starts with one policy and counts the signatures of two voters.
use flare_system_client.Prelude.{
  ◌≢◌, panicked, ℕ, ◌<◌, ◌≡◌, refl, List, [], ◌∷◌, ◌++◌, Bytes, Bool, true, false, Perm, none, some,
  ok, pos, arith, sum_by, subst, some-injective, Option, search, ◌+ℤ◌, ◌-ℤ◌, ◌*ℤ◌,
}
use flare_system_client.Utils.Epochs.{
  start_time, end_time, epoch_index, quotient, end_epoch, int_epoch_index,
}
use flare_system_client.Utils.Int64.{to_uint32}
use flare_system_client.Voters.{
  VoterData, count, voter_index, new_voter_set, index_voters, insert_voter, running_totals,
  total_weight,
}
use flare_system_client.Finalizer.Payload.{SignedPayload, encode_for_relay}
use flare_system_client.Finalizer.Policies.{
  PolicyData, SigningPolicy, new_signing_policy, find_by_voting_round_id, get_for_voting_round,
  start_at, last_of,
}
use flare_system_client.Finalizer.Policies as Policies
use flare_system_client.Finalizer.Submissions.{
  MessageData, SubmissionStorage, new_message_data, add_payload, put_payload, round_item,
  message_data, put_round, put_message, get, copy_message, new_submission_storage, add,
}
use flare_system_client.Finalizer.Relay.{Log, parse_policies, fetch_signing_policies}
use flare_system_client.Finalizer.Queue.{QueueItem, present, select_payloads, process_item}
use flare_system_client.Finalizer.Queue.Greedy.{weight_of}
use flare_system_client.Finalizer.Client.{
  add_existing, signing_policy_data, check_voting_round_time,
}
use flare_system_client.Finalizer.Running.{
  FinalizerRun, Submitting, waiting, chosen, reached, start_run, fetch_existing_signing_policies,
  last_time, RunReaches, started, goes_on, policy_chosen, payload_added, after_addition,
}
use flare_system_client.Finalizer.Running.Fair.{FairParse, IsFairData}
use flare_system_client.Finalizer.Running.Relayed.{running-Enough, running-process_item}
use flare_system_client.Examples.Clients.{context, item_by}
use flare_system_client.Examples.Messages.{policy_for, three_set, payload_by}
use flare_system_client.Examples.Sorting.{sorter, sorter-laws}
use flare_system_client.Examples.Queues.{no_voter}

abbrev three_data : PolicyData
three_data = record {
  reward_epoch_id = pos 1;
  start_voting_round_id = 100;
  threshold = 400;
  seed = some 7;
  voters = 10 ∷ 20 ∷ 30 ∷ [];
  weights = 100 ∷ 200 ∷ 300 ∷ [];
  signing_policy_bytes = [];
  timestamp = 1000;
}

abbrev one_event : Log → Option PolicyData
one_event log = some three_data

one_event-Fair : FairParse one_event
one_event-Fair log d e =
    subst IsFairData (some-injective e)
      (record { weighted = omega arith; small = omega arith; few = omega arith })

abbrev event_log : Log
event_log = record { timestamp = 1000; topics = []; log_data = [] }

abbrev entry : ℕ → ℕ → VoterData
entry i w = record { index = i; weight = w }

abbrev three_policy : SigningPolicy
three_policy = record (policy_for three_set) {
  voters = record {
    voters = 10 ∷ 20 ∷ 30 ∷ [];
    weights = 100 ∷ 200 ∷ 300 ∷ [];
    total_weight = 600;
    thresholds = 0 ∷ 100 ∷ 300 ∷ [];
    voter_data_map =
        insert_voter (insert_voter (insert_voter (λ _. none) 10 (entry 0 100)) 20 (entry 1 200)) 30
          (entry 2 300);
  };
}

fetched :
    fetch_existing_signing_policies context one_event (some (event_log ∷ [])) 500
    ≡ ok (three_policy ∷ [], 1000)
unfolding fetch_existing_signing_policies fetch_signing_policies parse_policies add_existing
    new_signing_policy new_voter_set index_voters insert_voter running_totals Policies.add last_time
fetched = refl

abbrev Run : FinalizerRun → Type 0
Run r = RunReaches context one_event sorter sorter no_voter r

at_start : Run (start_run (three_policy ∷ []))
at_start = started (some (event_log ∷ [])) 500 1000 (three_policy ∷ []) fetched

abbrev with_item : SubmissionStorage → Submitting → FinalizerRun
with_item s next = record (start_run (three_policy ∷ [])) { submissions = s; submitting = next }

policy_found :
    signing_policy_data context (pos 1000000) (three_policy ∷ []) 150
    ≡ ok (some (three_policy, 360))
unfolding signing_policy_data get_for_voting_round find_by_voting_round_id search start_at last_of
    end_epoch int_epoch_index quotient end_time start_time ◌+ℤ◌ ◌-ℤ◌ ◌*ℤ◌ total_weight
policy_found = refl

in_time : check_voting_round_time context (pos 1000000) 150 ≡ ok true
unfolding check_voting_round_time epoch_index quotient to_uint32 ◌-ℤ◌
in_time = refl

-- The goroutine takes an item up, in a state with some submissions.
taken :
    (s : SubmissionStorage) (signer : ℕ)
    → Run (with_item s waiting)
    → Run (with_item s (chosen (item_by signer) three_policy 360))
unfolding start_run
taken s signer r =
    goes_on (with_item s waiting) (with_item s (chosen (item_by signer) three_policy 360)) r (
      policy_chosen (with_item s waiting) (pos 1000000) (item_by signer) three_policy 360 refl refl
        in_time policy_found)

abbrev after : SubmissionStorage → ℕ → SubmissionStorage
after s signer = (add s (payload_by signer) three_policy 360).0

abbrev one_counted : MessageData
one_counted = put_payload (new_message_data three_policy) 1 (payload_by 20) 200 360

abbrev both_counted : MessageData
both_counted = put_payload one_counted 2 (payload_by 30) 300 360

abbrev first_storage : SubmissionStorage
first_storage = after new_submission_storage 20

abbrev second_storage : SubmissionStorage
second_storage = after first_storage 30

counted :
    (add new_submission_storage (payload_by 20) three_policy 360).1
    ≡ ok (record { message = one_counted; threshold_reached = false })
unfolding add new_submission_storage new_message_data add_payload put_payload round_item
    message_data voter_index insert_voter count
counted = refl

counted_both :
    (add first_storage (payload_by 30) three_policy 360).1
    ≡ ok (record { message = both_counted; threshold_reached = true })
unfolding add new_submission_storage new_message_data add_payload put_payload round_item
    message_data put_round put_message voter_index insert_voter count
counted_both = refl

got : get second_storage 150 1 77 ≡ some (copy_message both_counted)
unfolding get add new_submission_storage new_message_data add_payload put_payload round_item
    message_data put_round put_message voter_index insert_voter count copy_message
got = refl

first_added : Run (with_item first_storage waiting)
unfolding after_addition start_run
first_added =
    goes_on (with_item new_submission_storage (chosen (item_by 20) three_policy 360))
      (with_item first_storage waiting) (taken new_submission_storage 20 at_start)
      (payload_added (with_item new_submission_storage (chosen (item_by 20) three_policy 360))
        (item_by 20) three_policy 360 (record { message = one_counted; threshold_reached = false })
        refl counted)

both_added : Run (with_item second_storage (reached (item_by 30) three_policy))
unfolding after_addition start_run
both_added =
    goes_on (with_item first_storage (chosen (item_by 30) three_policy 360))
      (with_item second_storage (reached (item_by 30) three_policy))
      (taken first_storage 30 first_added)
      (payload_added (with_item first_storage (chosen (item_by 30) three_policy 360)) (item_by 30)
        three_policy 360 (record { message = both_counted; threshold_reached = true }) refl
        counted_both)

heavy : (copy_message both_counted).signing_policy.threshold < (copy_message both_counted).weight
unfolding copy_message put_payload new_message_data
heavy = omega arith

running-Enough_example :
    (selected : List SignedPayload) × (rest : List SignedPayload) × (bytes : Bytes)
    × (select_payloads sorter sorter (copy_message both_counted) ≡ ok selected)
    × Perm (selected ++ rest) (present (copy_message both_counted).payload)
    × ((copy_message both_counted).signing_policy.threshold
        < sum_by (weight_of (copy_message both_counted).signing_policy.voters) selected)
    × (encode_for_relay selected ≡ ok bytes)
running-Enough_example =
    running-Enough context one_event sorter sorter no_voter one_event-Fair sorter-laws sorter-laws
      (with_item second_storage (reached (item_by 30) three_policy)) 150 1 77
      (copy_message both_counted) both_added got heavy

abbrev queued_item : QueueItem
queued_item = record { seed = some 7; voting_round_id = 150; protocol_id = 1; message_hash = 77 }

no_voter-calm :
    (payload : Bytes) (dry_run : Bool) (w : ℕ)
    → (no_voter.send_raw_tx payload dry_run w).0 ≢ panicked
no_voter-calm payload dry_run w = λ e. absurd (ground arith)

running-process_item_example :
    (done : Bool) × (w' : ℕ) × (process_item sorter sorter no_voter second_storage queued_item false
        0
      ≡ ok (done, w'))
running-process_item_example =
    running-process_item context one_event sorter sorter no_voter one_event-Fair no_voter-calm
      (with_item second_storage (reached (item_by 30) three_policy)) queued_item false 0 both_added
