-- ===== src/Examples/Messages.antt =====
-- A message of three voters, which gathers payloads.
use flare_system_client.Prelude.{
  ℕ, zero, suc, ◌<◌, ◌≤◌, ◌≡◌, ◌≢◌, ◌⊎◌, refl, subst, false, true, List, [], ◌∷◌, ◌++◌, get_elem?,
  length, none, some, ok, err, pos, negsuc, arith, Perm, Bytes, sum_by, if◌then◌else◌, ◌==◌,
}
use mathlib.Core.List.Perm
use flare_system_client.Voters.{VoterSet, voter_index, count}
use flare_system_client.Finalizer.Payload.{SignedPayload, encode_for_relay}
use flare_system_client.Finalizer.Policies.{SigningPolicy}
use flare_system_client.Finalizer.Submissions.{
  MessageData, new_message_data, add_payload, put_payload, add, get, round_item, message_data,
  copy_message, new_submission_storage, signer_not_registered,
}
use flare_system_client.Finalizer.Submissions.Counted.{
  IsCounted, new_message_data-IsCounted, filled_weight,
}
use flare_system_client.Finalizer.Submissions.Message.{add_payload_total}
use flare_system_client.Finalizer.Submissions.Store.{
  announcements, announcements-le-one, announces, before_add, after_add, find,
}
use flare_system_client.Finalizer.Submissions.Kept.{AllKept, add-AllKept, announces-weight}
use flare_system_client.Finalizer.Queue.{present, select_payloads}
use flare_system_client.Finalizer.Queue.Greedy.{weight_of}
use flare_system_client.Finalizer.Queue.Enough.{select_payloads-Enough}
use flare_system_client.Finalizer.Queue.Fewest.{select_payloads-fewest}
use flare_system_client.Examples.Sorting.{sorter, sorter-laws}
use flare_system_client.Examples.Sets.{three_voters, three_weights, made}

abbrev pub three_set : VoterSet
three_set = record {
  voters = three_voters;
  weights = three_weights;
  total_weight = 600;
  thresholds = 0 ∷ 100 ∷ 300 ∷ [];
  voter_data_map = λ a.
      if a == 10
      then some (record { index = 0; weight = 100 })
      else if a == 20
      then some (record { index = 1; weight = 200 })
      else if a == 30
      then some (record { index = 2; weight = 300 })
      else none;
}

abbrev pub policy_for : VoterSet → SigningPolicy
policy_for vs = record {
  reward_epoch_id = pos 1;
  start_voting_round_id = 100;
  threshold = 400;
  seed = some 7;
  raw_bytes = [];
  block_timestamp = 1000;
  voters = vs;
}

abbrev pub payload_by : ℕ → SignedPayload
payload_by signer = record {
  type_id = 0;
  message = record {
    protocol_id = 1;
    voting_round_id = 150;
    random_quality_score = true;
    merkle_root = [];
  };
  raw_message = [];
  signature = [];
  additional_data = [];
  signer = signer;
  message_hash = 77;
  index = negsuc 0;
}

add_payload_total_example :
    (((j : ℕ) → get_elem? three_voters j ≢ some 20)
      × (add_payload (new_message_data (policy_for made.0)) (payload_by 20) 400
          ≡ err signer_not_registered))
    ⊎ ((m' : MessageData) × (i : ℕ) × (q : SignedPayload) × (add_payload
            (new_message_data (policy_for made.0))
            (payload_by 20)
            400
          ≡ ok m')
        × IsCounted m'
        × (get_elem? three_voters i ≡ some 20)
        × (get_elem? m'.payload i ≡ some (some q))
        × ((new_message_data (policy_for made.0)).weight ≤ m'.weight))
unfolding new_message_data
add_payload_total_example =
    add_payload_total three_voters three_weights (omega arith) (omega arith)
      (new_message_data (policy_for made.0)) (payload_by 20) 400 made.2
      (new_message_data-IsCounted (policy_for made.0))

abbrev one_payload : MessageData
one_payload = record {
  payload = none ∷ some (record (payload_by 20) { index = pos 1 }) ∷ none ∷ [];
  weight = 200;
  signing_policy = policy_for three_set;
  threshold_reached = false;
}

announcements-le-one_example :
    announcements 150 1 77 new_submission_storage (
      (payload_by 20, policy_for three_set, 400)
      ∷ (payload_by 30, policy_for three_set, 400)
      ∷ (payload_by 10, policy_for three_set, 400)
      ∷ [])
    ≤ 1
announcements-le-one_example = announcements-le-one 150 1 77 new_submission_storage (
    (payload_by 20, policy_for three_set, 400)
    ∷ (payload_by 30, policy_for three_set, 400)
    ∷ (payload_by 10, policy_for three_set, 400)
    ∷ [])

nothing-AllKept : AllKept new_submission_storage
unfolding find new_submission_storage
nothing-AllKept r i h m e = absurd (ground arith)

add-AllKept_example :
    AllKept (add new_submission_storage (payload_by 20) (policy_for three_set) 400).0
add-AllKept_example =
    add-AllKept new_submission_storage (payload_by 20) (policy_for three_set) 400 nothing-AllKept
      (omega arith)

-- Voter 30 alone has more weight than 250.
announced : announces new_submission_storage (payload_by 30) (policy_for three_set) 250 ≡ true
unfolding announces add round_item message_data new_submission_storage new_message_data add_payload
    put_payload voter_index count
announced = refl

announces-weight_example :
    ((before_add new_submission_storage (payload_by 30) (policy_for three_set)).threshold_reached
      ≡ false)
    × (250 < (after_add new_submission_storage (payload_by 30) (policy_for three_set) 250).weight)
    × (get (add new_submission_storage (payload_by 30) (policy_for three_set) 250).0 150 1 77
        ≡ some (
            copy_message
              (after_add new_submission_storage (payload_by 30) (policy_for three_set) 250)))
announces-weight_example =
    announces-weight new_submission_storage (payload_by 30) (policy_for three_set) 250 announced

-- Voters 20 and 30 together have more weight than the threshold.
abbrev pub full_message : MessageData
full_message = record {
  payload =
      none
      ∷ some (record (payload_by 20) { index = pos 1 })
      ∷ some (record (payload_by 30) { index = pos 2 })
      ∷ [];
  weight = 500;
  signing_policy = policy_for three_set;
  threshold_reached = true;
}

full_message-places :
    (i : ℕ) (p : SignedPayload)
    → get_elem? full_message.payload i ≡ some (some p)
    → (p.index ≡ pos i) × (voter_index three_set p.signer ≡ pos i)
unfolding voter_index
full_message-places zero p e = absurd (ground arith)
full_message-places (suc zero) p e =
    let same : record (payload_by 20) { index = pos 1 } ≡ p = cc in
    subst (λ (x : SignedPayload). (x.index ≡ pos 1) × (voter_index three_set x.signer ≡ pos 1)) same
      (refl, refl)
full_message-places (suc (suc zero)) p e =
    let same : record (payload_by 30) { index = pos 2 } ≡ p = cc in
    subst (λ (x : SignedPayload). (x.index ≡ pos 2) × (voter_index three_set x.signer ≡ pos 2)) same
      (refl, refl)
full_message-places (suc (suc (suc i))) p e = absurd (ground arith)

full_message-IsCounted : IsCounted full_message
unfolding count filled_weight
full_message-IsCounted = record { places = refl; counted = refl; placed = full_message-places }

select_payloads-Enough_example :
    (selected : List SignedPayload) × (rest : List SignedPayload) × (bytes : Bytes)
    × (select_payloads sorter sorter full_message ≡ ok selected)
    × Perm (selected ++ rest) (present full_message.payload)
    × (400 < sum_by (weight_of three_set) selected)
    × (encode_for_relay selected ≡ ok bytes)
unfolding count
select_payloads-Enough_example =
    select_payloads-Enough full_message full_message-IsCounted (omega arith) sorter sorter
      sorter-laws sorter-laws (omega arith) (omega arith) (omega arith)

-- Both payloads are needed: voter 30 alone has 300, under a threshold of 400.
select_payloads-fewest_example :
    (selected : List SignedPayload) × (select_payloads sorter sorter full_message ≡ ok selected)
    × (length selected ≤ 2)
unfolding count present
select_payloads-fewest_example =
    select_payloads-fewest full_message full_message-IsCounted (omega arith) sorter sorter
      sorter-laws sorter-laws (omega arith) (present full_message.payload) []
      (Perm.refl (present full_message.payload)) (omega arith)
