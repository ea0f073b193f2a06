-- ===== src/Finalizer/Submissions.antt =====
-- client/finalizer/submission_storage.go: the signatures received for each voting round, protocol and
-- message, with the weight of their signers. The two Go maps are functions into options.
pub mod Counted
pub mod Message
pub mod Store
pub mod Kept
use flare_system_client.Finalizer.Payload.{SignedPayload}
use flare_system_client.Finalizer.Policies.{SigningPolicy}
use flare_system_client.Voters.{word16, count, voter_index, at}
use flare_system_client.Prelude.{
  ℕ, ◌+◌, ◌%◌, Bool, true, false, not, ◌&&◌, ◌||◌, List, [], ◌∷◌, ltb, ◌==◌, if◌then◌else◌,
  get_elem?, set, replicate, Option, none, some, Go, ok, err, panicked, ◌>>=◌, must, ℤ, pos, negsuc,
}

pub data Error : Type 0 where
  signer_not_registered : Error

pub record MessageData : Type 0 where
  pub payload : List (Option SignedPayload)
  pub weight : ℕ
  pub signing_policy : SigningPolicy
  pub threshold_reached : Bool

-- The map of one voting round, from a protocol id and a message hash.
abbrev pub VotingRoundItem : Type 0
VotingRoundItem = ℕ → ℕ → Option MessageData

-- The map of `submissionStorage`, from a voting round id.
abbrev pub SubmissionStorage : Type 0
SubmissionStorage = ℕ → Option VotingRoundItem

pub record AddPayloadResult : Type 0 where
  pub message : MessageData
  pub threshold_reached : Bool

unfoldable pub new_message_data : SigningPolicy → MessageData
new_message_data sp = record {
  payload = replicate (count sp.voters) none;
  weight = 0;
  signing_policy = sp;
  threshold_reached = false;
}

-- The stored payload, its weight and the threshold flag: `addPayload` behind its checks.
unfoldable pub put_payload : MessageData → ℕ → SignedPayload → ℕ → ℕ → MessageData
put_payload m i p w threshold = record m {
  payload = set m.payload i (some (record p { index = pos i }));
  weight = (m.weight + w) % word16;
  threshold_reached = m.threshold_reached || ltb threshold ((m.weight + w) % word16);
}

-- `addPayload`: a signer who is no voter is an error, and a second payload of a voter is passed over.
unfoldable pub add_payload : MessageData → SignedPayload → ℕ → Go Error MessageData
add_payload m p threshold = elim (voter_index m.signing_policy.voters p.signer) [
  | negsuc _ ↦ err signer_not_registered
  | pos i ↦ must (get_elem? m.payload i) >>= λ present. elim present [
    | some _ ↦ ok m
    | none ↦ must (get_elem? m.signing_policy.voters.weights i) >>= λ w.
        ok (put_payload m i p w threshold)
  ]
]

unfoldable pub new_submission_storage : SubmissionStorage
new_submission_storage round = none

unfoldable pub put_message : VotingRoundItem → ℕ → ℕ → MessageData → VotingRoundItem
put_message item protocol_id hash m i h = if i == protocol_id && h == hash then some m else item i h

unfoldable pub put_round : SubmissionStorage → ℕ → VotingRoundItem → SubmissionStorage
put_round s round item r = if r == round then some item else s r

-- The entries that `Add` finds, or makes where there are none.
unfoldable pub round_item : SubmissionStorage → ℕ → VotingRoundItem
round_item s round = elim (s round) [ some item ↦ item | none ↦ λ i h. none ]

unfoldable pub message_data : VotingRoundItem → ℕ → ℕ → SigningPolicy → MessageData
message_data item protocol_id hash sp = elim (item protocol_id hash) [
  | some m ↦ m
  | none ↦ new_message_data sp
]

-- `Add`, with the storage that it leaves. The entries stay there also when the payload is refused.
unfoldable pub add :
    SubmissionStorage
    → SignedPayload
    → SigningPolicy
    → ℕ
    → SubmissionStorage × Go Error AddPayloadResult
add s p sp threshold =
    let item = round_item s p.message.voting_round_id in
    let m = message_data item p.message.protocol_id p.message_hash sp in
    let store = λ (m' : MessageData).
      put_round s p.message.voting_round_id
        (put_message item p.message.protocol_id p.message_hash m') in
    elim (add_payload m p threshold) [
      | ok m' ↦ (
        store m',
        ok (record {
          message = m';
          threshold_reached = not m.threshold_reached && m'.threshold_reached;
        }),
      )
      | err e ↦ (store m, err e)
      | panicked ↦ (store m, panicked)
    ]

-- `Copy`, which leaves the threshold flag out.
unfoldable pub copy_message : MessageData → MessageData
copy_message m = record m { threshold_reached = false }

unfoldable pub get : SubmissionStorage → ℕ → ℕ → ℕ → Option MessageData
get s round protocol_id hash = elim (s round) [
  | none ↦ none
  | some item ↦ elim (item protocol_id hash) [ none ↦ none | some m ↦ some (copy_message m) ]
]

unfoldable pub delete_round : SubmissionStorage → ℕ → SubmissionStorage
delete_round s round r = if r == round then none else s r

unfoldable pub remove_voting_round_ids : SubmissionStorage → List ℕ → SubmissionStorage
remove_voting_round_ids s [] = s
remove_voting_round_ids s (id ∷ ids) = remove_voting_round_ids (delete_round s id) ids
