-- ===== src/Finalizer/Policies.antt =====
-- client/finalizer/signing_policy_storage.go: the signing policies, in the order of their reward epochs.
pub mod Order
pub mod Lookup
use flare_system_client.Voters.{
  Address, VoterSet, new_voter_set, count, write_voter_raw, Error as VotersError,
}
use flare_system_client.Prelude.{
  ℕ, zero, suc, ◌+◌, ◌-◌, ◌/◌, ◌%◌, ◌^◌, Bool, ◌&&◌, List, [], ◌∷◌, ◌++◌, Bytes, be_bytes, ltb, leb,
  ◌==◌, if◌then◌else◌, length, get_elem?, get_or, Option, none, some, Go, ok, err, panicked, ◌>>=◌,
  must, guard, ◌>>◌, search, map, ℤ, pos, negsuc, ◌-ℤ◌,
}
use flare_system_client.Utils.Int64.{to_uint32, eq_ℤ}

pub data Error : Type 0 where
  missing_signing_policy start_not_ascending : Error

pub record SigningPolicy : Type 0 where
  pub reward_epoch_id : ℤ
  pub start_voting_round_id : ℕ
  pub threshold : ℕ
  pub seed : Option ℕ
  pub raw_bytes : Bytes
  pub block_timestamp : ℕ
  pub voters : VoterSet

-- `relay.RelaySigningPolicyInitialized`, the event that announces a policy.
pub record PolicyData : Type 0 where
  pub reward_epoch_id : ℤ
  pub start_voting_round_id : ℕ
  pub threshold : ℕ
  pub seed : Option ℕ
  pub voters : List Address
  pub weights : List ℕ
  pub signing_policy_bytes : Bytes
  pub timestamp : ℕ

unfoldable pub new_signing_policy : PolicyData → Go VotersError SigningPolicy
new_signing_policy r = new_voter_set r.voters r.weights >>= λ vs. ok (record {
  reward_epoch_id = r.reward_epoch_id;
  start_voting_round_id = r.start_voting_round_id;
  threshold = r.threshold;
  seed = r.seed;
  raw_bytes = r.signing_policy_bytes;
  block_timestamp = r.timestamp;
  voters = vs;
})

-- The last element of a list that begins with the given one.
unfoldable pub last_of {ℓ} : {A : Type ℓ} → A → List A → A
last_of x [] = x
last_of x (y ∷ ys) = last_of y ys

-- The start of the `k`-th policy, or 0 behind the last one.
unfoldable pub start_at : List SigningPolicy → ℕ → ℕ
start_at [] k = 0
start_at (p ∷ ps) zero = p.start_voting_round_id
start_at (p ∷ ps) (suc k) = start_at ps k

-- `sort.Find` looks for the first policy that starts at the round or later, and `found` says that it
-- starts at the round.
unfoldable pub find_by_voting_round_id : List SigningPolicy → ℕ → Option SigningPolicy
find_by_voting_round_id sp_list round =
    let i = search (length sp_list) (λ k. leb round (start_at sp_list k)) in
    if ltb i (length sp_list) && start_at sp_list i == round
    then get_elem? sp_list i
    else elim i [ zero ↦ none | suc k ↦ get_elem? sp_list k ]

-- `Add`: a policy joins the list behind the policy of the epoch before it.
unfoldable pub add : List SigningPolicy → SigningPolicy → Go Error (List SigningPolicy)
add [] sp = ok (sp ∷ [])
add (p ∷ ps) sp = do
  let last = last_of p ps
  guard (eq_ℤ last.reward_epoch_id (sp.reward_epoch_id -ℤ pos 1)) missing_signing_policy
  guard (leb last.start_voting_round_id sp.start_voting_round_id) start_not_ascending
  ok ((p ∷ ps) ++ (sp ∷ []))

-- `GetForVotingRound`, with whether the policy is the last one.
unfoldable pub get_for_voting_round : List SigningPolicy → ℕ → Option (SigningPolicy × Bool)
get_for_voting_round [] round = elim (find_by_voting_round_id [] round) [
  | none ↦ none
  | some sp ↦ none
]
get_for_voting_round (p ∷ ps) round = elim (find_by_voting_round_id (p ∷ ps) round) [
  | none ↦ none
  | some sp ↦ some (sp, eq_ℤ sp.reward_epoch_id (last_of p ps).reward_epoch_id)
]

unfoldable pub first : List SigningPolicy → Option SigningPolicy
first [] = none
first (p ∷ ps) = some p

-- `RemoveByVotingRound`: the reward epoch ids of the removed policies, and the policies left.
unfoldable pub remove_by_voting_round : List SigningPolicy → ℕ → List ℕ × List SigningPolicy
remove_by_voting_round [] round = ([], [])
remove_by_voting_round (p ∷ ps) round =
    let rest = remove_by_voting_round ps round in
    if leb p.start_voting_round_id round
    then (to_uint32 p.reward_epoch_id ∷ rest.0, rest.1)
    else ([], p ∷ ps)

-- The voters' part of `Encode`, from index `i` on, for `n` voters.
unfoldable pub encode_voters : VoterSet → ℕ → ℕ → Go VotersError Bytes
encode_voters vs i zero = ok []
encode_voters vs i (suc n) = do
  voter ← write_voter_raw vs i
  rest ← encode_voters vs (i + 1) n
  ok (voter ++ rest)

-- The bytes of a big integer, with no leading zero; `fuel` bounds their number.
unfoldable pub minimal_bytes : ℕ → ℕ → Bytes
minimal_bytes zero v = []
minimal_bytes (suc fuel) v =
    let rest = minimal_bytes fuel (v / 256) in if v == 0 then [] else rest ++ (v % 256 ∷ [])

-- `Encode`; a nil seed panics. The seed is a `uint256`, so 32 bytes are enough.
unfoldable pub encode : SigningPolicy → Go VotersError Bytes
encode sp = do
  seed ← must sp.seed
  voters ← encode_voters sp.voters 0 (count sp.voters)
  ok (
      be_bytes 2 (count sp.voters % 65536)
      ++ (be_bytes 4 (to_uint32 sp.reward_epoch_id)
          ++ (be_bytes 4 sp.start_voting_round_id
              ++ (be_bytes 2 sp.threshold ++ (minimal_bytes 32 seed ++ voters)))))
