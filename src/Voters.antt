-- ===== src/Voters.antt =====
-- client/shared/voters/voter_set.go: the voters of a reward epoch, their weights, and the random choice
-- of voters by weight. An address is the number that its 20 bytes spell; weights are `uint16`.
-- Keccak-256 is a parameter.
pub mod Weights
pub mod Index
pub mod Made
pub mod Selected
use flare_system_client.Prelude.{
  ℕ, zero, suc, ◌+◌, ◌-◌, ◌*◌, ◌/◌, ◌%◌, ◌^◌, ◌<◌, Bool, List, [], ◌∷◌, ◌++◌, Bytes, be_bytes, ltb,
  leb, ◌==◌, not, if◌then◌else◌, length, get_elem?, replicate, Option, none, some, Go, ok, err,
  panicked, ◌>>=◌, must, ℤ, pos, negsuc, true, false,
}

abbrev pub Address : Type 0
Address = ℕ

-- `uint16` arithmetic.
abbrev pub word16 : ℕ
word16 = 65536

pub data Error : Type 0 where
  threshold_out_of_range : Error

pub record VoterData : Type 0 where
  pub index : ℕ
  pub weight : ℕ

pub record VoterSet : Type 0 where
  pub voters : List Address
  pub weights : List ℕ
  pub total_weight : ℕ
  pub thresholds : List ℕ
  pub voter_data_map : Address → Option VoterData

-- The first loop of `NewVoterSet`: the running totals before each weight, and the total behind.
unfoldable pub running_totals : List ℕ → ℕ → List ℕ × ℕ
running_totals [] total = ([], total)
running_totals (w ∷ ws) total =
    let rest = running_totals ws ((total + w) % word16) in (total ∷ rest.0, rest.1)

unfoldable pub insert_voter :
    (Address → Option VoterData) → Address → VoterData → Address → Option VoterData
insert_voter m a d b = if b == a then some d else m b

-- The second loop, from index `i` on: an address that occurs again keeps its first entry.
unfoldable pub index_voters :
    ℕ → List Address → List ℕ → (Address → Option VoterData) → Go Error (Address → Option VoterData)
index_voters i [] weights m = ok m
index_voters i (v ∷ vs) weights m = elim (m v) [
  | some _ ↦ index_voters (i + 1) vs weights m
  | none ↦ do
    w ← must (get_elem? weights i)
    index_voters (i + 1) vs weights (insert_voter m v (record { index = i; weight = w }))
]

unfoldable pub new_voter_set : List Address → List ℕ → Go Error VoterSet
new_voter_set voters weights = do
  let totals = running_totals weights 0
  m ← index_voters 0 voters weights (λ _. none)
  ok (record {
    voters = voters;
    weights = weights;
    total_weight = totals.1;
    thresholds = totals.0;
    voter_data_map = m;
  })

-- `FillBytes` panics when the seed does not fit its 32 bytes.
unfoldable pub seed_bytes : Option ℕ → Go Error Bytes
seed_bytes none = ok (replicate 32 0)
seed_bytes (some s) = if ltb s (2 ^ 256) then ok (be_bytes 32 s) else panicked

-- The loop of `BinarySearch` on `[left, right]`. The interval shrinks in each round.
unfoldable pub binary_search_loop : ℕ → List ℕ → ℕ → ℕ → ℕ → Go Error ℤ
binary_search_loop zero thresholds value left right = panicked
binary_search_loop (suc fuel) thresholds value left right = elim (ltb left right) [
  | true ↦ must (get_elem? thresholds ((left + right) / 2)) >>= λ t. elim (ltb t value) [
    | true ↦ binary_search_loop fuel thresholds value ((left + right) / 2 + 1) right
    | false ↦ elim (ltb value t) [
      | true ↦ binary_search_loop fuel thresholds value left ((left + right) / 2)
      | false ↦ ok (pos ((left + right) / 2))
    ]
  ]
  | false ↦ elim left [ zero ↦ ok (negsuc 0) | suc k ↦ ok (pos k) ]
]

-- With no thresholds at all, `thresholds[-1]` panics.
unfoldable pub binary_search : VoterSet → ℕ → Go Error ℤ
binary_search vs value =
    if ltb vs.total_weight value then panicked else elim (length vs.thresholds) [
      | zero ↦ panicked
      | suc right ↦ must (get_elem? vs.thresholds right) >>= λ t.
          if leb t value
          then ok (pos right)
          else binary_search_loop (suc right) vs.thresholds value 0 right
    ]

-- `Mod` by a zero total panics.
unfoldable pub select_voter_index : VoterSet → ℕ → Go Error ℤ
select_voter_index vs random_number =
    if vs.total_weight == 0
    then panicked
    else binary_search vs (random_number % vs.total_weight % word16)

-- `vs.voters[index]`, where a negative index panics.
abbrev pub at {ℓ} : {A : Type ℓ} → List A → ℤ → Option A
at xs (pos i) = get_elem? xs i
at xs (negsuc i) = none

-- A set of addresses, as the list of its members in the order in which they were added.
abbrev pub contains : List Address → Address → Bool
contains [] a = false
contains (x ∷ xs) a = if a == x then true else contains xs a

module _ (keccak : Bytes → ℕ) where
  unfoldable pub initial_hash_seed : Option ℕ → ℕ → ℕ → Go Error ℕ
  initial_hash_seed reward_epoch_seed protocol_id voting_round_id = do
    s ← seed_bytes reward_epoch_seed
    ok (
        keccak (
          s
          ++ ((replicate 31 0 ++ (protocol_id ∷ []))
              ++ (replicate 28 0 ++ be_bytes 4 voting_round_id))))

  unfoldable pub random_number_sequence : ℕ → ℕ → List ℕ
  random_number_sequence initial_seed zero = []
  random_number_sequence initial_seed (suc n) =
      initial_seed ∷ random_number_sequence (keccak (be_bytes 32 initial_seed)) n

  -- The loop of `RandomSelectThresholdWeightVoters`. `none` means that the rounds given to it did not
  -- suffice: how many it takes depends on the hash function.
  unfoldable pub select_loop :
      ℕ → VoterSet → ℕ → ℕ → ℕ → List Address → Go Error (Option (List Address))
  select_loop zero vs threshold_weight selected_weight seed selected =
      if ltb selected_weight threshold_weight then ok none else ok (some selected)
  select_loop (suc rounds) vs threshold_weight selected_weight seed selected =
      elim (ltb selected_weight threshold_weight) [
        | false ↦ ok (some selected)
        | true ↦ select_voter_index vs seed >>= λ index. must (at vs.voters index) >>= λ a.
            elim (contains selected a) [
              | true ↦
                  select_loop rounds vs threshold_weight selected_weight (keccak (be_bytes 32 seed))
                    selected
              | false ↦ must (at vs.weights index) >>= λ w.
                  select_loop rounds vs threshold_weight ((selected_weight + w) % word16)
                    (keccak (be_bytes 32 seed)) (selected ++ (a ∷ []))
            ]
      ]

  unfoldable pub random_select_threshold_weight_voters :
      ℕ → VoterSet → ℕ → ℕ → Go Error (Option (List Address))
  random_select_threshold_weight_voters rounds vs random_seed threshold_bips =
      if ltb 5000 threshold_bips
      then err threshold_out_of_range
      else select_loop rounds vs (vs.total_weight * threshold_bips / 10000 % word16) 0 random_seed
          []

  unfoldable pub select_voters :
      ℕ → VoterSet → Option ℕ → ℕ → ℕ → ℕ → Go Error (Option (List Address))
  select_voters rounds vs reward_epoch_seed protocol_id voting_round_id threshold_bips = do
    seed ← initial_hash_seed reward_epoch_seed protocol_id voting_round_id
    random_select_threshold_weight_voters rounds vs seed threshold_bips

unfoldable pub total_weight : VoterSet → ℕ
total_weight vs = vs.total_weight

unfoldable pub voter_weight : VoterSet → ℤ → Go Error ℕ
voter_weight vs index = must (at vs.weights index)

unfoldable pub count : VoterSet → ℕ
count vs = length vs.voters

unfoldable pub write_voter_raw : VoterSet → ℕ → Go Error Bytes
write_voter_raw vs i = do
  w ← must (get_elem? vs.weights i)
  v ← must (get_elem? vs.voters i)
  ok (be_bytes 20 v ++ be_bytes 2 w)

unfoldable pub voter_index : VoterSet → Address → ℤ
voter_index vs a = elim (vs.voter_data_map a) [ none ↦ negsuc 0 | some d ↦ pos d.index ]
