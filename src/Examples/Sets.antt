-- ===== src/Examples/Sets.antt =====
-- A set of three voters.
use flare_system_client.Prelude.{ℕ, ◌+◌, ◌<◌, ◌≤◌, ◌≡◌, List, [], ◌∷◌, get_or, ok, pos, arith}
use flare_system_client.Voters.{Address, VoterSet, new_voter_set, binary_search}
use flare_system_client.Voters.Weights.{before}
use flare_system_client.Voters.Made.{IsVoterSet, new_voter_set-IsVoterSet, binary_search-owner}

abbrev pub three_voters : List Address
three_voters = 10 ∷ 20 ∷ 30 ∷ []

abbrev pub three_weights : List ℕ
three_weights = 100 ∷ 200 ∷ 300 ∷ []

new_voter_set-IsVoterSet_example :
    (vs : VoterSet) × (new_voter_set three_voters three_weights ≡ ok vs)
    × IsVoterSet three_voters three_weights vs
new_voter_set-IsVoterSet_example =
    new_voter_set-IsVoterSet three_voters three_weights (omega arith) (omega arith)

-- The same result, for the examples about it.
pub made :
    (vs : VoterSet) × (new_voter_set three_voters three_weights ≡ ok vs)
    × IsVoterSet three_voters three_weights vs
made = new_voter_set-IsVoterSet three_voters three_weights (omega arith) (omega arith)

binary_search-owner_example :
    (j : ℕ) × (binary_search made.0 250 ≡ ok (pos j))
    × (j < 3)
    × (before three_weights j ≤ 250)
    × (250 < before three_weights j + get_or three_weights j 0)
binary_search-owner_example =
    binary_search-owner three_voters three_weights made.0 made.2 250
      (omega arith, (omega arith, (omega arith, tt))) (omega arith)
