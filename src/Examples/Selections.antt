-- ===== src/Examples/Selections.antt =====
-- A selection from three voters, with a hash that is always 1.
use flare_system_client.Prelude.{ℕ, ◌≤◌, ◌*◌, ◌/◌, ◌%◌, ◌≡◌, refl, [], ◌∷◌, Bytes, some, ok}
use flare_system_client.Voters.{
  word16, random_select_threshold_weight_voters, select_loop, select_voter_index, binary_search,
  binary_search_loop,
}
use flare_system_client.Voters.Selected.{Reached, random_select-Picked}
use flare_system_client.Examples.Messages.{three_set}

abbrev one_hash : Bytes → ℕ
one_hash b = 1

two_selected :
    random_select_threshold_weight_voters one_hash 5 three_set 250 5000 ≡ ok (some (20 ∷ 10 ∷ []))
unfolding random_select_threshold_weight_voters select_loop select_voter_index binary_search
    binary_search_loop
two_selected = refl

random_select-Picked_example :
    (5000 ≤ 5000)
    × Reached three_set (three_set.total_weight * 5000 / 10000 % word16) (20 ∷ 10 ∷ [])
random_select-Picked_example =
    random_select-Picked one_hash 5 three_set 250 5000 (20 ∷ 10 ∷ []) two_selected
