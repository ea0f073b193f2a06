-- ===== src/Voters/Made.antt =====
-- client/shared/voters/voter_set.go: what `NewVoterSet` makes, and the two lookups on it.
use flare_system_client.Prelude.{
  ℕ, suc, ◌+◌, ◌≤◌, ◌<◌, ◌≡◌, ◌≢◌, inl, inr, refl, ◌∙◌, ap, sym, List, [], ◌∷◌, arith, length,
  get_elem?, get_or, get_elem?-eq-get_or, none, some, ok, pos, negsuc, Option-cases, All,
}
use native.Mathlib.Decide.{dec_lt}
use flare_system_client.Voters.{
  Address, VoterSet, word16, running_totals, new_voter_set, voter_index, binary_search,
  binary_search_loop,
}
use flare_system_client.Voters.Weights.{
  sum, before, before_step, before_all, positive_at, length_of_lt_sum, running_totals-length,
  running_totals-sum, running_totals-before, Lands, binary_search_loop-Lands,
}
use flare_system_client.Voters.Index.{
  first_entry, index_voters-first_entry, first_entry_hit, first_entry_miss, first_entry-none,
  first_entry_sound,
}

pub record IsVoterSet (voters : List Address) (weights : List ℕ) (vs : VoterSet) : Type 0 where
  pub same_voters : vs.voters ≡ voters
  pub same_weights : vs.weights ≡ weights
  pub total : vs.total_weight ≡ sum weights
  pub thresholds_length : length vs.thresholds ≡ length weights
  pub threshold : (k : ℕ) → k < length weights → get_or vs.thresholds k 0 ≡ before weights k
  pub entry : (a : Address) → vs.voter_data_map a ≡ first_entry weights 0 voters a

first_zero : (ws : List ℕ) → before ws 0 ≡ 0
first_zero [] = refl
first_zero (w ∷ ws) = refl

module _ (voters : List Address) (weights : List ℕ) where
  -- For as many weights as voters, or more, whose sum fits 16 bits, `NewVoterSet` succeeds: the total is
  -- the sum of the weights, each threshold is the sum of the weights before it, and the map holds for each
  -- voter the index and the weight of its first entry.
  pub new_voter_set-IsVoterSet :
      length voters ≤ length weights
      → sum weights < word16
      → (vs : VoterSet) × (new_voter_set voters weights ≡ ok vs) × IsVoterSet voters weights vs
  unfolding new_voter_set
  new_voter_set-IsVoterSet fits small =
      let (m, e, spec) = index_voters-first_entry 0 voters weights (λ _. none) (omega arith) in
      (
        record {
          voters = voters;
          weights = weights;
          total_weight = (running_totals weights 0).1;
          thresholds = (running_totals weights 0).0;
          voter_data_map = m;
        },
        rw e,
        record {
          same_voters = refl;
          same_weights = refl;
          total = omega (arith, running_totals-sum weights 0 (omega arith));
          thresholds_length = running_totals-length weights 0;
          threshold = λ k lt. omega (arith, running_totals-before weights 0 k (omega arith) lt);
          entry = spec;
        },
      )

  module _ (vs : VoterSet) (made : IsVoterSet voters weights vs) where
    pub voter_index_hit :
        (a : Address) (k : ℕ)
        → get_elem? voters k ≡ some a
        → ((j : ℕ) → j < k → get_elem? voters j ≢ some a)
        → voter_index vs a ≡ pos k
    unfolding voter_index
    voter_index_hit a k e first =
        let z : 0 + k ≡ k = omega arith in
        rw (voter_index, made.entry a, first_entry_hit weights 0 voters a k e first) (ap pos z)

    pub voter_index_miss :
        (a : Address) → ((j : ℕ) → get_elem? voters j ≢ some a) → voter_index vs a ≡ negsuc 0
    unfolding voter_index
    voter_index_miss a absent =
        rw (voter_index, made.entry a, first_entry_miss weights 0 voters a absent)

    -- An index that is not -1 is in range, and is that of the address.
    pub voter_index_sound :
        (a : Address) (k : ℕ) → voter_index vs a ≡ pos k → get_elem? voters k ≡ some a
    unfolding voter_index
    voter_index_sound a k e = elim (Option-cases (vs.voter_data_map a)) [
      | inl n ↦ absurd (ground arith)
      | inr (d, q) ↦
          let (j, p, _, r) = first_entry_sound weights 0 voters a d (sym (made.entry a) ∙ q) in
          let same : k ≡ j = ground arith in rw same r
    ]

    module _ (value right : ℕ) (size : length weights ≡ suc right) (lt : value < sum weights) where
      size' : length vs.thresholds ≡ suc right
      size' = made.thresholds_length ∙ size

      binary_search_last :
          get_or vs.thresholds right 0 ≤ value → binary_search vs value ≡ ok (pos right)
      unfolding binary_search
      binary_search_last h =
          ground (arith, made.total, size', get_elem?-eq-get_or vs.thresholds right 0)

      binary_search_inner :
          value < get_or vs.thresholds right 0
          → binary_search vs value ≡ binary_search_loop (suc right) vs.thresholds value 0 right
      unfolding binary_search
      binary_search_inner h =
          ground (arith, made.total, size', get_elem?-eq-get_or vs.thresholds right 0)

      covers :
          (j : ℕ)
          → j < length weights
          → All (λ w. 0 < w) weights
          → Lands vs.thresholds value j
          → (before weights j ≤ value) × (value < before weights j + get_or weights j 0)
      covers j in_range positive (inl same) =
          omega (arith, made.threshold j in_range, positive_at weights j positive in_range)
      covers j in_range positive (inr (more, low, high)) = omega (
        arith,
        made.threshold j in_range,
        made.threshold (suc j) (omega (arith, made.thresholds_length)),
        before_step weights j,
      )

      owner :
          All (λ w. 0 < w) weights
          → (j : ℕ) × (binary_search vs value ≡ ok (pos j))
            × (j < length weights)
            × (before weights j ≤ value)
            × (value < before weights j + get_or weights j 0)
      owner positive = elim (dec_lt value (get_or vs.thresholds right 0)) [
        | no high ↦ (
          right,
          binary_search_last (omega arith),
          omega arith,
          omega (arith, made.threshold right),
          omega (
            arith,
            made.threshold right,
            before_step weights right,
            ap (before weights) size,
            before_all weights,
          ),
        )
        | yes low ↦
            let (j, e, in_range, lands) =
              binary_search_loop-Lands vs.thresholds value
                (omega (arith, made.threshold 0, first_zero weights)) (suc right) 0 right
                (omega arith) (omega (arith, size')) (omega arith) low (inl refl) in
            let in_weights : j < length weights = omega (arith, made.thresholds_length) in
            let (below, above) = covers j in_weights positive lands in
            (j, binary_search_inner low ∙ e, in_weights, below, above)
      ]

    -- In the set of given voters and weights, with every weight positive, `BinarySearch` finds for
    -- a value below the total the voter that owns it: the one whose weight covers it when the
    -- weights are laid end to end.
    pub binary_search-owner :
        (value : ℕ)
        → All (λ w. 0 < w) weights
        → value < sum weights
        → (j : ℕ) × (binary_search vs value ≡ ok (pos j))
          × (j < length weights)
          × (before weights j ≤ value)
          × (value < before weights j + get_or weights j 0)
    binary_search-owner value positive lt =
        let (right, size) = length_of_lt_sum weights value lt in owner value right size lt positive

    -- The index -1 means that the address is not among the voters.
    pub voter_index_none :
        (a : Address) (k : ℕ) → voter_index vs a ≡ negsuc k → (j : ℕ) → get_elem? voters j ≢ some a
    unfolding voter_index
    voter_index_none a k e = elim (Option-cases (vs.voter_data_map a)) [
      | inl n ↦ first_entry-none weights 0 voters a (sym (made.entry a) ∙ n)
      | inr (d, q) ↦ absurd (ground (arith, q))
    ]
