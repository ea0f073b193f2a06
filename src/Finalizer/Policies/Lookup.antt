-- ===== src/Finalizer/Policies/Lookup.antt =====
-- client/finalizer/signing_policy_storage.go: the policy of a voting round.
use flare_system_client.Prelude.{
  ℕ, zero, suc, ◌≤◌, ◌<◌, ◌≡◌, ◌≢◌, refl, sym, Bool, true, false, List, [], ◌∷◌, arith, leb, ltb,
  ◌==◌, length, get_elem?, Bool-cases, inl, inr, Option, none, some, search, Splits, search-Splits,
  IsMonotone, ◌&&◌, get_elem?_exists, subst, get_elem?-lt,
}
use native.Mathlib.Decide.{dec_lt}
use flare_system_client.Finalizer.Policies.{SigningPolicy, start_at, find_by_voting_round_id}
use flare_system_client.Finalizer.Policies.Order.{IsOrdered}

start_at_ascending :
    (ps : List SigningPolicy) (i j : ℕ)
    → IsOrdered ps
    → i ≤ j
    → j < length ps
    → start_at ps i ≤ start_at ps j
unfolding start_at
start_at_ascending [] i j h le lt = absurd (omega arith)
start_at_ascending (p ∷ []) zero zero h le lt = omega arith
start_at_ascending (p ∷ []) (suc i) zero h le lt = absurd (omega arith)
start_at_ascending (p ∷ []) i (suc j) h le lt = absurd (omega arith)
start_at_ascending (p ∷ (q ∷ qs)) zero zero h le lt = omega arith
start_at_ascending (p ∷ (q ∷ qs)) zero (suc j) h le lt =
    omega (arith, h.0, start_at_ascending (q ∷ qs) zero j h.1 (omega arith) (omega arith))
start_at_ascending (p ∷ (q ∷ qs)) (suc i) zero h le lt = absurd (omega arith)
start_at_ascending (p ∷ (q ∷ qs)) (suc i) (suc j) h le lt =
    start_at_ascending (q ∷ qs) i j h.1 (omega arith) (omega arith)

start_at-get_elem? :
    (ps : List SigningPolicy) (i : ℕ) (p : SigningPolicy)
    → get_elem? ps i ≡ some p
    → start_at ps i ≡ p.start_voting_round_id
unfolding start_at
start_at-get_elem? [] i p e = absurd (ground arith)
start_at-get_elem? (q ∷ qs) zero p e = ground arith
start_at-get_elem? (q ∷ qs) (suc i) p e = start_at-get_elem? qs i p e

-- The policy in force for a round: it has started, and no policy that has started starts later.
-- With no policy, each of them starts after the round.
abbrev pub InForce : List SigningPolicy → ℕ → Option SigningPolicy → Type 0
InForce ps round none = (k : ℕ) → k < length ps → round < start_at ps k
InForce ps round (some p) =
    (i : ℕ) × (get_elem? ps i ≡ some p)
    × (p.start_voting_round_id ≤ round)
    × ((k : ℕ) → k < length ps → start_at ps k ≤ round → start_at ps k ≤ p.start_voting_round_id)

module _ (ps : List SigningPolicy) (round : ℕ) (h : IsOrdered ps) where
  abbrev not_before : ℕ → Bool
  not_before k = leb round (start_at ps k)

  not_before_mono : IsMonotone (length ps) not_before
  not_before_mono i j le lt e = ground (arith, start_at_ascending ps i j h le lt)

  stop : Splits (length ps) not_before (search (length ps) not_before)
  stop = search-Splits (length ps) not_before not_before_mono

  at_stop : (i : ℕ) → i < length ps → start_at ps i ≡ round → InForce ps round (get_elem? ps i)
  at_stop i lt same =
      let (p, q) = get_elem?_exists ps i lt in
      let start = start_at-get_elem? ps i p q in rw q (i, q, omega arith, λ k lt' le. omega arith)

  -- From the index where the search stops on, each start is behind the round, unless it is the round.
  later :
      (i : ℕ)
      → i ≡ search (length ps) not_before
      → (i < length ps → start_at ps i ≢ round)
      → (k : ℕ) → i ≤ k
      → k < length ps
      → round < start_at ps k
  later i e ne k le lt =
      let here : not_before i ≡ true = stop.2 i (omega arith) (omega arith) in
      let apart = ne (omega arith) in ground (arith, start_at_ascending ps i k h le lt)

  before_stop :
      (i : ℕ)
      → i ≡ search (length ps) not_before
      → (i < length ps → start_at ps i ≢ round)
      → InForce ps round (elim i [ zero ↦ none | suc k ↦ get_elem? ps k ])
  before_stop zero e ne = λ k lt. later zero e ne k (omega arith) lt
  before_stop (suc i) e ne =
      let (p, q) = get_elem?_exists ps i (omega (arith, stop.0)) in
      let start = start_at-get_elem? ps i p q in
      let early : not_before i ≡ false = stop.1 i (omega arith) in
      rw q (
        i,
        q,
        ground arith,
        λ k lt le. elim (dec_lt i k) [
          | yes behind ↦ absurd (omega (arith, later (suc i) e ne k behind lt))
          | no front ↦ omega (
            arith,
            start_at_ascending ps k i h (omega arith) (omega (arith, get_elem?-lt ps i q)),
          )
        ],
      )

  -- On an ordered list, the search returns the policy in force: one that starts at the voting
  -- round or before, and no later start up to the round is in the list. It returns none only if
  -- every policy starts after the round.
  pub find_by_voting_round_id-InForce : InForce ps round (find_by_voting_round_id ps round)
  unfolding find_by_voting_round_id
  find_by_voting_round_id-InForce =
      let i = search (length ps) not_before in
      elim (Bool-cases (ltb i (length ps) && start_at ps i == round)) [
        | inl e ↦
            let found : find_by_voting_round_id ps round ≡ get_elem? ps i =
              rw (e, find_by_voting_round_id) in
            subst (InForce ps round) (sym found) (at_stop i (ground arith) (ground arith))
        | inr e ↦
            let found : find_by_voting_round_id ps round
                ≡ (elim i [ zero ↦ none | suc k ↦ get_elem? ps k ]) =
              rw (e, find_by_voting_round_id) in
            subst (InForce ps round) (sym found) (before_stop i refl (λ lt q. ground arith))
      ]
