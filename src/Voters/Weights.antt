-- ===== src/Voters/Weights.antt =====
-- client/shared/voters/voter_set.go: running totals, and the voter to whom a random weight belongs.
use flare_system_client.Prelude.{
  ℕ, zero, suc, ◌+◌, ◌-◌, ◌/◌, ◌%◌, ◌≤◌, ◌<◌, ◌≡◌, ◌⊎◌, inl, inr, refl, ap, List, [], ◌∷◌, arith,
  length, get_or, get_elem?-eq-get_or, ok, pos, All,
}
use native.Mathlib.Decide.{dec_lt}
use flare_system_client.Voters.{word16, running_totals, binary_search_loop}

abbrev pub sum : List ℕ → ℕ
sum [] = 0
sum (w ∷ ws) = w + sum ws

-- The weight of the voters before the `k`-th.
abbrev pub before : List ℕ → ℕ → ℕ
before [] k = 0
before (w ∷ ws) zero = 0
before (w ∷ ws) (suc k) = w + before ws k

pub before_step : (ws : List ℕ) (k : ℕ) → before ws (suc k) ≡ before ws k + get_or ws k 0
before_step [] k = omega arith
before_step (w ∷ []) zero = omega arith
before_step (w ∷ (u ∷ us)) zero = omega arith
before_step (w ∷ ws) (suc k) = omega (arith, before_step ws k)

pub before_all : (ws : List ℕ) → before ws (length ws) ≡ sum ws
before_all [] = refl
before_all (w ∷ ws) = omega (arith, before_all ws)

pub positive_at : (ws : List ℕ) (k : ℕ) → All (λ w. 0 < w) ws → k < length ws → 0 < get_or ws k 0
positive_at [] k h lt = absurd (omega arith)
positive_at (w ∷ ws) zero h lt = h.0
positive_at (w ∷ ws) (suc k) h lt = positive_at ws k h.1 (omega arith)

pub length_of_lt_sum : (ws : List ℕ) (v : ℕ) → v < sum ws → (r : ℕ) × (length ws ≡ suc r)
length_of_lt_sum [] v h = absurd (omega arith)
length_of_lt_sum (w ∷ ws) v h = (length ws, refl)

-- With a sum that fits 16 bits the totals do not wrap.
pub running_totals-length :
    (ws : List ℕ) (total : ℕ) → length (running_totals ws total).0 ≡ length ws
unfolding running_totals
running_totals-length [] total = refl
running_totals-length (w ∷ ws) total = ap suc (running_totals-length ws _)

pub running_totals-sum :
    (ws : List ℕ) (total : ℕ)
    → total + sum ws < word16
    → (running_totals ws total).1 ≡ total + sum ws
unfolding running_totals
running_totals-sum [] total h = omega arith
running_totals-sum (w ∷ ws) total h =
    omega (arith, running_totals-sum ws ((total + w) % word16) (omega arith))

pub running_totals-before :
    (ws : List ℕ) (total k : ℕ)
    → total + sum ws < word16
    → k < length ws
    → get_or (running_totals ws total).0 k 0 ≡ total + before ws k
unfolding running_totals
running_totals-before [] total k h lt = absurd (omega arith)
running_totals-before (w ∷ ws) total zero h lt = omega arith
running_totals-before (w ∷ ws) total (suc k) h lt =
    omega (arith, running_totals-before ws ((total + w) % word16) k (omega arith) (omega arith))

-- What the loop of `BinarySearch` finds: the value itself, or the gap that it lies in.
abbrev pub Lands : List ℕ → ℕ → ℕ → Type 0
Lands ts v j =
    (get_or ts j 0 ≡ v) ⊎ ((suc j < length ts) × (get_or ts j 0 < v) × (v < get_or ts (suc j) 0))

-- One round of the loop, by the comparison with the middle threshold.
module _ (ts : List ℕ) (v fuel left right : ℕ) (go : left < right) (lt : right < length ts) where
  abbrev middle : ℕ
  middle = (left + right) / 2

  round_up :
      get_or ts middle 0 < v
      → binary_search_loop (suc fuel) ts v left right
        ≡ binary_search_loop fuel ts v (middle + 1) right
  unfolding binary_search_loop
  round_up h = ground (arith, get_elem?-eq-get_or ts ((left + right) / 2) 0)

  round_down :
      v < get_or ts middle 0
      → binary_search_loop (suc fuel) ts v left right ≡ binary_search_loop fuel ts v left middle
  unfolding binary_search_loop
  round_down h = ground (arith, get_elem?-eq-get_or ts ((left + right) / 2) 0)

  round_stop :
      get_or ts middle 0 ≡ v → binary_search_loop (suc fuel) ts v left right ≡ ok (pos middle)
  unfolding binary_search_loop
  round_stop h = ground (arith, get_elem?-eq-get_or ts ((left + right) / 2) 0)

order : (a b : ℕ) → (a < b) ⊎ (b < a) ⊎ (a ≡ b)
order a b = elim (dec_lt a b) [
  | yes p ↦ inl p
  | no p ↦ inr (elim (dec_lt b a) [ yes q ↦ inl q | no q ↦ inr (omega arith) ])
]

module _ (ts : List ℕ) (v : ℕ) (start : get_or ts 0 0 ≤ v) where
  loop_end :
      (fuel left : ℕ)
      → left < length ts
      → v < get_or ts left 0
      → (left ≡ 0) ⊎ (get_or ts (left - 1) 0 < v)
      → (j : ℕ) × (binary_search_loop (suc fuel) ts v left left ≡ ok (pos j))
        × (j < length ts)
        × Lands ts v j
  unfolding binary_search_loop
  loop_end fuel zero lt above below = absurd (omega arith)
  loop_end fuel (suc k) lt above below = (
    k,
    ground arith,
    omega arith,
    inr (lt, ground (arith, ap (λ i. get_or ts i 0) (back k)), above),
  )
    where
      back : (k : ℕ) → suc k - 1 ≡ k
      back k = omega arith

  pub binary_search_loop-Lands :
      (fuel left right : ℕ)
      → left ≤ right
      → right < length ts
      → right < left + fuel
      → v < get_or ts right 0
      → (left ≡ 0) ⊎ (get_or ts (left - 1) 0 < v)
      → (j : ℕ) × (binary_search_loop fuel ts v left right ≡ ok (pos j))
        × (j < length ts)
        × Lands ts v j
  binary_search_loop-Lands zero left right le lt f above below = absurd (omega arith)
  binary_search_loop-Lands (suc fuel) left right le lt f above below = elim (dec_lt left right) [
    | no stop ↦
        let e : right ≡ left = omega arith in
        rw e (loop_end fuel left (omega arith) (rw e at above) below)
    | yes go ↦
        let m = (left + right) / 2 in
        elim (order (get_or ts m 0) v) [
          | inl small ↦ rw (round_up ts v fuel left right go lt small) (
              binary_search_loop-Lands fuel (m + 1) right (omega arith) lt (omega arith) above
                (inr (rw (back m) small)))
          | inr (inl big) ↦ rw (round_down ts v fuel left right go lt big) (
              binary_search_loop-Lands fuel left m (omega arith) (omega arith) (omega arith) big
                below)
          | inr (inr same) ↦ (m, round_stop ts v fuel left right go lt same, omega arith, inl same)
        ]
  ]
    where
      back : (k : ℕ) → k + 1 - 1 ≡ k
      back k = omega arith
