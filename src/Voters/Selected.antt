-- ===== src/Voters/Selected.antt =====
-- client/shared/voters/voter_set.go: what the random selection selects.
use flare_system_client.Voters.{
  VoterSet, Address, Error, word16, select_voter_index, at, contains, threshold_out_of_range,
  select_loop, random_select_threshold_weight_voters,
}
use flare_system_client.Prelude.{
  ℕ, zero, suc, ◌+◌, ◌*◌, ◌/◌, ◌%◌, ◌≤◌, ◌≡◌, refl, sym, ap, ◌∙◌, subst, arith, true, false,
  Bool-cases, inl, inr, List, [], ◌∷◌, ◌++◌, Bytes, be_bytes, ltb, Option, none, some, Go, ok, err,
  ◌>>=◌, must, >>=-eq-ok, ok-injective, ℤ,
}

-- A selection with its weight, which one voter after the other has joined: each was not yet selected,
-- and the weight before it was below the threshold.
pub data Picked (vs : VoterSet) (threshold : ℕ) : List Address → ℕ → Type 0 where
  start : Picked vs threshold [] 0
  join :
      {selected : List Address} {weight : ℕ} (index : ℤ) (a : Address) (w : ℕ)
      → Picked vs threshold selected weight
      → ltb weight threshold ≡ true
      → at vs.voters index ≡ some a
      → contains selected a ≡ false
      → at vs.weights index ≡ some w
      → Picked vs threshold (selected ++ (a ∷ [])) ((weight + w) % word16)

must-ok : {E A : Type 0} (o : Option A) (a : A) → ◌≡◌ {A = Go E A} (must o) (ok a) → o ≡ some a
must-ok none a h = absurd (ground arith)
must-ok (some b) a h = ap (λ x. some x) (ok-injective h)

some-injective : {A : Type 0} {a b : A} → ◌≡◌ {A = Option A} (some a) (some b) → a ≡ b
some-injective e = cc

abbrev pub Reached : VoterSet → ℕ → List Address → Type 0
Reached vs threshold result =
    (weight : ℕ) × Picked vs threshold result weight × (ltb weight threshold ≡ false)

module _ (keccak : Bytes → ℕ) (vs : VoterSet) (threshold : ℕ) where
  -- What the loop does with the voter at the index that was drawn.
  abbrev pub with_voter : ℕ → ℕ → ℕ → List Address → ℤ → Address → Go Error (Option (List Address))
  with_voter rounds weight seed selected index a = elim (contains selected a) [
    | true ↦ select_loop keccak rounds vs threshold weight (keccak (be_bytes 32 seed)) selected
    | false ↦ must (at vs.weights index) >>= λ w.
        select_loop keccak rounds vs threshold ((weight + w) % word16) (keccak (be_bytes 32 seed))
          (selected ++ (a ∷ []))
  ]

  loop_below :
      (rounds weight seed : ℕ) (selected : List Address)
      → ltb weight threshold ≡ true
      → select_loop keccak (suc rounds) vs threshold weight seed selected ≡ (
          select_voter_index vs seed >>= λ index.
          must (at vs.voters index) >>= λ a. with_voter rounds weight seed selected index a)
  unfolding select_loop
  loop_below rounds weight seed selected h = rw (h, select_loop) refl

  loop_enough :
      (rounds weight seed : ℕ) (selected : List Address)
      → ltb weight threshold ≡ false
      → select_loop keccak rounds vs threshold weight seed selected ≡ ok (some selected)
  unfolding select_loop
  loop_enough zero weight seed selected h = rw (h, select_loop) refl
  loop_enough (suc rounds) weight seed selected h = rw (h, select_loop) refl

  loop_over :
      (weight seed : ℕ) (selected : List Address)
      → ltb weight threshold ≡ true
      → select_loop keccak 0 vs threshold weight seed selected ≡ ok none
  unfolding select_loop
  loop_over weight seed selected h = rw (h, select_loop) refl

  enough-Reached :
      (rounds weight seed : ℕ) (selected result : List Address)
      → Picked vs threshold selected weight
      → ltb weight threshold ≡ false
      → select_loop keccak rounds vs threshold weight seed selected ≡ ok (some result)
      → Reached vs threshold result
  enough-Reached rounds weight seed selected result p h e =
      let same : selected ≡ result =
        some-injective (ok-injective (sym (loop_enough rounds weight seed selected h) ∙ e)) in
      subst (Reached vs threshold) same (weight, p, h)

  with_again :
      (rounds weight seed : ℕ) (selected : List Address) (index : ℤ) (a : Address)
      → contains selected a ≡ true
      → with_voter rounds weight seed selected index a
        ≡ select_loop keccak rounds vs threshold weight (keccak (be_bytes 32 seed)) selected
  with_again rounds weight seed selected index a h = rw (h, with_voter) refl

  with_fresh :
      (rounds weight seed : ℕ) (selected : List Address) (index : ℤ) (a : Address)
      → contains selected a ≡ false
      → with_voter rounds weight seed selected index a ≡ (
          must (at vs.weights index) >>= λ w.
          select_loop keccak rounds vs threshold
            ((weight + w) % word16)
            (keccak (be_bytes 32 seed))
            (selected ++ (a ∷ [])))
  with_fresh rounds weight seed selected index a h = rw (h, with_voter) refl

  -- Both cases of a drawn voter, where the loop is known to keep the selection from then on.
  with_voter-Reached :
      (rounds weight seed : ℕ) (selected result : List Address) (index : ℤ) (a : Address)
      → Picked vs threshold selected weight
      → ltb weight threshold ≡ true
      → at vs.voters index ≡ some a
      → ((weight' seed' : ℕ) (selected' : List Address)
          → Picked vs threshold selected' weight'
          → select_loop keccak rounds vs threshold weight' seed' selected' ≡ ok (some result)
          → Reached vs threshold result)
      → with_voter rounds weight seed selected index a ≡ ok (some result)
      → Reached vs threshold result
  with_voter-Reached rounds weight seed selected result index a p below here rest e =
      elim (Bool-cases (contains selected a)) [
        | inl again ↦
            rest weight _ selected p
              (sym (with_again rounds weight seed selected index a again) ∙ e)
        | inr fresh ↦
            (let (w, weighs, e1) =
                >>=-eq-ok (must (at vs.weights index)) _
                  (sym (with_fresh rounds weight seed selected index a fresh) ∙ e) in
              rest _ _ _ (join index a w p below here fresh (must-ok _ w weighs)) e1)
      ]

  select_loop-Reached :
      (rounds weight seed : ℕ) (selected result : List Address)
      → Picked vs threshold selected weight
      → select_loop keccak rounds vs threshold weight seed selected ≡ ok (some result)
      → Reached vs threshold result
  select_loop-Reached zero weight seed selected result p e =
      elim (Bool-cases (ltb weight threshold)) [
        | inl below ↦
            (let never : ◌≡◌ {A = Go Error (Option (List Address))} (ok none) (ok (some result)) =
                sym (loop_over weight seed selected below) ∙ e in
              absurd (ground arith))
        | inr enough ↦ enough-Reached 0 weight seed selected result p enough e
      ]
  select_loop-Reached (suc rounds) weight seed selected result p e =
      elim (Bool-cases (ltb weight threshold)) [
        | inr enough ↦ enough-Reached (suc rounds) weight seed selected result p enough e
        | inl below ↦
            (let (index, drawn, e1) =
                >>=-eq-ok (select_voter_index vs seed) _
                  (sym (loop_below rounds weight seed selected below) ∙ e) in
              let (a, here, e2) = >>=-eq-ok (must (at vs.voters index)) _ e1 in
              with_voter-Reached rounds weight seed selected result index a p below
                (must-ok _ a here)
                (λ weight' seed' selected'.
                  select_loop-Reached rounds weight' seed' selected' result)
                e2)
      ]

-- If the random selection with a threshold in basis points returns a selection: the threshold is at most
-- half, no voter is selected twice, the selected voters' weights together (in 16 bits) reach that share
-- of the total weight, and before the last one they did not.
pub random_select-Picked :
    (keccak : Bytes → ℕ) (rounds : ℕ) (vs : VoterSet) (random_seed threshold_bips : ℕ)
    (result : List Address)
    → random_select_threshold_weight_voters keccak rounds vs random_seed threshold_bips
      ≡ ok (some result)
    → (threshold_bips ≤ 5000)
      × Reached vs (vs.total_weight * threshold_bips / 10000 % word16) result
random_select-Picked keccak rounds vs random_seed threshold_bips result e =
    elim (Bool-cases (ltb 5000 threshold_bips)) [
      | inl high ↦
          (let never : ◌≡◌ {A = Go Error (Option (List Address))} (err threshold_out_of_range)
                (ok (some result)) =
              sym (too_high high) ∙ e in
            absurd (ground arith))
      | inr low ↦ (
        ground arith,
        select_loop-Reached keccak vs _ rounds 0 random_seed [] result start
            (sym (in_bounds low) ∙ e),
      )
    ]
  where
    too_high :
        ltb 5000 threshold_bips ≡ true
        → random_select_threshold_weight_voters keccak rounds vs random_seed threshold_bips
          ≡ err threshold_out_of_range
    too_high h = unfold random_select_threshold_weight_voters in rw h refl

    in_bounds :
        ltb 5000 threshold_bips ≡ false
        → random_select_threshold_weight_voters keccak rounds vs random_seed threshold_bips
          ≡ select_loop keccak rounds vs
              (vs.total_weight * threshold_bips / 10000 % word16)
              0
              random_seed
              []
    in_bounds h = unfold random_select_threshold_weight_voters in rw h refl
