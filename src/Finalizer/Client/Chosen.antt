-- ===== src/Finalizer/Client/Chosen.antt =====
-- client/finalizer/finalizer_client.go: the policy that a submission is counted for is one of the storage.
use flare_system_client.Prelude.{
  ℕ, zero, suc, ◌≡◌, ◌⊎◌, refl, sym, ◌∙◌, subst, List, [], ◌∷◌, All, Option, none, some,
  Option-cases, ok, arith, get_elem?, inl, inr, Bool, true, false, if◌then◌else◌, ℤ,
}
use flare_system_client.Finalizer.Policies.{
  SigningPolicy, find_by_voting_round_id, get_for_voting_round,
}
use flare_system_client.Finalizer.Client.{FinalizerContext, signing_policy_data}

module _ (P : SigningPolicy → Type 0) where
  All-get_elem? :
      (ps : List SigningPolicy) (i : ℕ) (sp : SigningPolicy)
      → All P ps
      → get_elem? ps i ≡ some sp
      → P sp
  All-get_elem? [] i sp h e = absurd (ground arith)
  All-get_elem? (p ∷ ps) zero sp h e = subst (λ o. elim o [ none ↦ Unit {0} | some q ↦ P q ]) e h.0
  All-get_elem? (p ∷ ps) (suc i) sp h e = All-get_elem? ps i sp h.1 e

  picked :
      (ps : List SigningPolicy) (found : Bool) (i : ℕ) (sp : SigningPolicy)
      → (if found then get_elem? ps i else elim i [ zero ↦ none | suc k ↦ get_elem? ps k ])
        ≡ some sp
      → (k : ℕ) × (get_elem? ps k ≡ some sp)
  picked ps true i sp e = (i, e)
  picked ps false zero sp e = absurd (ground arith)
  picked ps false (suc k) sp e = (k, e)

  find-All :
      (ps : List SigningPolicy) (round : ℕ) (sp : SigningPolicy)
      → All P ps
      → find_by_voting_round_id ps round ≡ some sp
      → P sp
  unfolding find_by_voting_round_id
  find-All ps round sp h e = let (k, there) = picked ps _ _ sp e in All-get_elem? ps k sp h there

  get-find :
      (ps : List SigningPolicy) (round : ℕ) (sp : SigningPolicy) (last : Bool)
      → get_for_voting_round ps round ≡ some (sp, last)
      → find_by_voting_round_id ps round ≡ some sp
  unfolding get_for_voting_round
  get-find [] round sp last e = elim (Option-cases (find_by_voting_round_id [] round)) [
    | inl gone ↦ absurd (ground (arith, gone))
    | inr (q, found) ↦ absurd (ground (arith, found))
  ]
  get-find (p ∷ ps) round sp last e = elim (Option-cases (find_by_voting_round_id (p ∷ ps) round)) [
    | inl gone ↦ absurd (ground (arith, gone))
    | inr (q, found) ↦ ground (arith, found)
  ]

  pair-cases :
      {A B : Type 0} (o : Option (A × B)) → (o ≡ none) ⊎ ((a : A) × (b : B) × (o ≡ some (a, b)))
  pair-cases none = inl refl
  pair-cases (some (a, b)) = inr (a, b, refl)

  module _ (ctx : FinalizerContext) (now : ℤ) where
    chosen_policy :
        (ps : List SigningPolicy) (round t : ℕ) (sp q : SigningPolicy) (last : Bool)
        → get_for_voting_round ps round ≡ some (q, last)
        → signing_policy_data ctx now ps round ≡ ok (some (sp, t))
        → q ≡ sp
    unfolding signing_policy_data
    chosen_policy ps round t sp q false found e = ground (arith, found)
    chosen_policy ps round t sp q true found e = ground (arith, found)

    no_policy :
        (ps : List SigningPolicy) (round : ℕ)
        → get_for_voting_round ps round ≡ none
        → signing_policy_data ctx now ps round ≡ ok none
    unfolding signing_policy_data
    no_policy ps round gone = rw (gone, signing_policy_data) refl

    -- The policy that a submission is counted for is one of the storage.
    pub signing_policy_data-All :
        (ps : List SigningPolicy) (round t : ℕ) (sp : SigningPolicy)
        → All P ps
        → signing_policy_data ctx now ps round ≡ ok (some (sp, t))
        → P sp
    signing_policy_data-All ps round t sp h e = elim (pair-cases (get_for_voting_round ps round)) [
      | inl gone ↦ absurd (ground (arith, sym (no_policy ps round gone) ∙ e))
      | inr (q, last, found) ↦
          let same : q ≡ sp = chosen_policy ps round t sp q last found e in
          subst P same (find-All ps round q h (get-find ps round q last found))
    ]
