-- ===== src/Finalizer/Client/Kept.antt =====
-- client/finalizer/finalizer_client.go: the submissions stay in order whatever is submitted.
use flare_system_client.Prelude.{
  ℕ, ◌<◌, ◌≡◌, ◌⊎◌, refl, sym, ◌∙◌, ap, subst, List, [], ◌∷◌, All, Option, none, some, Go, ok, err,
  panicked, ◌>>=◌, >>=-eq-ok, ok-injective, ℤ, arith, inl, inr, Bool, true, false, Bool-cases, ltb,
  Go-cases, if◌then◌else◌,
}
use flare_system_client.Voters.{word16}
use flare_system_client.Voters.Weights.{sum}
use flare_system_client.Finalizer.Payload.{SubmitterPayloadItem}
use flare_system_client.Finalizer.Policies.{SigningPolicy}
use flare_system_client.Finalizer.Submissions.{SubmissionStorage, AddPayloadResult}
use flare_system_client.Finalizer.Submissions as Submissions
use flare_system_client.Finalizer.Submissions.Kept.{AllKept, add-AllKept}
use flare_system_client.Finalizer.Queue.{add_item}
use flare_system_client.Finalizer.Client.Chosen.{signing_policy_data-All}
use flare_system_client.Finalizer.Client.{
  FinalizerContext, FinalizerState, signing_policy_data, with_policy, check_voting_round_time,
  add_submission, process_item, process_submission_data, Error,
}

abbrev pub IsSmall : SigningPolicy → Type 0
IsSmall sp = sum sp.voters.weights < word16

-- The invariant of the finalizer's storages.
pub record IsInOrder (st : FinalizerState) : Type 0 where
  pub submissions_kept : AllKept st.submissions
  pub policies_small : All IsSmall st.policies

module _ (ctx : FinalizerContext) (now : ℤ) where
  with_policy-cases :
      (st st' : FinalizerState) (item : SubmitterPayloadItem) (policy : Option (SigningPolicy × ℕ))
      → with_policy ctx now st item policy ≡ ok st'
      → (st ≡ st')
        ⊎ ((sp : SigningPolicy) × (t : ℕ) × (policy ≡ some (sp, t))
            × (add_submission ctx now st item sp t ≡ ok st'))
  unfolding with_policy
  with_policy-cases st st' item (some (sp, t)) e = inr (sp, t, refl, e)
  with_policy-cases st st' item none e = inl (ground arith)

  timed-cases :
      (st st' : FinalizerState) (item : SubmitterPayloadItem) (in_time : Bool)
      → elim in_time [
        | false ↦ ok st
        | true ↦
            signing_policy_data ctx now st.policies item.voting_round_id
            >>= with_policy ctx now st item
      ]
        ≡ ok st'
      → (st ≡ st')
        ⊎ ((policy : Option (SigningPolicy × ℕ)) × (signing_policy_data ctx now st.policies
                item.voting_round_id
              ≡ ok policy)
            × (with_policy ctx now st item policy ≡ ok st'))
  timed-cases st st' item false e = inl (ok-injective e)
  timed-cases st st' item true e = inr (
      >>=-eq-ok (signing_policy_data ctx now st.policies item.voting_round_id)
        (with_policy ctx now st item) e)

  -- A round of the loop leaves the state, or adds the submission for a policy of the storage.
  process_item-cases :
      (st st' : FinalizerState) (item : SubmitterPayloadItem)
      → process_item ctx now st item ≡ ok st'
      → (st ≡ st')
        ⊎ ((policy : Option (SigningPolicy × ℕ)) × (signing_policy_data ctx now st.policies
                item.voting_round_id
              ≡ ok policy)
            × (with_policy ctx now st item policy ≡ ok st'))
  unfolding process_item
  process_item-cases st st' item e =
      elim (Bool-cases (ltb item.voting_round_id ctx.starting_voting_round)) [
        | inl before ↦ inl (ground (arith, before))
        | inr started ↦
            let (in_time, timed, e1) =
              >>=-eq-ok (check_voting_round_time ctx now item.voting_round_id) _ {r = st'}
                (rw (started, process_item) at e) in
            timed-cases st st' item in_time e1
      ]

  added_by :
      (st st' : FinalizerState) (item : SubmitterPayloadItem) (sp : SigningPolicy)
      (s : SubmissionStorage) (result : Go Submissions.Error AddPayloadResult)
      → ◌≡◌ {A = Go Error FinalizerState}
          (elim result [
            | panicked ↦ panicked
            | err _ ↦ ok (record st { submissions = s })
            | ok r ↦ ok (record st {
              submissions = s;
              queue = if r.threshold_reached then add_item st.queue item sp.seed else st.queue;
            })
          ])
          (ok st')
      → (st'.policies ≡ st.policies) × (st'.submissions ≡ s)
  added_by st st' item sp s panicked e = absurd (ground arith)
  added_by st st' item sp s (err _) e =
      let same = sym (ok-injective e) in (ap (λ z. z.policies) same, ap (λ z. z.submissions) same)
  added_by st st' item sp s (ok r) e =
      let same = sym (ok-injective e) in (ap (λ z. z.policies) same, ap (λ z. z.submissions) same)

  added :
      (st st' : FinalizerState) (item : SubmitterPayloadItem) (sp : SigningPolicy) (t : ℕ)
      → add_submission ctx now st item sp t ≡ ok st'
      → (st'.policies ≡ st.policies)
        × (st'.submissions ≡ (Submissions.add st.submissions item.payload sp t).0)
  unfolding add_submission
  added st st' item sp t e =
      added_by st st' item sp _ (Submissions.add st.submissions item.payload sp t).1 e

  policy-IsInOrder :
      (st st' : FinalizerState) (item : SubmitterPayloadItem) (policy : Option (SigningPolicy × ℕ))
      → IsInOrder st
      → signing_policy_data ctx now st.policies item.voting_round_id ≡ ok policy
      → with_policy ctx now st item policy ≡ ok st'
      → IsInOrder st'
  policy-IsInOrder st st' item policy h found e = elim (with_policy-cases st st' item policy e) [
    | inl same ↦ subst IsInOrder same h
    | inr (sp, t, which, stored) ↦
        let (policies, submissions) = added st st' item sp t stored in
        let small =
          signing_policy_data-All IsSmall ctx now st.policies item.voting_round_id t sp
            h.policies_small (found ∙ ap ok which) in
        record {
          submissions_kept =
              subst AllKept (sym submissions)
                (add-AllKept st.submissions item.payload sp t h.submissions_kept small);
          policies_small = subst (All IsSmall) (sym policies) h.policies_small;
        }
  ]

  process_item-IsInOrder :
      (st st' : FinalizerState) (item : SubmitterPayloadItem)
      → IsInOrder st
      → process_item ctx now st item ≡ ok st'
      → IsInOrder st'
  process_item-IsInOrder st st' item h e = elim (process_item-cases st st' item e) [
    | inl same ↦ subst IsInOrder same h
    | inr (policy, found, stored) ↦ policy-IsInOrder st st' item policy h found stored
  ]

  -- From a state in which every stored message keeps its books in order, for a policy whose total
  -- weight fits 16 bits, and in which every stored policy's total weight does: whatever is
  -- submitted, and whether it is processed to its end or stops with an error, the state that
  -- `ProcessSubmissionData` leaves is such a state.
  pub process_submission_data-IsInOrder :
      (st : FinalizerState) (items : List SubmitterPayloadItem)
      → IsInOrder st
      → IsInOrder (process_submission_data ctx now st items).0
  unfolding process_submission_data
  process_submission_data-IsInOrder st [] h = h
  process_submission_data-IsInOrder st (item ∷ items) h =
      elim (Go-cases (process_item ctx now st item)) [
        | inl (st', done) ↦
            rw (done, process_submission_data)
              (process_submission_data-IsInOrder st' items
                (process_item-IsInOrder st st' item h done))
        | inr (inl (e, failed)) ↦ rw (failed, process_submission_data) h
        | inr (inr failed) ↦ rw (failed, process_submission_data) h
      ]
