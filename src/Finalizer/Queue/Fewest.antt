-- ===== src/Finalizer/Queue/Fewest.antt =====
-- client/finalizer/finalizer_queue.go: no smaller choice of signatures would do.
pub mod Split
use flare_system_client.Prelude.{
  ℕ, ◌+◌, ◌-◌, ◌%◌, ◌≤◌, ◌<◌, ◌≡◌, inl, inr, refl, ap, ◌∙◌, subst, Bool, true, List, [], ◌∷◌, ◌++◌,
  Perm, All, all, ltb, ok, length, length-append, length-map, length-perm, map, sum_by, sum_by-perm,
  sum_by-append, arith, Bool-cases,
}
use mathlib.Core.List.Perm
use native.Mathlib.Decide.{dec_lt}
use flare_system_client.Voters.{VoterSet, word16, count}
use flare_system_client.Voters.Weights.{sum}
use flare_system_client.Finalizer.Payload.{SignedPayload}
use flare_system_client.Finalizer.Submissions.{MessageData}
use flare_system_client.Finalizer.Submissions.Counted.{IsCounted}
use flare_system_client.Finalizer.Queue.{
  Weighed, Sorter, SortLaws, IsAscending, present, heavier, earlier, select_greedy, select_payloads,
}
use flare_system_client.Finalizer.Queue.Greedy.{weight_of, weighed}
use flare_system_client.Finalizer.Queue.Selected.{chosen, payloads, sorted, sum_by-weighed}
use flare_system_client.Finalizer.Queue.Enough.{select_payloads_lem, total, total-small}
use flare_system_client.Finalizer.Queue.Fewest.Split.{
  weight, select_greedy-Split, lightness, is_small, all_small, heavier-lightness, front_of,
  front_heaviest,
}

module _ (by_weight : Sorter Weighed) (by_index : Sorter SignedPayload)
    (weight_laws : SortLaws by_weight) (index_laws : SortLaws by_index) (vs : VoterSet) where
  sorted-Perm : (ps : List SignedPayload) → Perm (sorted by_weight vs ps) (map (weighed vs) ps)
  sorted-Perm ps = weight_laws.sort-perm heavier (map (weighed vs) ps)

  sorted-IsAscending :
      (ps : List SignedPayload)
      → sum_by (weight_of vs) ps < word16
      → IsAscending lightness (sorted by_weight vs ps)
  sorted-IsAscending ps fits =
      weight_laws.sort-IsAscending heavier lightness is_small (map (weighed vs) ps)
        (all_small (map (weighed vs) ps) (omega (arith, sum_by-weighed vs ps))) heavier-lightness

  weighed-append :
      (xs ys : List SignedPayload)
      → map (weighed vs) (xs ++ ys) ≡ map (weighed vs) xs ++ map (weighed vs) ys
  weighed-append [] ys = refl
  weighed-append (x ∷ xs) ys = ap (λ l. weighed vs x ∷ l) (weighed-append xs ys)

  length-chosen :
      (t : ℕ) (ps : List SignedPayload)
      → length (chosen by_weight by_index vs t ps)
        ≡ length (select_greedy t 0 (sorted by_weight vs ps))
  length-chosen t ps =
      length-perm
        (index_laws.sort-perm earlier (payloads (select_greedy t 0 (sorted by_weight vs ps))))
      ∙ length-map (select_greedy t 0 (sorted by_weight vs ps)) (λ p. p.1)

  chosen-fewest :
      (t : ℕ) (ps others spare : List SignedPayload)
      → sum_by (weight_of vs) ps < word16
      → Perm (others ++ spare) ps
      → t < sum_by (weight_of vs) others
      → length (chosen by_weight by_index vs t ps) ≤ length others
  chosen-fewest t ps others spare fits perm enough =
      let total = sum_by-perm weight (sorted-Perm ps) ∙ sum_by-weighed vs ps in
      let parts = sum_by-append (weight_of vs) others spare in
      let all_of_it = sum_by-perm (weight_of vs) perm in
      let split =
        select_greedy-Split t 0 (sorted by_weight vs ps) (omega (arith, total)) (omega arith)
          (omega (arith, total, parts, all_of_it)) in
      let small : all is_small (split.front ++ (split.last ∷ split.rest)) ≡ true =
        subst (λ l. all is_small l ≡ true) split.whole
          (all_small (sorted by_weight vs ps) (omega (arith, total))) in
      let (heavy, light) =
        front_of split.front split.rest split.last
          (subst (IsAscending lightness) split.whole (sorted-IsAscending ps fits)) small in
      let same : Perm (map (weighed vs) others ++ map (weighed vs) spare)
          (split.front ++ (split.last ∷ split.rest)) =
        subst (λ l. Perm (map (weighed vs) others ++ map (weighed vs) spare) l) split.whole
          (subst (λ l. Perm l (sorted by_weight vs ps)) (weighed-append others spare)
            (Perm.trans (Perm.map (weighed vs) perm) (Perm.symm (sorted-Perm ps)))) in
      elim (dec_lt (length split.front) (length others)) [
        | yes more ↦ omega (
          arith,
          length-chosen t ps,
          ap length split.taken,
          length-append split.front (split.last ∷ []),
        )
        | no few ↦ absurd (
            omega (
              arith,
              sum_by-weighed vs others,
              length-map others (weighed vs),
              split.under,
              front_heaviest split.front split.rest (map (weighed vs) others)
                  (map (weighed vs) spare) split.last heavy light same
                  (omega (arith, length-map others (weighed vs))),
            ))
      ]

module _ (m : MessageData) (books : IsCounted m)
    (weighted : count m.signing_policy.voters ≤ length m.signing_policy.voters.weights)
    (by_weight : Sorter Weighed) (by_index : Sorter SignedPayload) where
  -- For a message whose books are in order, under a policy with a weight for each voter whose sum fits 16
  -- bits: whichever of the message's payloads weigh more than the policy's threshold, each taken once,
  -- `processItem` selects no more payloads than these.
  pub select_payloads-fewest :
      SortLaws by_weight
      → SortLaws by_index
      → sum m.signing_policy.voters.weights < word16
      → (others spare : List SignedPayload) → Perm (others ++ spare) (present m.payload)
      → m.signing_policy.threshold < sum_by (weight_of m.signing_policy.voters) others
      → (selected : List SignedPayload) × (select_payloads by_weight by_index m ≡ ok selected)
        × (length selected ≤ length others)
  select_payloads-fewest weight_laws index_laws small others spare perm enough = (
    chosen by_weight by_index m.signing_policy.voters m.signing_policy.threshold
        (present m.payload),
    select_payloads_lem m books weighted by_weight by_index,
    chosen-fewest by_weight by_index weight_laws index_laws m.signing_policy.voters
        m.signing_policy.threshold (present m.payload) others spare
        (omega (arith, total m books weighted, total-small m books weighted small)) perm enough,
  )
