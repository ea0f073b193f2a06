-- ===== src/Finalizer/Queue/Enough.antt =====
-- client/finalizer/finalizer_queue.go: the signatures that `processItem` relays suffice.
use flare_system_client.Prelude.{
  ◌≤◌, ◌<◌, ◌≡◌, refl, ap, sym, ◌∙◌, subst, true, List, ◌++◌, Perm, ok, length, get_or, pos, all,
  sum_by, arith, Bytes,
}
use flare_system_client.Voters.{word16, count}
use flare_system_client.Voters.Weights.{sum}
use flare_system_client.Finalizer.Payload.{SignedPayload, encode_for_relay}
use flare_system_client.Finalizer.Submissions.{MessageData}
use flare_system_client.Finalizer.Submissions.Counted.{IsCounted, filled_weight-le}
use flare_system_client.Finalizer.Queue.{Weighed, Sorter, SortLaws, present, select_payloads}
use flare_system_client.Finalizer.Queue.Greedy.{has_place, weight_of, weigh-has_place}
use flare_system_client.Finalizer.Queue.Selected.{
  Placed, Placed-at, present-occurrences, present-has_place, present-weight, present-length, chosen,
  chosen-perm, chosen-weight, chosen-encoded,
}

module _ (m : MessageData) (books : IsCounted m)
    (weighted : count m.signing_policy.voters ≤ length m.signing_policy.voters.weights) where
  placed : Placed 0 m.payload
  placed =
      Placed-at 0 m.payload
        (λ i p e. subst (λ n. p.index ≡ pos n) (omega arith) (books.placed i p e).0)

  has_places : all (has_place m.signing_policy.voters) (present m.payload) ≡ true
  has_places =
      present-has_place m.signing_policy.voters 0 m.payload placed
        (omega (arith, books.places, weighted))

  pub total : sum_by (weight_of m.signing_policy.voters) (present m.payload) ≡ m.weight
  total =
      present-weight m.signing_policy.voters 0 m.payload m.signing_policy.voters.weights placed
        (λ i. ap (λ n. get_or m.signing_policy.voters.weights n 0) (omega arith))
        (omega (arith, books.places, weighted))
      ∙ sym books.counted

  pub total-small : sum m.signing_policy.voters.weights < word16 → m.weight < word16
  total-small small =
      omega (arith, books.counted, filled_weight-le m.payload m.signing_policy.voters.weights)

  module _ (by_weight : Sorter Weighed) (by_index : Sorter SignedPayload) where
    pub select_payloads_lem :
        select_payloads by_weight by_index m
        ≡ ok (
            chosen by_weight by_index m.signing_policy.voters m.signing_policy.threshold
              (present m.payload))
    unfolding select_payloads
    select_payloads_lem =
        rw (weigh-has_place m.signing_policy.voters (present m.payload) has_places) refl

    -- For a message whose books are in order and which weighs more than its policy's threshold, under a
    -- policy with a weight for each of at most 65535 voters whose sum fits 16 bits: `processItem` selects
    -- some of the message's payloads, each at most once; together they weigh more than the threshold, and
    -- `EncodeForRelay` encodes them without an error.
    pub select_payloads-Enough :
        SortLaws by_weight
        → SortLaws by_index
        → sum m.signing_policy.voters.weights < word16
        → count m.signing_policy.voters ≤ 65535
        → m.signing_policy.threshold < m.weight
        → (selected : List SignedPayload) × (rest : List SignedPayload) × (bytes : Bytes)
          × (select_payloads by_weight by_index m ≡ ok selected)
          × Perm (selected ++ rest) (present m.payload)
          × (m.signing_policy.threshold < sum_by (weight_of m.signing_policy.voters) selected)
          × (encode_for_relay selected ≡ ok bytes)
    select_payloads-Enough weight_laws index_laws small few enough =
        let t = m.signing_policy.threshold in
        let vs = m.signing_policy.voters in
        let ps = present m.payload in
        let (rest, perm) = chosen-perm by_weight by_index weight_laws index_laws vs t ps in
        let (bytes, encoded) =
          chosen-encoded by_weight by_index weight_laws index_laws vs t ps has_places
            (λ k. (present-occurrences 0 k m.payload placed).0)
            (omega (arith, present-length m.payload, books.places, few)) in
        (
          chosen by_weight by_index vs t ps,
          rest,
          bytes,
          select_payloads_lem,
          perm,
          chosen-weight by_weight by_index weight_laws index_laws vs t ps
              (omega (arith, total, total-small small)) (omega (arith, total)),
          encoded,
        )
