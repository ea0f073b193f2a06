-- ===== src/Finalizer/Submissions/Message.antt =====
-- client/finalizer/submission_storage.go: adding a payload to a message.
use flare_system_client.Prelude.{
  ℕ, ◌≤◌, ◌<◌, ◌≡◌, ◌≢◌, ◌⊎◌, refl, ◌∙◌, ap, sym, List, arith, length, get_elem?, get_elem?-lt,
  get_elem?-none, get_elem?-set_self, inl, inr, none, some, Option-cases, ok, err, panicked, ℤ, pos,
  negsuc, subst, ok-injective,
}
use flare_system_client.Finalizer.Payload.{SignedPayload}
use flare_system_client.Finalizer.Submissions.{
  signer_not_registered, MessageData, put_payload, add_payload,
}
use flare_system_client.Voters.{Address, word16, voter_index, count}
use flare_system_client.Voters.Weights.{sum}
use flare_system_client.Voters.Made.{IsVoterSet, voter_index_sound, voter_index_none}
use flare_system_client.Finalizer.Submissions.Counted.{IsCounted, put_payload-IsCounted, grows}

-- The ways in which `addPayload` ends.
pub data Outcome (m : MessageData) (p : SignedPayload) (threshold : ℕ) : Type 0 where
  refused :
      (k : ℕ)
      → voter_index m.signing_policy.voters p.signer ≡ negsuc k
      → add_payload m p threshold ≡ err signer_not_registered
      → Outcome m p threshold
  repeated :
      (i : ℕ) (q : SignedPayload)
      → voter_index m.signing_policy.voters p.signer ≡ pos i
      → get_elem? m.payload i ≡ some (some q)
      → add_payload m p threshold ≡ ok m
      → Outcome m p threshold
  stored :
      (i w : ℕ)
      → voter_index m.signing_policy.voters p.signer ≡ pos i
      → get_elem? m.payload i ≡ some none
      → get_elem? m.signing_policy.voters.weights i ≡ some w
      → add_payload m p threshold ≡ ok (put_payload m i p w threshold)
      → Outcome m p threshold
  out_of_range :
      (i : ℕ)
      → voter_index m.signing_policy.voters p.signer ≡ pos i
      → (get_elem? m.payload i ≡ none) ⊎ (get_elem? m.signing_policy.voters.weights i ≡ none)
      → add_payload m p threshold ≡ panicked
      → Outcome m p threshold

ℤ-cases : (n : ℤ) → ((i : ℕ) × (n ≡ pos i)) ⊎ ((k : ℕ) × (n ≡ negsuc k))
ℤ-cases (pos i) = inl (i, refl)
ℤ-cases (negsuc k) = inr (k, refl)

pub outcome : (m : MessageData) (p : SignedPayload) (threshold : ℕ) → Outcome m p threshold
unfolding add_payload
outcome m p threshold = elim (ℤ-cases (voter_index m.signing_policy.voters p.signer)) [
  | inr (k, e) ↦ refused k e (rw (e, add_payload))
  | inl (i, e) ↦ elim (Option-cases (get_elem? m.payload i)) [
    | inl gone ↦ out_of_range i e (inl gone) (ground (arith, e, gone))
    | inr (some q, there) ↦ repeated i q e there (ground (arith, e, there))
    | inr (none, empty) ↦ elim (Option-cases (get_elem? m.signing_policy.voters.weights i)) [
      | inl gone ↦ out_of_range i e (inr gone) (ground (arith, e, empty, gone))
      | inr (w, weight) ↦ stored i w e empty weight (ground (arith, e, empty, weight))
    ]
  ]
]

-- Whatever `addPayload` accepts keeps the message's books in order: with a total weight that fits 16
-- bits, the message's weight is that of the voters whose payload is there, each counted once.
pub add_payload-IsCounted :
    (m : MessageData) (p : SignedPayload) (threshold : ℕ) (m' : MessageData)
    → IsCounted m
    → sum m.signing_policy.voters.weights < word16
    → add_payload m p threshold ≡ ok m'
    → IsCounted m'
add_payload-IsCounted m p threshold m' h small e = elim (outcome m p threshold) [
  | refused k _ r ↦ absurd (ground (arith, r))
  | repeated i q _ _ r ↦ subst IsCounted (ok-injective (sym r ∙ e)) h
  | stored i w at empty weight r ↦
      subst IsCounted (ok-injective (sym r ∙ e))
        (put_payload-IsCounted m p i w threshold h small at empty weight)
  | out_of_range i _ _ r ↦ absurd (ground (arith, r))
]

add_payload_present :
    (m : MessageData) (p : SignedPayload) (threshold i : ℕ) (q : SignedPayload)
    → voter_index m.signing_policy.voters p.signer ≡ pos i
    → get_elem? m.payload i ≡ some (some q)
    → add_payload m p threshold ≡ ok m
unfolding add_payload
add_payload_present m p threshold i q at there = ground (arith, at, there)

put_payload_there :
    (m : MessageData) (p : SignedPayload) (i w threshold : ℕ)
    → get_elem? m.payload i ≡ some none
    → get_elem? (put_payload m i p w threshold).payload i ≡ some (some (record p { index = pos i }))
unfolding put_payload
put_payload_there m p i w threshold empty =
    get_elem?-set_self m.payload i _ (get_elem?-lt m.payload i empty)

stored_index :
    (m : MessageData) (p : SignedPayload) (i w threshold : ℕ) (q : SignedPayload)
    → voter_index m.signing_policy.voters p.signer ≡ pos i
    → q.signer ≡ p.signer
    → voter_index (put_payload m i p w threshold).signing_policy.voters q.signer ≡ pos i
unfolding put_payload
stored_index m p i w threshold q at same = rw same at

-- After `addPayload` accepted a payload, a payload of the same signer leaves the message as it is,
-- whatever the two thresholds are.
pub add_payload_twice :
    (m : MessageData) (p q : SignedPayload) (s t : ℕ) (m' : MessageData)
    → add_payload m p s ≡ ok m'
    → q.signer ≡ p.signer
    → add_payload m' q t ≡ ok m'
add_payload_twice m p q s t m' e same = elim (outcome m p s) [
  | refused k _ r ↦ absurd (ground (arith, r))
  | out_of_range i _ _ r ↦ absurd (ground (arith, r))
  | repeated i x at there r ↦
      subst (λ n. add_payload n q t ≡ ok n) (ok-injective (sym r ∙ e))
        (add_payload_present m q t i x (rw same at) there)
  | stored i w at empty weight r ↦
      subst (λ n. add_payload n q t ≡ ok n) (ok-injective (sym r ∙ e))
        (add_payload_present (put_payload m i p w s) q t i (record p { index = pos i })
          (stored_index m p i w s q at same) (put_payload_there m p i w s empty))
]

module _ (voters : List Address) (weights : List ℕ) (fits : length voters ≤ length weights)
    (small : sum weights < word16) where
  beyond :
      (m : MessageData)
      → IsVoterSet voters weights m.signing_policy.voters
      → IsCounted m
      → (i : ℕ) → i < length voters
      → (get_elem? m.payload i ≡ none) ⊎ (get_elem? m.signing_policy.voters.weights i ≡ none)
      → ⊥
  unfolding count
  beyond m made h i lt (inl gone) = omega (
    arith,
    get_elem?-none m.payload i gone,
    h.places,
    ap (λ (l : List Address). length l) made.same_voters,
  )
  beyond m made h i lt (inr gone) = omega (
    arith,
    get_elem?-none m.signing_policy.voters.weights i gone,
    ap (λ (l : List ℕ). length l) made.same_weights,
  )

  -- On a message whose books are in order, under a policy whose voter set is the one of given
  -- voters and weights, with a weight for each voter and a sum that fits 16 bits, `addPayload`
  -- never panics. It refuses a payload exactly if its signer is not among the voters. Otherwise
  -- the books stay in order, the signer's place holds a payload, and the message's weight is not
  -- lower.
  pub add_payload_total :
      (m : MessageData) (p : SignedPayload) (threshold : ℕ)
      → IsVoterSet voters weights m.signing_policy.voters
      → IsCounted m
      → (((j : ℕ) → get_elem? voters j ≢ some p.signer)
          × (add_payload m p threshold ≡ err signer_not_registered))
        ⊎ ((m' : MessageData) × (i : ℕ) × (q : SignedPayload) × (add_payload m p threshold ≡ ok m')
            × IsCounted m'
            × (get_elem? voters i ≡ some p.signer)
            × (get_elem? m'.payload i ≡ some (some q))
            × (m.weight ≤ m'.weight))
  add_payload_total m p threshold made h = elim (outcome m p threshold) [
    | refused k at r ↦
        inl (voter_index_none voters weights m.signing_policy.voters made p.signer k at, r)
    | repeated i q at there r ↦ inr (
      m,
      i,
      q,
      r,
      h,
      voter_index_sound voters weights m.signing_policy.voters made p.signer i at,
      there,
      omega arith,
    )
    | stored i w at empty weight r ↦
        let fits16 : sum m.signing_policy.voters.weights < word16 = rw made.same_weights small in
        let h' = put_payload-IsCounted m p i w threshold h fits16 at empty weight in
        inr (
          put_payload m i p w threshold,
          i,
          record p { index = pos i },
          r,
          h',
          voter_index_sound voters weights m.signing_policy.voters made p.signer i at,
          put_payload_there m p i w threshold empty,
          grows m p i w threshold h fits16 empty weight,
        )
    | out_of_range i at gone r ↦
        let found = voter_index_sound voters weights m.signing_policy.voters made p.signer i at in
        let in_range = get_elem?-lt voters i found in absurd (beyond m made h i in_range gone)
  ]
