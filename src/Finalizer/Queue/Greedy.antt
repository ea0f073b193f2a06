-- ===== src/Finalizer/Queue/Greedy.antt =====
-- client/finalizer/finalizer_queue.go: the loop that selects the signatures to relay.
use flare_system_client.Prelude.{
  ℕ, ◌+◌, ◌%◌, ◌≤◌, ◌<◌, ◌≡◌, inl, inr, refl, ap, sym, Bool, true, false, List, [], ◌∷◌, ◌++◌, ltb,
  ok, be_bytes, ℤ, pos, negsuc, ltb_ℤ, length, get_or, map, all, sum_by, occurrences, arith,
  pos_part, Bool-cases, get_elem?-eq-get_or,
}
use flare_system_client.Voters.{VoterSet, word16, voter_weight}
use flare_system_client.Finalizer.Payload.{SignedPayload, encode_loop, encode_for_relay}
use flare_system_client.Finalizer.Queue.{Weighed, weigh, select_greedy, IsAscending}

-- The place of a payload's signer among the voters.
abbrev pub place : SignedPayload → ℕ
place p = pos_part p.index

abbrev pub has_place : VoterSet → SignedPayload → Bool
has_place vs p = elim p.index [ pos i ↦ ltb i (length vs.weights) | negsuc _ ↦ false ]

abbrev pub weight_of : VoterSet → SignedPayload → ℕ
weight_of vs p = get_or vs.weights (place p) 0

abbrev pub weighed : VoterSet → SignedPayload → Weighed
weighed vs p = (weight_of vs p, p)

voter_weight-has_place :
    (vs : VoterSet) (p : SignedPayload)
    → has_place vs p ≡ true
    → voter_weight vs p.index ≡ ok (weight_of vs p)
unfolding voter_weight
voter_weight-has_place vs p h = ground (arith, get_elem?-eq-get_or vs.weights (place p) 0)

pub weigh-has_place :
    (vs : VoterSet) (ps : List SignedPayload)
    → all (has_place vs) ps ≡ true
    → weigh vs ps ≡ ok (map (weighed vs) ps)
unfolding weigh
weigh-has_place vs [] h = refl
weigh-has_place vs (p ∷ ps) h =
    rw (voter_weight-has_place vs p (ground arith), weigh-has_place vs ps (ground arith)) refl

-- The selection is the beginning of the list.
pub select_greedy-prefix :
    (t w : ℕ) (xs : List Weighed) → (rest : List Weighed) × (select_greedy t w xs ++ rest ≡ xs)
unfolding select_greedy
select_greedy-prefix t w [] = ([], refl)
select_greedy-prefix t w ((v, p) ∷ xs) = elim (Bool-cases (ltb t ((w + v) % word16))) [
  | inl e ↦ (xs, rw (e, select_greedy) refl)
  | inr e ↦
      let (rest, same) = select_greedy-prefix t ((w + v) % word16) xs in
      (rest, rw (e, select_greedy) (ap (λ l. (v, p) ∷ l) same))
]

-- If all of the list weighs more than the threshold, and fits 16 bits, the selection does too.
pub select_greedy-Enough :
    (t w : ℕ) (xs : List Weighed)
    → w + sum_by (λ x. x.0) xs < word16
    → t < w + sum_by (λ x. x.0) xs
    → t < w + sum_by (λ x. x.0) (select_greedy t w xs)
unfolding select_greedy
select_greedy-Enough t w [] fits h = h
select_greedy-Enough t w ((v, p) ∷ xs) fits h = elim (Bool-cases (ltb t ((w + v) % word16))) [
  | inl e ↦ rw (e, select_greedy) (ground (arith, e))
  | inr e ↦
      let small : (w + v) % word16 ≡ w + v = omega arith in
      let more =
        select_greedy-Enough t ((w + v) % word16) xs (rw small (omega arith))
          (rw small (omega arith)) in
      rw (e, select_greedy) (omega (arith, more, small))
]

-- Payloads that have places, in strictly ascending order, are encoded.
abbrev Follows : ℤ → List SignedPayload → Type 0
Follows prev [] = Unit {0}
Follows prev (p ∷ ps) = ltb_ℤ prev p.index ≡ true

has_place-index :
    (vs : VoterSet) (p : SignedPayload) → has_place vs p ≡ true → p.index ≡ pos (place p)
has_place-index vs p h = ground arith

encode_loop_at :
    (prev : ℤ) (p : SignedPayload) (ps : List SignedPayload) (i : ℕ) (rest : List ℕ)
    → p.index ≡ pos i
    → ltb_ℤ prev (pos i) ≡ true
    → encode_loop (pos i) ps ≡ ok rest
    → encode_loop prev (p ∷ ps) ≡ ok (p.signature ++ (be_bytes 2 (i % 65536) ++ rest))
unfolding encode_loop
encode_loop_at prev p ps i rest e follows r = ground (arith, follows, e, r)

encode_loop_step :
    (prev : ℤ) (p : SignedPayload) (ps : List SignedPayload) (i : ℕ)
    → p.index ≡ pos i
    → ltb_ℤ prev p.index ≡ true
    → (bytes : List ℕ) × (encode_loop p.index ps ≡ ok bytes)
    → (bytes : List ℕ) × (encode_loop prev (p ∷ ps) ≡ ok bytes)
encode_loop_step prev p ps i e follows (rest, r) = (
  p.signature ++ (be_bytes 2 (i % 65536) ++ rest),
  encode_loop_at prev p ps i rest e (ground (arith, follows, e)) (rw (sym e) r),
)

Follows-strict :
    (vs : VoterSet) (p : SignedPayload) (ps : List SignedPayload)
    → all (has_place vs) (p ∷ ps) ≡ true
    → IsAscending place (p ∷ ps)
    → ((k : ℕ) → occurrences place k (p ∷ ps) ≤ 1)
    → Follows p.index ps
Follows-strict vs p [] h asc once = tt
Follows-strict vs p (q ∷ qs) h asc once = ground (arith, once (place p), asc.0.0)

encode_loop-strict :
    (vs : VoterSet) (prev : ℤ) (ps : List SignedPayload)
    → all (has_place vs) ps ≡ true
    → IsAscending place ps
    → ((k : ℕ) → occurrences place k ps ≤ 1)
    → Follows prev ps
    → (bytes : List ℕ) × (encode_loop prev ps ≡ ok bytes)
unfolding encode_loop
encode_loop-strict vs prev [] h asc once follows = ([], refl)
encode_loop-strict vs prev (p ∷ ps) h asc once follows =
    encode_loop_step prev p ps (place p) (has_place-index vs p (ground arith)) follows (
      encode_loop-strict vs p.index ps (ground arith) asc.1 (λ k. ground (arith, once k))
        (Follows-strict vs p ps h asc once))

Follows-start :
    (vs : VoterSet) (ps : List SignedPayload) → all (has_place vs) ps ≡ true → Follows (negsuc 0) ps
Follows-start vs [] h = tt
Follows-start vs (p ∷ ps) h = ground (arith, has_place-index vs p (ground arith))

pub encode_for_relay-strict :
    (vs : VoterSet) (ps : List SignedPayload)
    → all (has_place vs) ps ≡ true
    → IsAscending place ps
    → ((k : ℕ) → occurrences place k ps ≤ 1)
    → length ps ≤ 65535
    → (bytes : List ℕ) × (encode_for_relay ps ≡ ok bytes)
unfolding encode_for_relay
encode_for_relay-strict vs ps h asc once few =
    let (rest, r) = encode_loop-strict vs (negsuc 0) ps h asc once (Follows-start vs ps h) in
    (be_bytes 2 (length ps) ++ rest, ground (arith, r, few))
