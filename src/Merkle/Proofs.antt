-- ===== src/Merkle/Proofs.antt =====
-- utils/merkle/merkle.go: the proofs that `GetProof` returns are accepted by `VerifyProof`.
use mathlib.Core.Logic.{◌⊎◌, inl, inr}
use flare_system_client.Prelude.{
  ℕ, zero, suc, ◌+◌, ◌-◌, ◌*◌, ◌/◌, ◌%◌, ◌≤◌, ◌<◌, ◌≡◌, refl, ◌∙◌, ap, sym, true, List, [], ◌∷◌,
  foldl, Bytes, arith, length, get_or, get_elem?-eq-get_or, ok, pos, ==_iff,
}
use flare_system_client.Merkle.{
  Hash, Tree, sorted_hash_pair, root, hash_count, get_hash, parent, proof_loop, get_proof,
  verify_proof,
}
use flare_system_client.Merkle.Shape.{IsHashedFrom, IsMerkleTree}

parity : (p : ℕ) → (p ≡ 2 * (p / 2)) ⊎ (p ≡ 2 * (p / 2) + 1)
parity p = omega arith

module _ (keccak : Bytes → Hash) where
  -- The order of the arguments does not matter.
  pub sorted_hash_pair_comm :
      (x y : Hash) → sorted_hash_pair keccak x y ≡ sorted_hash_pair keccak y x
  unfolding sorted_hash_pair
  sorted_hash_pair_comm x y = ground arith

  abbrev climb : Hash → List Hash → Hash
  climb leaf proof = foldl (λ hash pair. sorted_hash_pair keccak pair hash) leaf proof

  module _ (t : Tree) (odd : (m : ℕ) × (length t ≡ 2 * m + 1)) (h : IsHashedFrom keccak 0 t) where
    -- A node below the root and its sibling hash to their parent.
    step_up :
        (p : ℕ)
        → suc p < length t
        → (suc p + 2 * (suc p % 2) - 1 < length t)
          × (sorted_hash_pair keccak (get_or t (suc p + 2 * (suc p % 2) - 1) 0) (get_or t (suc p) 0)
              ≡ get_or t (p / 2) 0)
    step_up p in_range = elim (parity p) [
      | inl even ↦
          let sibling : suc p + 2 * (suc p % 2) - 1 ≡ 2 * (p / 2) + 2 = omega arith in
          let here : suc p ≡ 2 * (p / 2) + 1 = omega arith in
          rw (sibling, here)
            (
              omega (arith, odd.1),
              sorted_hash_pair_comm _ _ ∙ sym (h (p / 2) (omega arith) (omega (arith, odd.1))),
            )
      | inr uneven ↦
          let sibling : suc p + 2 * (suc p % 2) - 1 ≡ 2 * (p / 2) + 1 = omega arith in
          let here : suc p ≡ 2 * (p / 2) + 2 = omega arith in
          rw (sibling, here) (omega arith, sym (h (p / 2) (omega arith) (omega arith)))
    ]

    proof_loop-climb :
        (fuel p : ℕ)
        → p ≤ fuel
        → p < length t
        → (proof : List Hash) × (proof_loop fuel t p ≡ ok proof)
          × (climb (get_or t p 0) proof ≡ get_or t 0 0)
    unfolding proof_loop parent
    proof_loop-climb fuel zero le in_range = ([], refl, refl)
    proof_loop-climb zero (suc p) le in_range = absurd (omega arith)
    proof_loop-climb (suc fuel) (suc p) le in_range =
        let (room, up) = step_up p in_range in
        let (rest, e, c) = proof_loop-climb fuel ((suc p - 1) / 2) (omega arith) (omega arith) in
        let back : suc p - 1 ≡ p = omega arith in
        (
          get_or t (suc p + 2 * (suc p % 2) - 1) 0 ∷ rest,
          rw (get_elem?-eq-get_or t (suc p + 2 * (suc p % 2) - 1) 0 room, e),
          ap (λ v. climb v rest) (up ∙ ap (λ q. get_or t (q / 2) 0) (sym back)) ∙ c,
        )

  module _ (leaves : List Hash) (t : Tree) (m : IsMerkleTree keccak leaves t) where
    pub half_size : hash_count t ≡ length leaves
    unfolding hash_count
    half_size = ground (arith, m.size, m.some_leaf)

    module _ (i : ℕ) (in_range : i < length leaves) where
      position : length t - hash_count t + i ≡ length leaves - 1 + i
      position = omega (arith, half_size, m.size)

      at_position : get_or t (length t - hash_count t + i) 0 ≡ get_or leaves i 0
      at_position = ap (λ k. get_or t k 0) position ∙ m.leaf i

      get_hash-leaf : get_hash t (pos i) ≡ ok (get_or leaves i 0)
      unfolding get_hash
      get_hash-leaf = ground (
        arith,
        half_size,
        m.size,
        at_position,
        get_elem?-eq-get_or t (length t - hash_count t + i) 0,
      )

      get_proof-proof_loop :
          get_proof t (pos i)
          ≡ proof_loop (length t - hash_count t + i) t (length t - hash_count t + i)
      unfolding get_proof
      get_proof-proof_loop = ground (arith, half_size)

      climb_to_root :
          (proof : List Hash) × (get_proof t (pos i) ≡ ok proof)
          × (climb (get_or leaves i 0) proof ≡ get_or t 0 0)
      climb_to_root =
          let p = length t - hash_count t + i in
          let (proof, e, c) =
            proof_loop-climb t (length leaves - 1, omega (arith, m.size)) m.hashed p p (omega arith)
              (omega (arith, position, m.size)) in
          (proof, get_proof-proof_loop ∙ e, ap (λ v. climb v proof) (sym at_position) ∙ c)

    root-get_or : root t ≡ ok (get_or t 0 0)
    unfolding root
    root-get_or = first_node t (omega (arith, m.size, m.some_leaf))
      where
        first_node : (u : Tree) → 0 < length u → root u ≡ ok (get_or u 0 0)
        first_node [] h = absurd (omega arith)
        first_node (x ∷ xs) h = refl

    -- For the `i`-th leaf `GetHash` and `GetProof` succeed, and the proof is accepted for that leaf.
    pub verify_proof-get_proof :
        (i : ℕ)
        → i < length leaves
        → (top : Hash) × (proof : List Hash) × (get_hash t (pos i) ≡ ok (get_or leaves i 0))
          × (root t ≡ ok top)
          × (get_proof t (pos i) ≡ ok proof)
          × (verify_proof keccak (get_or leaves i 0) proof top ≡ true)
    unfolding verify_proof
    verify_proof-get_proof i in_range =
        let (proof, e, c) = climb_to_root i in_range in
        (get_or t 0 0, proof, get_hash-leaf i in_range, root-get_or, e, (==_iff _ _).1 c)
