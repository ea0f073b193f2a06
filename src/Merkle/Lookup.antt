-- ===== src/Merkle/Lookup.antt =====
-- utils/merkle/merkle.go: `GetProofFromHash` on a tree that `Build` returned.
use flare_system_client.Prelude.{
  ℕ, ◌-◌, ◌≤◌, ◌<◌, ◌≡◌, ◌≢◌, ◌∙◌, sym, Bool, true, List, [], Bytes, arith, length, get_or,
  get_or-drop, length-drop, drop, Perm, IsSorted, search, Splits, search-Splits, IsMonotone, leb,
  if◌then◌else◌, ok, err,
}
use flare_system_client.Merkle.{
  Hash, Tree, hash_not_found, root, sorted_hashes, find_leaf, binary_search, get_proof_from_hash,
  verify_proof, build, map_single_hash,
}
use flare_system_client.Merkle.Shape.{IsMerkleTree, build-IsMerkleTree}
use flare_system_client.Merkle.Proofs.{half_size, verify_proof-get_proof}

module _ (ls : List Hash) (sorted : IsSorted ls) (h : Hash) where
  abbrev not_below : ℕ → Bool
  not_below k = leb h (get_or ls k 0)

  not_below_mono : IsMonotone (length ls) not_below
  not_below_mono i j le in_range e = ground (arith, sorted i j)

  -- Where the search stops.
  stop : Splits (length ls) not_below (search (length ls) not_below)
  stop = search-Splits (length ls) not_below not_below_mono

  find_leaf_hit :
      (i : ℕ)
      → i < length ls
      → get_or ls i 0 ≡ h
      → (j : ℕ) × (find_leaf ls h ≡ ok j) × (j < length ls) × (get_or ls j 0 ≡ h)
  unfolding find_leaf
  find_leaf_hit i in_range e =
      let j = search (length ls) not_below in
      let s : j ≤ i = ground (arith, stop.1 i) in
      let c : get_or ls j 0 ≡ h = ground (arith, stop.2 j, sorted j i) in
      (j, ground arith, omega arith, c)

  find_leaf_miss :
      ((i : ℕ) → i < length ls → get_or ls i 0 ≢ h) → find_leaf ls h ≡ err hash_not_found
  unfolding find_leaf
  find_leaf_miss absent = ground (arith, absent (search (length ls) not_below))

module _ (keccak : Bytes → Hash) (leaves : List Hash) (t : Tree)
    (m : IsMerkleTree keccak leaves t) where
  sorted_hashes-drop : sorted_hashes t ≡ drop (length leaves - 1) t
  unfolding sorted_hashes
  sorted_hashes-drop = rw (half_size keccak leaves t m) (ground arith)

  length-sorted_hashes : length (sorted_hashes t) ≡ length leaves
  length-sorted_hashes =
      rw sorted_hashes-drop (omega (arith, length-drop (length leaves - 1) t, m.size))

  sorted_hashes-get_or : (k : ℕ) → get_or (sorted_hashes t) k 0 ≡ get_or leaves k 0
  sorted_hashes-get_or k = rw sorted_hashes-drop (get_or-drop (length leaves - 1) t k 0 ∙ m.leaf k)

  module _ (sorted : IsSorted leaves) where
    sorted_hashes-IsSorted : IsSorted (sorted_hashes t)
    sorted_hashes-IsSorted i j le in_range =
        rw (sorted_hashes-get_or i, sorted_hashes-get_or j)
          (sorted i j le (omega (arith, length-sorted_hashes)))

    -- A leaf's proof is found by its hash, and is accepted.
    get_proof_from_hash_hit :
        (i : ℕ)
        → i < length leaves
        → (top : Hash) × (proof : List Hash) × (root t ≡ ok top)
          × (get_proof_from_hash t (get_or leaves i 0) ≡ ok proof)
          × (verify_proof keccak (get_or leaves i 0) proof top ≡ true)
    unfolding get_proof_from_hash binary_search
    get_proof_from_hash_hit i in_range =
        let (j, e, lt, at) =
          find_leaf_hit (sorted_hashes t) sorted_hashes-IsSorted (get_or leaves i 0) i
            (omega (arith, length-sorted_hashes)) (sorted_hashes-get_or i) in
        let same : get_or leaves j 0 ≡ get_or leaves i 0 = sym (sorted_hashes-get_or j) ∙ at in
        let (top, proof, got, top_e, proof_e, accepted) =
          verify_proof-get_proof keccak leaves t m j (omega (arith, length-sorted_hashes)) in
        (top, proof, top_e, rw e proof_e, rw same at accepted)

    get_proof_from_hash_miss :
        (h : Hash)
        → ((i : ℕ) → i < length leaves → get_or leaves i 0 ≢ h)
        → get_proof_from_hash t h ≡ err hash_not_found
    unfolding get_proof_from_hash binary_search
    get_proof_from_hash_miss h absent = rw (
        find_leaf_miss (sorted_hashes t) sorted_hashes-IsSorted h (λ i in_range e.
          absent i (omega (arith, length-sorted_hashes)) (sym (sorted_hashes-get_or i) ∙ e)))

module _ (keccak : Bytes → Hash) where
  -- On a non-empty list `Build` returns a Merkle tree over leaves that are the hashes (hashed once more
  -- when `initialHash` is set) in ascending order. `GetProofFromHash` returns, for each leaf, a proof that
  -- `VerifyProof` accepts against the tree's root, and for any other hash the error `hash not found`.
  pub get_proof_from_hash-build :
      (hashes : List Hash) (initial_hash : Bool)
      → hashes ≢ []
      → (t : Tree) × (leaves : List Hash) × (build keccak hashes initial_hash ≡ ok t)
        × Perm leaves (if initial_hash then map_single_hash keccak hashes else hashes)
        × IsSorted leaves
        × IsMerkleTree keccak leaves t
        × ((i : ℕ)
            → i < length leaves
            → (top : Hash) × (proof : List Hash) × (root t ≡ ok top)
              × (get_proof_from_hash t (get_or leaves i 0) ≡ ok proof)
              × (verify_proof keccak (get_or leaves i 0) proof top ≡ true))
        × ((h : Hash)
            → ((i : ℕ) → i < length leaves → get_or leaves i 0 ≢ h)
            → get_proof_from_hash t h ≡ err hash_not_found)
  get_proof_from_hash-build hashes initial_hash ne =
      let (t, leaves, e, p, s, m) = build-IsMerkleTree keccak hashes initial_hash ne in
      (
        t,
        leaves,
        e,
        p,
        s,
        m,
        λ i. get_proof_from_hash_hit keccak leaves t m s i,
        λ h. get_proof_from_hash_miss keccak leaves t m s h,
      )
