-- ===== src/Examples/Trees.antt =====
-- A tree of three hashes.
use flare_system_client.Prelude.{
  ℕ, ◌<◌, ◌≡◌, ◌≢◌, true, false, List, [], ◌∷◌, Bytes, be_value, length, get_or, Perm, IsSorted, ok,
  err,
}
use flare_system_client.Merkle.{
  Hash, Tree, build, root, get_proof_from_hash, verify_proof, hash_not_found,
}
use flare_system_client.Merkle.Shape.{IsMerkleTree}
use flare_system_client.Merkle.Lookup.{get_proof_from_hash-build}

abbrev toy_hash : Bytes → Hash
toy_hash bytes = be_value bytes 7

abbrev three : List Hash
three = 5 ∷ 1 ∷ 3 ∷ []

three-ne-nil : three ≢ []
three-ne-nil e = cc

get_proof_from_hash-build_example :
    (t : Tree) × (leaves : List Hash) × (build toy_hash three false ≡ ok t)
    × Perm leaves three
    × IsSorted leaves
    × IsMerkleTree toy_hash leaves t
    × ((i : ℕ)
        → i < length leaves
        → (top : Hash) × (proof : List Hash) × (root t ≡ ok top)
          × (get_proof_from_hash t (get_or leaves i 0) ≡ ok proof)
          × (verify_proof toy_hash (get_or leaves i 0) proof top ≡ true))
    × ((h : Hash)
        → ((i : ℕ) → i < length leaves → get_or leaves i 0 ≢ h)
        → get_proof_from_hash t h ≡ err hash_not_found)
get_proof_from_hash-build_example = get_proof_from_hash-build toy_hash three false three-ne-nil
