-- ===== src/Merkle/Shape.antt =====
-- utils/merkle/merkle.go: what `Build` leaves in the array.
use native.Mathlib.Decide.{ℕ_discrete}
use flare_system_client.Prelude.{
  ℕ, zero, suc, ◌+◌, ◌-◌, ◌*◌, ◌≤◌, ◌<◌, ◌≡◌, refl, ◌∙◌, ap, Bool, List, [], ◌∷◌, ◌++◌, Bytes,
  arith, length, get_or, set, replicate, length-replicate, length-append, length-set,
  get_elem?-eq-get_or, get_or-set_self, get_or-set_ne, get_or-append_right, insertion_sort,
  IsSorted, insertion_sort-IsSorted, insertion_sort-perm, length-insertion_sort, Perm, ok,
  if◌then◌else◌, ◌≢◌, sym, true, false,
}
use flare_system_client.Merkle.{
  Hash, Tree, sorted_hash_pair, map_single_hash, build_loop, build_tree, build,
}

insertion_sort-ne-nil : (xs : List ℕ) → xs ≢ [] → insertion_sort xs ≢ []
insertion_sort-ne-nil [] ne = absurd (ne refl)
insertion_sort-ne-nil (x ∷ xs) ne =
    λ e. absurd (omega (arith, length-insertion_sort (x ∷ xs), ap (λ (l : List ℕ). length l) e))

module _ (keccak : Bytes → Hash) where
  -- From index `k` on, each node with two children holds the hash of the pair.
  abbrev pub IsHashedFrom : ℕ → Tree → Type 0
  IsHashedFrom k t =
      (i : ℕ)
      → k ≤ i
      → 2 * i + 2 < length t
      → get_or t i 0 ≡ sorted_hash_pair keccak (get_or t (2 * i + 1) 0) (get_or t (2 * i + 2) 0)

  -- The loop ends without a panic, keeps the nodes from `i` on and hashes those below.
  record Built (i : ℕ) (tree t : Tree) : Type 0 where
    same_length : length t ≡ length tree
    kept : (k : ℕ) → i ≤ k → get_or t k 0 ≡ get_or tree k 0
    hashed : IsHashedFrom 0 t

  set-IsHashedFrom :
      (i : ℕ) (tree : Tree)
      → 2 * i + 2 < length tree
      → IsHashedFrom (suc i) tree
      → IsHashedFrom i (
          set tree i
            (sorted_hash_pair keccak (get_or tree (2 * i + 1) 0) (get_or tree (2 * i + 2) 0)))
  set-IsHashedFrom i tree room h j le in_range =
      rw
        (
          get_or-set_ne tree i (2 * j + 1) _ 0 (omega arith),
          get_or-set_ne tree i (2 * j + 2) _ 0 (omega arith),
        )
        (elim (ℕ_discrete j i) [
          | yes e ↦ rw e (get_or-set_self tree i _ 0 (omega arith))
          | no ne ↦
              get_or-set_ne tree i j _ 0 (λ e. ne (sym e))
              ∙ h j (omega arith) (rw length-set at in_range)
        ])

  build_loop-Built :
      (i : ℕ) (tree : Tree)
      → 2 * i < length tree
      → IsHashedFrom i tree
      → (t : Tree) × (build_loop keccak i tree ≡ ok t) × Built i tree t
  unfolding build_loop
  build_loop-Built zero tree room h =
      (tree, refl, record { same_length = refl; kept = λ k p. refl; hashed = h })
  build_loop-Built (suc i) tree room h =
      let v = sorted_hash_pair keccak (get_or tree (2 * i + 1) 0) (get_or tree (2 * i + 2) 0) in
      let (t, e, b) =
        build_loop-Built i (set tree i v) (rw length-set (omega arith))
          (set-IsHashedFrom i tree (omega arith) h) in
      (
        t,
        rw
            (
              get_elem?-eq-get_or tree (2 * i + 1) 0 (omega arith),
              get_elem?-eq-get_or tree (2 * i + 2) 0 (omega arith),
            )
            e,
        record {
          same_length = b.same_length ∙ length-set tree i v;
          kept = λ k p. b.kept k (omega arith) ∙ get_or-set_ne tree i k v 0 (omega arith);
          hashed = b.hashed;
        },
      )

  -- An array of the leaves behind as many inner nodes, less one, each the hash of its two children.
  pub record IsMerkleTree (leaves : List Hash) (t : Tree) : Type 0 where
    pub some_leaf : 0 < length leaves
    pub size : length t + 1 ≡ 2 * length leaves
    pub leaf : (k : ℕ) → get_or t (length leaves - 1 + k) 0 ≡ get_or leaves k 0
    pub hashed : IsHashedFrom 0 t

  pub build_tree-IsMerkleTree :
      (leaves : List Hash)
      → leaves ≢ []
      → (t : Tree) × (build_tree keccak leaves ≡ ok t) × IsMerkleTree leaves t
  unfolding build_tree
  build_tree-IsMerkleTree [] ne = absurd (ne refl)
  build_tree-IsMerkleTree (h ∷ hs) ne =
      let n = length hs in
      let start = replicate n 0 ++ (h ∷ hs) in
      let size : length start ≡ 2 * n + 1 =
        rw length-append (omega (arith, length-replicate n (zero))) in
      let (t, e, b) = build_loop-Built n start (omega arith) (λ i p q. absurd (omega arith)) in
      (
        t,
        e,
        record {
          some_leaf = omega arith;
          size = omega (arith, b.same_length);
          leaf = λ k.
              let at_leaf : length (h ∷ hs) - 1 + k ≡ length (replicate n 0) + k =
                omega (arith, length-replicate n (zero)) in
              ap (λ i. get_or t i 0) at_leaf
              ∙ b.kept (length (replicate n 0) + k) (omega (arith, length-replicate n (zero)))
              ∙ get_or-append_right (replicate n 0) (h ∷ hs) k 0;
          hashed = b.hashed;
        },
      )

  leaves-ne-nil :
      (initial_hash : Bool) (hashes : List Hash)
      → hashes ≢ []
      → (if initial_hash then map_single_hash keccak hashes else hashes) ≢ []
  unfolding map_single_hash
  leaves-ne-nil false hashes ne = ne
  leaves-ne-nil true [] ne = absurd (ne refl)
  leaves-ne-nil true (h ∷ hs) ne = λ e. cc

  pub build-IsMerkleTree :
      (hashes : List Hash) (initial_hash : Bool)
      → hashes ≢ []
      → (t : Tree) × (leaves : List Hash) × (build keccak hashes initial_hash ≡ ok t)
        × Perm leaves (if initial_hash then map_single_hash keccak hashes else hashes)
        × IsSorted leaves
        × IsMerkleTree leaves t
  unfolding build map_single_hash
  build-IsMerkleTree hashes initial_hash ne =
      let leaves =
        insertion_sort (if initial_hash then map_single_hash keccak hashes else hashes) in
      let (t, e, m) =
        build_tree-IsMerkleTree leaves
          (insertion_sort-ne-nil _ (leaves-ne-nil initial_hash hashes ne)) in
      (t, leaves, e, insertion_sort-perm _, insertion_sort-IsSorted _, m)
