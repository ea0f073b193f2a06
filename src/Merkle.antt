-- ===== src/Merkle.antt =====
-- utils/merkle/merkle.go: Merkle trees in an array, with proofs and their check.
-- A `common.Hash` is the number that its 32 bytes spell, highest byte first. `Hex()` writes all its 64
-- digits, so comparing two of these strings is comparing the numbers. Keccak-256 is a parameter.
pub mod Shape
pub mod Proofs
pub mod Lookup
use flare_system_client.Prelude.{
  ℕ, zero, suc, ◌+◌, ◌-◌, ◌*◌, ◌/◌, ◌%◌, ◌<◌, Bool, ◌&&◌, ◌||◌, List, [], ◌∷◌, ◌++◌, map, foldl,
  Bytes, be_bytes, leb, ltb, ◌==◌, if◌then◌else◌, length, get_elem?, get_or, set, drop, replicate,
  insertion_sort, search, Go, ok, err, panicked, ◌>>=◌, must, ℤ, pos, negsuc,
}
use flare_system_client.Utils.Hex.{bytes_eq}

abbrev pub Hash : Type 0
Hash = ℕ

abbrev pub Tree : Type 0
Tree = List Hash

pub data Error : Type 0 where
  empty_tree invalid_index hash_not_found : Error

-- `h.Bytes()`
abbrev pub hash_bytes : Hash → Bytes
hash_bytes h = be_bytes 32 h

-- The index of the parent node, of a node that is not the root.
unfoldable pub parent : ℕ → ℕ
parent i = (i - 1) / 2

module _ (keccak : Bytes → Hash) where
  unfoldable pub sorted_hash_pair : Hash → Hash → Hash
  sorted_hash_pair x y =
      if leb x y
      then keccak (hash_bytes x ++ hash_bytes y)
      else keccak (hash_bytes y ++ hash_bytes x)

  unfoldable pub map_single_hash : List Hash → List Hash
  map_single_hash hashes = map (λ h. keccak (hash_bytes h)) hashes

  -- `for i := n - 2; i >= 0; i--`, where the first argument is `i + 1`.
  unfoldable pub build_loop : ℕ → Tree → Go Error Tree
  build_loop zero tree = ok tree
  build_loop (suc i) tree = do
    left ← must (get_elem? tree (2 * i + 1))
    right ← must (get_elem? tree (2 * i + 2))
    build_loop i (set tree i (sorted_hash_pair left right))

  -- The array of `n - 1` zero hashes and the leaves; `make` panics at a negative length.
  unfoldable pub build_tree : List Hash → Go Error Tree
  build_tree [] = panicked
  build_tree (h ∷ hs) = build_loop (length hs) (replicate (length hs) 0 ++ (h ∷ hs))

  unfoldable pub build : List Hash → Bool → Go Error Tree
  unfolding build_tree
  build hashes initial_hash =
      build_tree (insertion_sort (if initial_hash then map_single_hash hashes else hashes))

  unfoldable pub verify_proof : Hash → List Hash → Hash → Bool
  verify_proof leaf proof root = foldl (λ hash pair. sorted_hash_pair pair hash) leaf proof == root

-- `New`, and the slice that `Tree` returns.
unfoldable pub new : List Hash → Tree
new values = values

unfoldable pub tree_of : Tree → List Hash
tree_of t = t

-- `NewFromHex` and `BuildFromHex`, on texts. `common.HexToHash` is a parameter.
module _ (hex_to_hash : Bytes → Hash) where
  unfoldable pub new_from_hex : List Bytes → Tree
  new_from_hex hex_values = new (map hex_to_hash hex_values)

  -- The hashes of the texts, where a text equal to the one before it is left out.
  unfoldable pub without_repeats : List Bytes → List Hash
  without_repeats [] = []
  without_repeats (x ∷ []) = hex_to_hash x ∷ []
  without_repeats (x ∷ (y ∷ ys)) =
      let rest = without_repeats (y ∷ ys) in
      hex_to_hash x ∷ (if bytes_eq y x then drop 1 rest else rest)

  unfoldable pub build_from_hex : (Bytes → Hash) → List Bytes → Bool → Go Error Tree
  build_from_hex keccak hex_values initial_hash =
      build keccak (without_repeats hex_values) initial_hash

unfoldable pub root : Tree → Go Error Hash
root [] = err empty_tree
root (h ∷ hs) = ok h

unfoldable pub hash_count : Tree → ℕ
hash_count tree = if length tree == 0 then 0 else (length tree + 1) / 2

unfoldable pub sorted_hashes : Tree → List Hash
unfolding hash_count
sorted_hashes tree = if hash_count tree == 0 then [] else drop (hash_count tree - 1) tree

unfoldable pub get_hash : Tree → ℤ → Go Error Hash
unfolding hash_count
get_hash tree (negsuc k) = err invalid_index
get_hash tree (pos i) =
    if hash_count tree == 0 || leb (hash_count tree) i
    then err invalid_index
    else must (get_elem? tree (length tree - hash_count tree + i))

-- `for pos := …; pos > 0; pos = parent(pos)`. The parent is a smaller index, so `pos` rounds suffice.
unfoldable pub proof_loop : ℕ → Tree → ℕ → Go Error (List Hash)
unfolding parent
proof_loop fuel tree zero = ok []
proof_loop zero tree (suc p) = panicked
proof_loop (suc fuel) tree (suc p) = do
  sibling ← must (get_elem? tree (suc p + 2 * (suc p % 2) - 1))
  rest ← proof_loop fuel tree (parent (suc p))
  ok (sibling ∷ rest)

unfoldable pub get_proof : Tree → ℤ → Go Error (List Hash)
unfolding hash_count proof_loop
get_proof tree (negsuc k) = err invalid_index
get_proof tree (pos i) =
    if hash_count tree == 0 || leb (hash_count tree) i
    then err invalid_index
    else proof_loop (length tree - hash_count tree + i) tree (length tree - hash_count tree + i)

-- The first leaf that is not below `hash`. `sort.Search` calls the test at indices in range only.
unfoldable pub find_leaf : List Hash → Hash → Go Error ℕ
find_leaf leaves hash =
    let i = search (length leaves) (λ k. leb hash (get_or leaves k 0)) in
    if ltb i (length leaves) && get_or leaves i 0 == hash then ok i else err hash_not_found

unfoldable pub binary_search : Tree → Hash → Go Error ℕ
binary_search tree hash = find_leaf (sorted_hashes tree) hash

unfoldable pub get_proof_from_hash : Tree → Hash → Go Error (List Hash)
get_proof_from_hash tree hash = do i ← binary_search tree hash; get_proof tree (pos i)
