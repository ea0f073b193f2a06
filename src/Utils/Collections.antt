-- ===== src/Utils/Collections.antt =====
-- utils/cache.go, utils/math.go and utils/structures.go: a cache, the intersection of intervals, and
-- helpers on slices and maps. A Go map is a function into options.
pub mod Removed
use flare_system_client.Prelude.{
  ℕ, Bool, true, false, List, [], ◌∷◌, ◌++◌, Option, none, some, if◌then◌else◌, ltb, suc, ◌==◌, Go,
  ok, or_err, ◌>>=◌, map,
}

unfoldable pub max_of : ℕ → ℕ → ℕ
max_of a b = if ltb a b then b else a

unfoldable pub min_of : ℕ → ℕ → ℕ
min_of a b = if ltb b a then b else a

unfoldable pub interval_intersection : ℕ → ℕ → ℕ → ℕ → ℕ × ℕ
interval_intersection a1 a2 b1 b2 = (max_of a1 b1, min_of a2 b2)

-- Keys with a test of equality.
module _ {K V : Type 0} (eq : K → K → Bool) where
  unfoldable pub put_key : (K → Option V) → K → V → K → Option V
  put_key m k v j = if eq j k then some v else m j

  unfoldable pub delete_key : (K → Option V) → K → K → Option V
  delete_key m k j = if eq j k then none else m j

  -- `ArrayToMap`, on the map that the elements before left.
  unfoldable pub array_to_map : (V → K) → List V → (K → Option V) → K → Option V
  array_to_map kf [] m = m
  array_to_map kf (t ∷ ts) m = array_to_map kf ts (put_key m (kf t) t)

-- `cache`, without its lock.
pub record Cache (K V : Type 0) : Type 0 where
  pub cache_map : K → Option V
  pub accessed : List K

module _ {K V : Type 0} (eq : K → K → Bool) where
  unfoldable pub cache_add : Cache K V → K → V → Cache K V
  cache_add c k v = record c { cache_map = put_key eq c.cache_map k v }

  -- What is found is noted as accessed.
  unfoldable pub cache_get : Cache K V → K → Option V × Cache K V
  cache_get c k = elim (c.cache_map k) [
    | none ↦ (none, c)
    | some v ↦ (some v, record c { accessed = c.accessed ++ (k ∷ []) })
  ]

  unfoldable pub delete_keys : (K → Option V) → List K → K → Option V
  delete_keys m [] = m
  delete_keys m (k ∷ ks) = delete_keys (delete_key eq m k) ks

  unfoldable pub remove_accessed : Cache K V → Cache K V
  remove_accessed c = record { cache_map = delete_keys c.cache_map c.accessed; accessed = [] }

-- `ArrayToPtrMap`, on the map that the elements before left. The loop has one variable, which each round
-- assigns, and its address is what the map holds: the place `loop_variable` of the memory.
abbrev pub loop_variable : ℕ
loop_variable = 0

module _ {K V : Type 0} (eq : K → K → Bool) where
  unfoldable pub array_to_ptr_map :
      (V → K) → List V → (K → Option ℕ) → (ℕ → Option V) → (K → Option ℕ) × (ℕ → Option V)
  array_to_ptr_map kf [] m memory = (m, memory)
  array_to_ptr_map kf (t ∷ ts) m memory =
      array_to_ptr_map kf ts (put_key eq m (kf t) loop_variable)
        (λ p. if p == loop_variable then some t else memory p)

-- `CastArray`, where `cast` is the type assertion and the error is the index.
unfoldable pub cast_array : {T V : Type 0} → (V → Option T) → List V → ℕ → Go ℕ (List T)
cast_array cast [] i = ok []
cast_array cast (e ∷ es) i =
    or_err (cast e) i >>= λ te. cast_array cast es (suc i) >>= λ result. ok (te ∷ result)
