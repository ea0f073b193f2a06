-- ===== src/Utils/Collections/Removed.antt =====
-- utils/math.go and utils/cache.go: what an intersection holds, and what stays in a cache.
use flare_system_client.Prelude.{
  ℕ, ◌≤◌, ◌≡◌, ◌↔◌, ◌∙◌, Bool, true, false, ◌||◌, List, [], ◌∷◌, Option, none, if◌then◌else◌, arith,
  refl,
}
use flare_system_client.Utils.Collections.{
  max_of, min_of, interval_intersection, Cache, delete_key, delete_keys, remove_accessed,
}

-- A number lies in the interval that `IntervalIntersection` returns exactly if it lies in both.
pub interval_intersection_iff :
    (a1 a2 b1 b2 x : ℕ)
    → ((interval_intersection a1 a2 b1 b2).0 ≤ x × x ≤ (interval_intersection a1 a2 b1 b2).1)
      ↔ ((a1 ≤ x × x ≤ a2) × (b1 ≤ x × x ≤ b2))
unfolding interval_intersection max_of min_of
interval_intersection_iff a1 a2 b1 b2 x = ground arith

pub is_among : {K : Type 0} → (K → K → Bool) → List K → K → Bool
is_among eq [] j = false
is_among eq (k ∷ ks) j = eq j k || is_among eq ks j

module _ {K V : Type 0} (eq : K → K → Bool) where
  either :
      (b c : Bool) (x y : Option V)
      → y ≡ (if b then none else x)
      → (if c then none else y) ≡ (if b || c then none else x)
  either true true x y e = refl
  either true false x y e = e
  either false true x y e = refl
  either false false x y e = e

  delete_keys-lookup :
      (m : K → Option V) (ks : List K) (j : K)
      → delete_keys eq m ks j ≡ (if is_among eq ks j then none else m j)
  unfolding delete_keys delete_key is_among
  delete_keys-lookup m [] j = refl
  delete_keys-lookup m (k ∷ ks) j =
      delete_keys-lookup (delete_key eq m k) ks j ∙ either (eq j k) (is_among eq ks j) (m j) _ refl

  -- `RemoveAccessed` takes out of the cache the keys that were found since the last time, and leaves the
  -- values of all others.
  pub remove_accessed-lookup :
      (c : Cache K V) (j : K)
      → (remove_accessed eq c).cache_map j
        ≡ (if is_among eq c.accessed j then none else c.cache_map j)
  unfolding remove_accessed
  remove_accessed-lookup c j = delete_keys-lookup c.cache_map c.accessed j
