-- ===== src/Examples/Caches.antt =====
-- A cache with two keys, one of them accessed, and two intervals.
use flare_system_client.Prelude.{ℕ, Bool, [], ◌∷◌, none, some, if◌then◌else◌, ◌==◌}
use flare_system_client.Utils.Collections.{Cache}

abbrev two_keys : Cache ℕ ℕ
two_keys = record {
  cache_map = λ k. if k == 1 then some 10 else if k == 2 then some 20 else none;
  accessed = 1 ∷ [];
}

abbrev same : ℕ → ℕ → Bool
same a b = a == b
