-- ===== src/Prelude/Search.antt =====
-- `sort.Search` of Go's standard library: the binary search that `sort.Find` and the client use.
use Prim.Native.Nat.{ℕ, zero, suc, ◌+◌, ◌/◌, ◌≤◌, ◌<◌}
use mathlib.Core.Path.{◌≡◌}
use mathlib.Core.Logic.{inl, inr}
use mathlib.Core.Bool.{Bool, true, false}
use native.Mathlib.Omega.{arith}
use flare_system_client.Prelude.Tests.{ltb, Bool-cases}

-- The loop on `[i, j)`; every round shortens the interval, so its length is fuel enough.
search_loop : ℕ → (ℕ → Bool) → ℕ → ℕ → ℕ
search_loop zero f i j = i
search_loop (suc fuel) f i j = elim (ltb i j) [
  | true ↦ elim (f ((i + j) / 2)) [
    | true ↦ search_loop fuel f i ((i + j) / 2)
    | false ↦ search_loop fuel f ((i + j) / 2 + 1) j
  ]
  | false ↦ i
]

unfoldable pub search : ℕ → (ℕ → Bool) → ℕ
unfolding search_loop
search n f = search_loop n f 0 n

-- `r` is the least index below `n` at which `f` holds, and `n` if there is none.
abbrev pub Splits : ℕ → (ℕ → Bool) → ℕ → Type 0
Splits n f r = (r ≤ n) × ((k : ℕ) → k < r → f k ≡ false) × ((k : ℕ) → r ≤ k → k < n → f k ≡ true)

abbrev pub IsMonotone : ℕ → (ℕ → Bool) → Type 0
IsMonotone n f = (i j : ℕ) → i ≤ j → j < n → f i ≡ true → f j ≡ true

module _ (n : ℕ) (f : ℕ → Bool) (mono : IsMonotone n f) where
  search_loop-Splits :
      (fuel i j : ℕ)
      → i ≤ j
      → j ≤ n
      → j ≤ i + fuel
      → ((k : ℕ) → k < i → f k ≡ false)
      → ((k : ℕ) → j ≤ k → k < n → f k ≡ true)
      → Splits n f (search_loop fuel f i j)
  unfolding search_loop
  search_loop-Splits zero i j h hn hf lo hi = (omega arith, lo, λ k p q. hi k (omega arith) q)
  search_loop-Splits (suc fuel) i j h hn hf lo hi = elim (Bool-cases (ltb i j)) [
    | inr stop ↦ rw (stop, search_loop) (omega arith, lo, λ k p q. hi k (ground arith) q)
    | inl go ↦
        rw (go, search_loop)
          (elim (Bool-cases (f ((i + j) / 2))) [
            | inl yea ↦
                rw (yea, search_loop)
                  (search_loop-Splits fuel i ((i + j) / 2) (ground arith) (ground arith)
                    (ground arith) lo (λ k p q. mono ((i + j) / 2) k p q yea))
            | inr nay ↦
                rw (nay, search_loop)
                  (search_loop-Splits fuel ((i + j) / 2 + 1) j (ground arith) hn (ground arith)
                    (λ k p. below k p (ground arith) nay) hi)
          ])
  ]
    where
      below :
          (k : ℕ) → k < (i + j) / 2 + 1 → (i + j) / 2 < n → f ((i + j) / 2) ≡ false → f k ≡ false
      below k p q nay = elim (Bool-cases (f k)) [
        | inr e ↦ e
        | inl e ↦ cc (mono k ((i + j) / 2) (omega arith) q e)
      ]

  pub search-Splits : Splits n f (search n f)
  unfolding search
  search-Splits =
      search_loop-Splits n 0 n (omega arith) (omega arith) (omega arith)
        (λ k p. absurd (omega arith)) (λ k p q. absurd (omega arith))
