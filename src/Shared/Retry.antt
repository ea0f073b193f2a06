-- ===== src/Shared/Retry.antt =====
-- client/shared/utils.go: what a retried call comes to.
use flare_system_client.Prelude.{
  ℕ, zero, suc, ◌<◌, ◌≡◌, ◌⊎◌, inl, inr, refl, Option, none, some, Option-cases, arith,
}
use flare_system_client.Shared.{success, failed, execute_with_retry}

module _ {W A : Type 0} (f : W → Option A × W) where
  -- The world after `k` calls.
  pub after : ℕ → W → W
  after zero w = w
  after (suc k) w = after k (f w).1

  first_fails :
      (w : W) (n : ℕ)
      → (f w).0 ≡ none
      → ((i : ℕ) → i < n → (f (after i (f w).1)).0 ≡ none)
      → (i : ℕ) → i < suc n
      → (f (after i w)).0 ≡ none
  unfolding after
  first_fails w n e h zero lt = e
  first_fails w n e h (suc i) lt = h i (omega arith)

  -- With `n` retries at most: either the calls number 0 to `k` - 1 fail, where `k` < `n`, call `k`
  -- succeeds with `a`, and the result is `a`, with no call after it; or all `n` calls fail.
  pub execute_with_retry-Ends :
      (n : ℕ) (w : W)
      → ((k : ℕ) × (a : A) × (k < n)
          × ((i : ℕ) → i < k → (f (after i w)).0 ≡ none)
          × ((f (after k w)).0 ≡ some a)
          × (execute_with_retry f n w ≡ (success a, after (suc k) w)))
        ⊎ (((i : ℕ) → i < n → (f (after i w)).0 ≡ none)
            × (execute_with_retry f n w ≡ (failed, after n w)))
  unfolding after execute_with_retry
  execute_with_retry-Ends zero w = inr (λ i lt. absurd (omega arith), refl)
  execute_with_retry-Ends (suc n) w = elim (Option-cases (f w).0) [
    | inr (a, e) ↦
        inl (zero, a, omega arith, λ i lt. absurd (omega arith), e, rw (e, execute_with_retry) refl)
    | inl e ↦ elim (execute_with_retry-Ends n (f w).1) [
      | inl (k, a, lt, fails, ok_k, r) ↦
          inl (suc k, a, omega arith, first_fails w k e fails, ok_k, rw (e, execute_with_retry) r)
      | inr (fails, r) ↦ inr (first_fails w n e fails, rw (e, execute_with_retry) r)
    ]
  ]
