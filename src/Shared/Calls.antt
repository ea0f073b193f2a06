-- ===== src/Shared/Calls.antt =====
-- client/shared/utils.go: the retries of a call that may panic.
use flare_system_client.Prelude.{
  ℕ, zero, suc, ◌+◌, ◌*◌, ◌≤◌, ◌≢◌, ◌≡◌, refl, arith, Option, none, some, Go, ok, err, panicked,
}
use flare_system_client.Prelude.Calls.{Call, Takes, Grown, return, return-Takes, Takes_weaken}
use flare_system_client.Shared.{ExecuteStatus, success, execute_with_retry, retried, retry_call}

-- A call without panics, as `execute_with_retry` takes it.
abbrev pub value_of : {E A : Type 0} → Go E A → Option A
value_of (ok a) = some a
value_of (err e) = none
value_of panicked = none

abbrev pub attempt : {W E A : Type 0} → Call W E A → W → Option A × W
attempt f w = (value_of (f w).0, (f w).1)

module _ {W E A : Type 0} (f : Call W E A) (calm : (w : W) → (f w).0 ≢ panicked) where
  same_round :
      (left : Go E A × W) (n : ℕ)
      → left.0 ≢ panicked
      → ((w : W)
          → retry_call f n w
            ≡ (ok (execute_with_retry (attempt f) n w).0, (execute_with_retry (attempt f) n w).1))
      → retried left (retry_call f n) ≡ (
          let r : ExecuteStatus A × W = elim (value_of left.0) [
            | some a ↦ (success a, left.1)
            | none ↦ execute_with_retry (attempt f) n left.1
          ] in
          (ok r.0, r.1))
  same_round (ok a, w) n h rest = refl
  same_round (err e, w) n h rest = rest w
  same_round (panicked, w) n h rest = absurd (h refl)

  -- For a call that never panics, both forms of the retries come to the same result and leave the same
  -- world.
  pub retry_call-execute_with_retry :
      (n : ℕ) (w : W)
      → retry_call f n w
        ≡ (ok (execute_with_retry (attempt f) n w).0, (execute_with_retry (attempt f) n w).1)
  unfolding retry_call execute_with_retry return
  retry_call-execute_with_retry zero w = refl
  retry_call-execute_with_retry (suc n) w =
      same_round (f w) n (calm w) (retry_call-execute_with_retry n)

module _ {W E A : Type 0} (measure : W → ℕ) (f : Call W E A) (low high : ℕ)
    (takes : Takes measure low high f) where
  retried-Grown :
      (before n : ℕ) (left : Go E A × W)
      → Grown measure low high before left
      → Takes measure 0 (n * high) (retry_call f n)
      → Grown measure 0 (suc n * high) before (retried left (retry_call f n))
  retried-Grown before n (ok a, w) g rest = (omega arith, omega arith)
  retried-Grown before n (err e, w) g rest =
      later before (measure w) (retry_call f n w) g.0 g.1 (rest.grown w)
    where
      later :
          (before middle : ℕ) (left : Go E (ExecuteStatus A) × W)
          → before ≤ middle
          → middle ≤ before + high
          → Grown measure 0 (n * high) middle left
          → Grown measure 0 (suc n * high) before left
      later before middle (ok a, w) p q g = (omega arith, omega arith)
      later before middle (err e, w) p q g = (omega arith, omega arith)
      later before middle (panicked, w) p q g = (omega arith, omega arith)
  retried-Grown before n (panicked, w) g rest = (omega arith, omega arith)

  -- The retries take at most as many times what one call takes.
  pub retry_call-Takes : (n : ℕ) → Takes measure 0 (n * high) (retry_call f n)
  unfolding retry_call
  retry_call-Takes zero =
      Takes_weaken measure 0 0 0 (0 * high) _ (omega arith) (omega arith) (return-Takes measure _)
  retry_call-Takes (suc n) = record {
    grown = λ w. retried-Grown (measure w) n (f w) (takes.grown w) (retry_call-Takes n);
  }
