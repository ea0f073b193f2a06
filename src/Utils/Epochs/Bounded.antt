-- ===== src/Utils/Epochs/Bounded.antt =====
-- utils/epoch.go: how far the epochs reach in 64 bits.
use flare_system_client.Utils.Int64.{to_int64, to_uint64, to_int64_small}
use flare_system_client.Utils.Epochs.{
  Epoch, negate, quotient, saturated, start_time_int64, epoch_index_int64,
}
use flare_system_client.Utils.Epochs.Located.{*ℤ_pos, mul_div, quotient_pos, split}
use flare_system_client.Prelude.{
  ◌↔◌, ℕ, zero, suc, ◌*◌, ◌/◌, ◌%◌, ◌^◌, ◌≡◌, ◌<◌, ◌≤◌, refl, sym, ap, ◌∙◌, subst, arith, inl, inr,
  true, Bool-cases, ltb, ℤ, pos, negsuc, ◌+ℤ◌, ◌-ℤ◌, ok, ok-injective,
}

-- An integer of 64 bits.
abbrev IsInt64 : ℤ → Type 0
IsInt64 (pos n) = n < 2 ^ 63
IsInt64 (negsuc n) = n < 2 ^ 63

to_int64-IsInt64 : (n : ℕ) → IsInt64 (to_int64 (pos n))
unfolding to_int64 to_uint64
to_int64-IsInt64 n = elim (Bool-cases (ltb (n % 2 ^ 64) (2 ^ 63))) [
  | inl low ↦ rw low (ground (arith, low))
  | inr high ↦ rw high (ground (arith, high))
]

saturated_in : (x : ℤ) → IsInt64 x → saturated x ≡ x
unfolding saturated
saturated_in (pos n) h = let low : ltb n (2 ^ 63) ≡ true = ground arith in rw low refl
saturated_in (negsuc n) h = let low : ltb n (2 ^ 63) ≡ true = ground arith in rw low refl

back : (a x : ℤ) → (a +ℤ x) -ℤ a ≡ x
unfolding ◌+ℤ◌ ◌-ℤ◌
back a x = ground arith

-- The index is zero or less where the difference is negative, which is the start of no later epoch.
from_quotient :
    {E : Type 0} (x : ℤ) (k n : ℕ)
    → IsInt64 x
    → quotient {E = E} x (pos (suc n)) ≡ ok (pos k)
    → k * suc n < 2 ^ 63
unfolding quotient
from_quotient (pos m) k n small e = reach m k n small (pos-injective (ok-injective e))
  where
    pos-injective : {a b : ℕ} → pos a ≡ pos b → a ≡ b
    pos-injective e = cc

    reach : (m k n : ℕ) → m < 2 ^ 63 → m / suc n ≡ k → k * suc n < 2 ^ 63
    reach m k n small e =
        let low : k * suc n ≤ m = subst (λ i. i * suc n ≤ m) e (split m n).0 in omega arith
from_quotient (negsuc m) k n small e = not_negative (suc m / suc n) k n (ok-injective e)
  where
    not_negative : (q k n : ℕ) → negate q ≡ pos k → k * suc n < 2 ^ 63
    not_negative zero zero n e = omega arith
    not_negative zero (suc k) n e = absurd (ground arith)
    not_negative (suc q) k n e = absurd (ground arith)

module _ {E : Type 0} (e : Epoch) (n : ℕ) (positive : e.period ≡ pos (suc n)) where
  difference_kept :
      (k : ℕ)
      → epoch_index_int64 {E = E} e (start_time_int64 e (pos k))
        ≡ quotient (to_int64 (pos (k * suc n))) (pos (suc n))
  unfolding epoch_index_int64 start_time_int64
  difference_kept k =
      rw
        (
          positive,
          *ℤ_pos k (suc n),
          back e.start (to_int64 (pos (k * suc n))),
          saturated_in (to_int64 (pos (k * suc n))) (to_int64-IsInt64 (k * suc n)),
        )
        refl

  there_and_back :
      (k : ℕ)
      → k * suc n < 2 ^ 63
      → epoch_index_int64 {E = E} e (start_time_int64 e (pos k)) ≡ ok (pos k)
  there_and_back k fits =
      difference_kept k
      ∙ quotient_pos (to_int64 (pos (k * suc n))) (pos (suc n)) (k * suc n) n
          (to_int64_small (k * suc n) fits) refl
      ∙ ap (λ i. ok (pos i)) (mul_div k n)

  -- With a positive period, `EpochIndex` gives back the epoch from its `StartTime` for exactly those epochs
  -- that start less than 2^63 nanoseconds after the first one: the product of `StartTime` and the difference
  -- of times in `EpochIndex` are 64 bits wide.
  pub epoch_index_int64_iff :
      (k : ℕ)
      → (epoch_index_int64 {E = E} e (start_time_int64 e (pos k)) ≡ ok (pos k))
        ↔ (k * suc n < 2 ^ 63)
  epoch_index_int64_iff k = (
    λ same.
        from_quotient (to_int64 (pos (k * suc n))) k n (to_int64-IsInt64 (k * suc n))
          (sym (difference_kept k) ∙ same),
    there_and_back k,
  )
