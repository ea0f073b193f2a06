-- ===== src/Utils/Epochs/Located.antt =====
-- utils/epoch.go: where a time or a number lies in its epoch.
use flare_system_client.Utils.Int64.{to_int64_small}
use flare_system_client.Prelude.{
  ◌^◌, ℕ, ◌-◌, suc, ◌+◌, ◌*◌, ◌/◌, ◌≡◌, ◌<◌, ◌≤◌, ℤ, pos, pos_part, neg_part, ◌+ℤ◌, ◌-ℤ◌, ◌*ℤ◌, ok,
  ltb_ℤ, true, arith, ◌≤ℤ◌, refl, ap, subst,
}
use native.Mathlib.Nat.{mul-div_cancel, div-eq_of_lt}
use flare_system_client.Utils.Epochs.{
  Epoch, quotient, epoch_index, start_time, start_time_int64, end_time, IntEpoch, end_epoch,
  int_epoch_index,
}

pub *ℤ_pos : (k n : ℕ) → pos k *ℤ pos n ≡ pos (k * n)
unfolding ◌*ℤ◌
*ℤ_pos k n = ground arith

+ℤ_pos : (k n : ℕ) → pos k +ℤ pos n ≡ pos (k + n)
unfolding ◌+ℤ◌
+ℤ_pos k n = ground arith

pub split : (a : ℕ) (n : ℕ) → (a / suc n * suc n ≤ a) × (a < (a / suc n + 1) * suc n)
split a n = (ground arith, ground arith)

difference : (a t : ℤ) → a ≤ℤ t → (d : ℕ) × (t -ℤ a ≡ pos d) × (t ≡ a +ℤ pos d)
unfolding ◌-ℤ◌ ◌+ℤ◌
difference a t h = (pos_part t + neg_part a - (neg_part t + pos_part a), ground arith, ground arith)

pub mul_div : (k n : ℕ) → k * suc n / suc n ≡ k
mul_div k n = mul-div_cancel k (omega arith)

-- The place of a number between two multiples of the period.
placed :
    (a : ℤ) (d n k : ℕ)
    → k * suc n ≤ d
    → d < (k + 1) * suc n
    → (a +ℤ pos k *ℤ pos (suc n) ≤ℤ a +ℤ pos d)
      × (ltb_ℤ (a +ℤ pos d) (a +ℤ pos (k + 1) *ℤ pos (suc n)) ≡ true)
unfolding ◌+ℤ◌
placed a d n k low high = rw (*ℤ_pos k (suc n), *ℤ_pos (k + 1) (suc n)) (ground arith, ground arith)

start_gap : (a : ℤ) (m : ℕ) → a +ℤ pos m -ℤ a ≡ pos m
unfolding ◌+ℤ◌ ◌-ℤ◌
start_gap a m = ground arith

quotient_step :
    {E : Type 0} (m n : ℕ) → quotient {E = E} (pos m) (pos (suc n)) ≡ ok (pos (m / suc n))
unfolding quotient
quotient_step m n = refl

pub quotient_pos :
    {E : Type 0} (a b : ℤ) (m n : ℕ)
    → a ≡ pos m
    → b ≡ pos (suc n)
    → quotient {E = E} a b ≡ ok (pos (m / suc n))
quotient_pos a b m n e f = rw (e, f) (quotient_step m n)

module _ {E : Type 0} (e : Epoch) (n : ℕ) (positive : e.period ≡ pos (suc n)) where
  -- With a positive period, a time from the start of the first epoch on has an index: it is a natural
  -- number, the epoch with this index starts at that time or before, and it ends after it.
  pub epoch_index-Located :
      (t : ℤ)
      → e.start ≤ℤ t
      → (k : ℕ) × (epoch_index {E = E} e t ≡ ok (pos k))
        × (start_time e (pos k) ≤ℤ t)
        × (ltb_ℤ t (end_time e (pos k)) ≡ true)
  unfolding epoch_index start_time end_time
  epoch_index-Located t h =
      let (d, gap, there) = difference e.start t h in
      let (low, high) = split d n in
      (
        d / suc n,
        quotient_pos (t -ℤ e.start) e.period d n gap positive,
        rw (positive, there) (placed e.start d n (d / suc n) low high).0,
        rw (positive, there, +ℤ_pos (d / suc n) 1) (placed e.start d n (d / suc n) low high).1,
      )

-- As long as the product fits 64 bits, it makes no difference that Go computes it there.
pub start_time_int64_lem :
    (e : Epoch) (n k : ℕ)
    → e.period ≡ pos n
    → k * n < 2 ^ 63
    → start_time_int64 e (pos k) ≡ start_time e (pos k)
unfolding start_time_int64 start_time
start_time_int64_lem e n k period fits = rw (period, *ℤ_pos k n, to_int64_small (k * n) fits) refl

minus : (a id : ℕ) → a ≤ id → pos id -ℤ pos a ≡ pos (id - a)
unfolding ◌-ℤ◌
minus a id h = ground arith

before : (a n id : ℕ) → a ≤ id → id < a + suc n → id - a < suc n
before a n id low high = omega arith

first_end : (a n : ℕ) → pos a +ℤ pos (suc n) *ℤ (pos 0 +ℤ pos 1) ≡ pos (a + suc n)
unfolding ◌+ℤ◌ ◌*ℤ◌
first_end a n = ground arith

-- The end of the epoch that contains `id`, for an `id` in the first epoch.
pub end_epoch-first :
    {E : Type 0} (e : IntEpoch) (x : ℤ) (a n id : ℕ)
    → e.start ≡ pos a
    → e.period ≡ pos (suc n)
    → x ≡ pos id
    → a ≤ id
    → id < a + suc n
    → end_epoch {E = E} e x ≡ ok (pos (a + suc n))
unfolding end_epoch int_epoch_index
end_epoch-first e x a n id start period here low high =
    rw
      (
        quotient_pos (x -ℤ e.start) e.period (id - a) n (rw (here, start) (minus a id low)) period,
        start,
        period,
        div-eq_of_lt (before a n id low high),
      )
      (ap ok (first_end a n))

times_add : (k d n : ℕ) → k * suc n ≤ (k + d) * suc n
times_add k d n = ground arith

times_mono : (k j n : ℕ) → k ≤ j → k * suc n ≤ j * suc n
times_mono k j n h =
    let sum : k + (j - k) ≡ j = omega arith in
    subst (λ x. k * suc n ≤ x * suc n) sum (times_add k (j - k) n)

later_start : (a : ℤ) (x y : ℕ) → x ≤ y → a +ℤ pos x ≤ℤ a +ℤ pos y
unfolding ◌+ℤ◌
later_start a x y h = ground arith

-- A later epoch does not start before.
pub start_time_mono :
    (e : Epoch) (n k j : ℕ)
    → e.period ≡ pos (suc n)
    → k ≤ j
    → start_time e (pos k) ≤ℤ start_time e (pos j)
unfolding start_time
start_time_mono e n k j positive h =
    rw (positive, *ℤ_pos k (suc n), *ℤ_pos j (suc n))
      (later_start e.start (k * suc n) (j * suc n) (times_mono k j n h))

-- Epoch 0 starts at the start.
pub first_start : (e : Epoch) → start_time e (pos 0) ≡ e.start
unfolding start_time ◌+ℤ◌ ◌*ℤ◌
first_start e = ground arith
