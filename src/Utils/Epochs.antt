-- ===== src/Utils/Epochs.antt =====
-- utils/epoch.go: epochs of time and of whole numbers. Times and durations are whole numbers of one unit,
-- without the bounds of `int64`, but for `start_time_int64` and
-- `epoch_index_int64`, whose unit is the nanosecond.
pub mod Located
pub mod Bounded
use flare_system_client.Utils.Int64.{to_int64}
use flare_system_client.Prelude.{
  ℕ, zero, suc, ◌/◌, ◌≡◌, ℤ, pos, negsuc, ◌+ℤ◌, ◌-ℤ◌, ◌*ℤ◌, Go, ok, panicked, ◌>>=◌, ltb_ℤ, Bool,
  ltb, if◌then◌else◌, ◌^◌, ◌-◌,
}

pub record Epoch : Type 0 where
  pub start : ℤ
  pub period : ℤ

abbrev pub negate : ℕ → ℤ
negate zero = pos 0
negate (suc n) = negsuc n

-- Go's division of integers, which rounds towards zero; the divisor zero panics.
unfoldable pub quotient : {E : Type 0} → ℤ → ℤ → Go E ℤ
quotient a (pos zero) = panicked
quotient (pos m) (pos (suc n)) = ok (pos (m / suc n))
quotient (negsuc m) (pos (suc n)) = ok (negate (suc m / suc n))
quotient (pos m) (negsuc n) = ok (negate (m / suc n))
quotient (negsuc m) (negsuc n) = ok (pos (suc m / suc n))

module _ {E : Type 0} (e : Epoch) where
  unfoldable pub epoch_index : ℤ → Go E ℤ
  epoch_index t = quotient (t -ℤ e.start) e.period

unfoldable pub start_time : Epoch → ℤ → ℤ
start_time e epoch = e.start +ℤ epoch *ℤ e.period

-- `StartTime` with the product of durations as Go computes it, in 64 bits.
unfoldable pub start_time_int64 : Epoch → ℤ → ℤ
start_time_int64 e epoch = e.start +ℤ to_int64 (epoch *ℤ e.period)

unfoldable pub end_time : Epoch → ℤ → ℤ
end_time e epoch = start_time e (epoch +ℤ pos 1)

unfoldable pub time_range : Epoch → ℤ → ℤ × ℤ
time_range e epoch = (start_time e epoch, end_time e epoch)

-- `IntEpoch`, whose operations take a number that lies in the epoch.
pub record IntEpoch : Type 0 where
  pub start : ℤ
  pub period : ℤ

module _ {E : Type 0} (e : IntEpoch) where
  unfoldable pub int_epoch_index : ℤ → Go E ℤ
  int_epoch_index n = quotient (n -ℤ e.start) e.period

  unfoldable pub start_epoch : ℤ → Go E ℤ
  start_epoch n = int_epoch_index n >>= λ index. ok (e.start +ℤ e.period *ℤ index)

  unfoldable pub end_epoch : ℤ → Go E ℤ
  end_epoch n = int_epoch_index n >>= λ index. ok (e.start +ℤ e.period *ℤ (index +ℤ pos 1))

-- `t.Sub`, which stops at the bounds of `int64`.
unfoldable pub saturated : ℤ → ℤ
saturated (pos n) = if ltb n (2 ^ 63) then pos n else pos (2 ^ 63 - 1)
saturated (negsuc n) = if ltb n (2 ^ 63) then negsuc n else negsuc (2 ^ 63 - 1)

-- `EpochIndex` with the difference of times as Go computes it.
unfoldable pub epoch_index_int64 : {E : Type 0} → Epoch → ℤ → Go E ℤ
epoch_index_int64 e t = quotient (saturated (t -ℤ e.start)) e.period
