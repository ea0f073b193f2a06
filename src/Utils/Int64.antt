-- ===== src/Utils/Int64.antt =====
-- Conversions and tests of Go's `int64` values, which are modelled as integers.
use flare_system_client.Prelude.{
  ℕ, ◌-◌, ◌%◌, ◌^◌, ◌<◌, ◌≡◌, refl, Bool, true, false, ◌==◌, ltb, if◌then◌else◌, ℤ, pos, negsuc,
  arith,
}

-- The conversion to `uint32`, which keeps the low 32 bits.
unfoldable pub to_uint32 : ℤ → ℕ
to_uint32 (pos n) = n % 2 ^ 32
to_uint32 (negsuc n) = 2 ^ 32 - 1 - n % 2 ^ 32

pub to_uint32-lt : (n : ℤ) → to_uint32 n < 2 ^ 32
unfolding to_uint32
to_uint32-lt (pos n) = omega arith
to_uint32-lt (negsuc n) = omega arith

abbrev pub eq_ℤ : ℤ → ℤ → Bool
eq_ℤ (pos a) (pos b) = a == b
eq_ℤ (pos a) (negsuc b) = false
eq_ℤ (negsuc a) (pos b) = false
eq_ℤ (negsuc a) (negsuc b) = a == b

pub eq_ℤ→eq : (a b : ℤ) → eq_ℤ a b ≡ true → a ≡ b
eq_ℤ→eq (pos a) (pos b) h = ground arith
eq_ℤ→eq (pos a) (negsuc b) h = absurd (ground arith)
eq_ℤ→eq (negsuc a) (pos b) h = absurd (ground arith)
eq_ℤ→eq (negsuc a) (negsuc b) h = ground arith

-- The conversion to `uint64`.
unfoldable pub to_uint64 : ℤ → ℕ
to_uint64 (pos n) = n % 2 ^ 64
to_uint64 (negsuc n) = 2 ^ 64 - 1 - n % 2 ^ 64

-- `big.Int.Int64`: the low 64 bits, with the sign of the highest.
unfoldable pub to_int64 : ℤ → ℤ
unfolding to_uint64
to_int64 n =
    if ltb (to_uint64 n) (2 ^ 63) then pos (to_uint64 n) else negsuc (2 ^ 64 - 1 - to_uint64 n)

pub to_int64_small : (n : ℕ) → n < 2 ^ 63 → to_int64 (pos n) ≡ pos n
unfolding to_int64 to_uint64
to_int64_small n small =
    let low : n % 2 ^ 64 ≡ n = omega arith in
    let positive : ltb n (2 ^ 63) ≡ true = ground arith in rw (low, positive) refl
