-- ===== src/Prelude/ByteStrings.antt =====
-- Byte strings as lists of numbers, and `encoding/binary`'s big-endian words.
use Prim.Native.Char.{code}
use Prim.Native.String.{String}
use Prim.Native.Nat.{ℕ, zero, suc, ◌+◌, ◌*◌, ◌/◌, ◌%◌, ◌^◌, ◌<◌}
use mathlib.Core.Path.{◌≡◌, refl}
use mathlib.Core.List.{List, [], ◌∷◌, ◌++◌}
use native.Mathlib.Omega.{arith}
use flare_system_client.Prelude.Lists.{length, length-append}

abbrev pub Bytes : Type 0
Bytes = List ℕ

-- The bytes of an ASCII text.
abbrev pub codes : String → Bytes
codes String.[] = []
codes (String.◌∷◌ c s) = code c ∷ codes s

abbrev pub IsByte : ℕ → Type 0
IsByte b = b < 256

-- The number that a big-endian byte string stands for.
unfoldable pub be_value : Bytes → ℕ → ℕ
be_value [] acc = acc
be_value (b ∷ bs) acc = be_value bs (acc * 256 + b)

-- The `n` low bytes of `v`, the highest first.
unfoldable pub be_bytes : ℕ → ℕ → Bytes
be_bytes zero v = []
be_bytes (suc n) v = be_bytes n (v / 256) ++ (v % 256 ∷ [])

pub length-be_bytes : (n v : ℕ) → length (be_bytes n v) ≡ n
unfolding be_bytes
length-be_bytes zero v = refl
length-be_bytes (suc n) v =
    omega (arith, length-append (be_bytes n (v / 256)) (v % 256 ∷ []), length-be_bytes n (v / 256))

-- The two widths that the client reads back.
pub be_value-be_bytes_two : (v : ℕ) → v < 65536 → be_value (be_bytes 2 v) 0 ≡ v
unfolding be_value be_bytes
be_value-be_bytes_two v h = omega arith

pub be_value-be_bytes_four : (v : ℕ) → v < 2 ^ 32 → be_value (be_bytes 4 v) 0 ≡ v
unfolding be_value be_bytes
be_value-be_bytes_four v h = omega arith
