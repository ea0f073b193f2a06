-- ===== src/Utils/Encoding.antt =====
-- utils/encoding.go and client/shared/encoding.go: texts for numbers and bytes.
pub mod Padded
use flare_system_client.Utils.Hex.{hex_decode, trim_0x}
use flare_system_client.Prelude.{
  ℕ, zero, suc, ◌+◌, ◌-◌, ◌/◌, ◌%◌, [], ◌∷◌, ◌++◌, Bytes, codes, be_bytes, ltb, ◌==◌, if◌then◌else◌,
  length, replicate, Option, none, some, Go, ok, err, or_err, ◌>>=◌,
}

-- `encoding/binary`'s little-endian words.
unfoldable pub le_bytes : ℕ → ℕ → Bytes
le_bytes zero v = []
le_bytes (suc n) v = (v % 256) ∷ le_bytes n (v / 256)

abbrev pub digit : ℕ → ℕ
digit d = if ltb d 10 then b'0' + d else b'a' + (d - 10)

-- `hex.EncodeToString`
unfoldable pub hex_encode : Bytes → Bytes
hex_encode [] = []
hex_encode (b ∷ bs) = digit (b / 16) ∷ (digit (b % 16) ∷ hex_encode bs)

unfoldable pub uint64_to_hex : ℕ → Bytes
uint64_to_hex value = hex_encode (le_bytes 8 value)

unfoldable pub uint32_to_hex : ℕ → Bytes
uint32_to_hex value = hex_encode (le_bytes 4 value)

unfoldable pub uint16_to_hex : ℕ → Bytes
uint16_to_hex value = hex_encode (le_bytes 2 value)

unfoldable pub uint16_to_bytes : ℕ → Bytes
uint16_to_bytes i = be_bytes 2 i

unfoldable pub uint32_to_bytes : ℕ → Bytes
uint32_to_bytes i = be_bytes 4 i

pub data Error : Type 0 where
  length_not_even not_hex too_long invalid_length : Error

-- An even number of digits.
abbrev pub even_digits : Bytes → Bytes
even_digits value = if length value % 2 == 0 then value else b'0' ∷ value

unfoldable pub pad_hex_string : Bytes → ℕ → Go Error Bytes
pad_hex_string value width =
    if width % 2 == 0
    then (or_err (hex_decode (even_digits (trim_0x value))) not_hex >>= λ decoded.
        if ltb width (length (even_digits (trim_0x value)))
        then err too_long
        else ok (
            replicate (width - length (even_digits (trim_0x value))) b'0'
            ++ even_digits (trim_0x value)))
    else err length_not_even

-- The two conversions to an array of a fixed size.
unfoldable pub hex_to_array : ℕ → Bytes → Go Error Bytes
hex_to_array size text = or_err (hex_decode (trim_0x text)) not_hex >>= λ bytes.
    if length bytes == size then ok bytes else err invalid_length

unfoldable pub transaction_hex_to_bytes32 : Bytes → Go Error Bytes
transaction_hex_to_bytes32 address = hex_to_array 32 address

unfoldable pub hex20_to_bytes20 : Bytes → Go Error Bytes
hex20_to_bytes20 str = hex_to_array 20 str
