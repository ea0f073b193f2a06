-- ===== src/Utils/Encoding/Padded.antt =====
-- utils/encoding.go: hexadecimal texts read back.
use flare_system_client.Utils.Hex.{hex_decode, hex_digit, trim_0x}
use flare_system_client.Utils.Encoding.{
  digit, hex_encode, le_bytes, uint32_to_hex, pad_hex_string, even_digits,
}
use flare_system_client.Prelude.{
  ℕ, zero, suc, ◌+◌, ◌-◌, ◌*◌, ◌/◌, ◌%◌, ◌^◌, ◌<◌, ◌≡◌, refl, ap, ◌∙◌, arith, [], ◌∷◌, ◌++◌, Bytes,
  IsByte, All, length, length-append, length-replicate, ◌==◌, ◌≤◌, inl, inr, Bool-cases,
  Option-cases, replicate, some, ok,
}

digit-read : (d : ℕ) → d < 16 → hex_digit (digit d) ≡ some d
unfolding hex_digit
digit-read d h = ground arith

decode_two :
    (a b hi lo : ℕ) (rest bytes : Bytes)
    → hex_digit a ≡ some hi
    → hex_digit b ≡ some lo
    → hex_decode rest ≡ some bytes
    → hex_decode (a ∷ (b ∷ rest)) ≡ some ((16 * hi + lo) ∷ bytes)
unfolding hex_decode
decode_two a b hi lo rest bytes ha hb hr = rw (hex_decode, ha, hb, hr) refl

-- Decoding what was encoded gives the bytes back.
pub hex_decode-hex_encode :
    (bytes : Bytes) → All IsByte bytes → hex_decode (hex_encode bytes) ≡ some bytes
unfolding hex_encode
hex_decode-hex_encode [] h = unfold hex_decode in refl
hex_decode-hex_encode (b ∷ bs) h =
    decode_two _ _ (b / 16) (b % 16) (hex_encode bs) bs (digit-read (b / 16) (omega arith))
      (digit-read (b % 16) (omega arith)) (hex_decode-hex_encode bs h.1)
    ∙ ap (λ n. some (n ∷ bs)) (omega arith)

length-le_bytes : (n v : ℕ) → All IsByte (le_bytes n v)
unfolding le_bytes
length-le_bytes zero v = tt
length-le_bytes (suc n) v = (omega arith, length-le_bytes n (v / 256))

-- The number that a little-endian byte string stands for.
unfoldable pub le_value : Bytes → ℕ
le_value [] = 0
le_value (b ∷ bs) = b + 256 * le_value bs

le_value-four : (v : ℕ) → v < 2 ^ 32 → le_value (le_bytes 4 v) ≡ v
unfolding le_value le_bytes
le_value-four v h = omega arith

-- The text of a 32-bit number decodes to four bytes that stand for the number, the lowest first.
pub hex_decode-uint32_to_hex :
    (v : ℕ)
    → v < 2 ^ 32
    → (bytes : Bytes) × (hex_decode (uint32_to_hex v) ≡ some bytes)
      × (length bytes ≡ 4)
      × (le_value bytes ≡ v)
unfolding uint32_to_hex
hex_decode-uint32_to_hex v h = (
  le_bytes 4 v,
  hex_decode-hex_encode (le_bytes 4 v) (length-le_bytes 4 v),
  unfold le_bytes in refl,
  le_value-four v h,
)

hex_decode-zeros :
    (k : ℕ) (s bytes : Bytes)
    → hex_decode s ≡ some bytes
    → hex_decode (replicate (k + k) b'0' ++ s) ≡ some (replicate k 0 ++ bytes)
hex_decode-zeros zero s bytes h = h
hex_decode-zeros (suc k) s bytes h =
    ap (λ j. hex_decode (replicate j b'0' ++ s)) (twice k)
    ∙ decode_two b'0' b'0' 0 0 _ _ (digit-read 0 (omega arith)) (digit-read 0 (omega arith))
        (hex_decode-zeros k s bytes h)
  where
    twice : (k : ℕ) → suc k + suc k ≡ suc (suc (k + k))
    twice k = omega arith

padded_parts :
    (value r : Bytes) (width : ℕ)
    → pad_hex_string value width ≡ ok r
    → (bytes : Bytes) × (width % 2 ≡ 0)
      × (hex_decode (even_digits (trim_0x value)) ≡ some bytes)
      × (length (even_digits (trim_0x value)) ≤ width)
      × (r
          ≡ replicate (width - length (even_digits (trim_0x value))) b'0'
            ++ even_digits (trim_0x value))
unfolding pad_hex_string
padded_parts value r width e = elim (Option-cases (hex_decode (even_digits (trim_0x value)))) [
  | inl failed ↦ absurd (ground (arith, failed))
  | inr (bytes, decoded) ↦
      (bytes, ground (arith, decoded), decoded, ground (arith, decoded), ground (arith, decoded))
]

even_length : (s : Bytes) → length (even_digits s) % 2 ≡ 0
even_length s = elim (Bool-cases (length s % 2 == 0)) [
  | inl even ↦ rw even (ground arith)
  | inr odd ↦ rw odd (ground arith)
]

half : (w l : ℕ) → w % 2 ≡ 0 → l % 2 ≡ 0 → l ≤ w → w - l ≡ (w - l) / 2 + (w - l) / 2
half w l h h' le = omega arith

length-padding : (n : ℕ) (s : Bytes) → length (replicate n b'0' ++ s) ≡ n + length s
length-padding n s =
    length-append (replicate n b'0') s ∙ ap (λ j. j + length s) (length-replicate n b'0')

-- A text that is padded has the given number of digits, and decodes to the bytes of the value behind
-- zeros.
pub pad_hex_string-Padded :
    (value r : Bytes) (width : ℕ)
    → pad_hex_string value width ≡ ok r
    → (bytes : Bytes) × (k : ℕ) × (length r ≡ width)
      × (hex_decode (even_digits (trim_0x value)) ≡ some bytes)
      × (hex_decode r ≡ some (replicate k 0 ++ bytes))
pad_hex_string-Padded value r width e =
    let s = even_digits (trim_0x value) in
    let (bytes, even, decoded, room, shape) = padded_parts value r width e in
    let halves = half width (length s) even (even_length (trim_0x value)) room in
    (
      bytes,
      (width - length s) / 2,
      ap (λ (l : Bytes). length l) shape
          ∙ length-padding (width - length s) s
          ∙ omega (arith, room),
      decoded,
      ap hex_decode shape
          ∙ ap (λ j. hex_decode (replicate j b'0' ++ s)) halves
          ∙ hex_decode-zeros ((width - length s) / 2) s bytes decoded,
    )
