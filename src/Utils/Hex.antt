-- ===== src/Utils/Hex.antt =====
-- `encoding/hex` and the string helpers that the client takes from Go's library, on texts as lists of
-- character codes.
use flare_system_client.Prelude.{
  ℕ, ◌+◌, ◌-◌, ◌*◌, Bool, true, false, ◌&&◌, ◌||◌, [], ◌∷◌, Bytes, leb, ◌==◌, if◌then◌else◌, Option,
  none, some,
}

-- The value of a hexadecimal digit, of either case.
unfoldable pub hex_digit : ℕ → Option ℕ
hex_digit c =
    if leb b'0' c && leb c b'9'
    then some (c - b'0')
    else if leb b'a' c && leb c b'f'
    then some (c - b'a' + 10)
    else if leb b'A' c && leb c b'F'
    then some (c - b'A' + 10)
    else none

-- `hex.DecodeString`: two digits a byte; an odd digit or another character is an error.
unfoldable pub hex_decode : Bytes → Option Bytes
unfolding hex_digit
hex_decode [] = some []
hex_decode (a ∷ []) = none
hex_decode (a ∷ (b ∷ rest)) = elim (hex_digit a) [
  | none ↦ none
  | some hi ↦ elim (hex_digit b) [
    | none ↦ none
    | some lo ↦ elim (hex_decode rest) [ none ↦ none | some bytes ↦ some ((16 * hi + lo) ∷ bytes) ]
  ]
]

abbrev pub bytes_eq : Bytes → Bytes → Bool
bytes_eq [] [] = true
bytes_eq [] (y ∷ ys) = false
bytes_eq (x ∷ xs) [] = false
bytes_eq (x ∷ xs) (y ∷ ys) = x == y && bytes_eq xs ys

unfoldable pub has_prefix : Bytes → Bytes → Bool
has_prefix [] s = true
has_prefix (p ∷ ps) [] = false
has_prefix (p ∷ ps) (x ∷ xs) = p == x && has_prefix ps xs

-- `strings.Contains(s, item)`
unfoldable pub has_substring : Bytes → Bytes → Bool
unfolding has_prefix
has_substring item [] = has_prefix item []
has_substring item (x ∷ xs) = has_prefix item (x ∷ xs) || has_substring item xs

-- `strings.TrimPrefix(s, "0x")`
unfoldable pub trim_0x : Bytes → Bytes
trim_0x [] = []
trim_0x (a ∷ []) = a ∷ []
trim_0x (a ∷ (b ∷ rest)) = if a == b'0' && b == b'x' then rest else a ∷ (b ∷ rest)
