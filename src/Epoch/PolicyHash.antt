-- ===== src/Epoch/PolicyHash.antt =====
-- client/epoch/system_manager_utils.go: the hash of a signing policy. A slice has no room behind its
-- end here, so slicing beyond it is a panic.
use flare_system_client.Crypto.{Crypto}
use flare_system_client.Prelude.{
  ℕ, zero, suc, ◌+◌, ◌-◌, ◌*◌, ◌/◌, ◌%◌, ◌<◌, ◌≤◌, ◌≡◌, refl, sym, ap, ◌∙◌, arith, List, [], ◌∷◌,
  ◌++◌, append_assoc, foldl, Bytes, be_bytes, ltb, ◌==◌, if◌then◌else◌, length, take, drop,
  replicate, length-replicate, ==_iff, length-append, All, take-append_of_length,
  drop-append_of_length, drop-drop, Bool-cases, inl, inr, Go, ok, panicked, false,
}

-- The policy with zeros up to a multiple of 32 bytes.
unfoldable pub padded : Bytes → Bytes
padded policy =
    if length policy % 32 == 0 then policy else policy ++ replicate (32 - length policy % 32) 0

-- The loop, from one hash on, over the next `chunks` pieces of `rest`.
unfoldable pub hash_chunks : Crypto → ℕ → ℕ → Bytes → ℕ
hash_chunks c zero hash rest = hash
hash_chunks c (suc chunks) hash rest =
    hash_chunks c chunks (c.keccak (be_bytes 32 hash ++ take 32 rest)) (drop 32 rest)

unfoldable pub signing_policy_hash : {E : Type 0} → Crypto → Bytes → Go E ℕ
signing_policy_hash c policy =
    let p = padded policy in
    if ltb (length p) 64
    then panicked
    else ok (
        hash_chunks c (length p / 32 - 2) (c.keccak (take 32 p ++ take 32 (drop 32 p))) (drop 64 p))

-- All the bytes of some pieces.
abbrev pub joined : List Bytes → Bytes
joined [] = []
joined (x ∷ xs) = x ++ joined xs

abbrev pub IsChunk : Bytes → Type 0
IsChunk b = length b ≡ 32

-- One piece more: the hash of the hash so far and the piece.
abbrev pub chained : Crypto → ℕ → Bytes → ℕ
chained c hash piece = c.keccak (be_bytes 32 hash ++ piece)

length-joined : (cs : List Bytes) → All IsChunk cs → length (joined cs) ≡ 32 * length cs
length-joined [] h = omega arith
length-joined (x ∷ xs) h = omega (arith, length-append x (joined xs), h.0, length-joined xs h.1)

-- One round of the loop, on a piece and what follows it.
hash_chunks_round :
    (c : Crypto) (n hash : ℕ) (x rest : Bytes)
    → IsChunk x
    → hash_chunks c (suc n) hash (x ++ rest) ≡ hash_chunks c n (chained c hash x) rest
unfolding hash_chunks
hash_chunks_round c n hash x rest h =
    ap (λ l. hash_chunks c n (c.keccak (be_bytes 32 hash ++ l)) (drop 32 (x ++ rest)))
      (take-append_of_length 32 x rest h)
    ∙ ap (hash_chunks c n (chained c hash x)) (drop-append_of_length 32 x rest h)

hash_chunks-joined :
    (c : Crypto) (cs : List Bytes) (hash : ℕ)
    → All IsChunk cs
    → hash_chunks c (length cs) hash (joined cs) ≡ foldl (chained c) hash cs
hash_chunks-joined c [] hash h = unfold hash_chunks in refl
hash_chunks-joined c (x ∷ xs) hash h =
    hash_chunks_round c (length xs) hash x (joined xs) h.0
    ∙ hash_chunks-joined c xs (chained c hash x) h.1

padded-whole : (p : Bytes) → length p % 32 ≡ 0 → padded p ≡ p
unfolding padded
padded-whole p h = rw h refl

whole_policy :
    {E : Type 0} (c : Crypto) (p : Bytes) (n : ℕ)
    → length p ≡ 32 * (2 + n)
    → ◌≡◌ {A = Go E ℕ}
        (signing_policy_hash c p)
        (ok (hash_chunks c n (c.keccak (take 32 p ++ take 32 (drop 32 p))) (drop 64 p)))
unfolding signing_policy_hash
whole_policy c p n size =
    let long : ltb (length p) 64 ≡ false = ground (arith, size) in
    let count : length p / 32 - 2 ≡ n = omega (arith, size) in
    rw (padded-whole p (omega (arith, size)), long, count) refl

-- The hash of a policy that is at least two pieces of 32 bytes: the first two are hashed together, and
-- each further piece is hashed behind the hash before it.
pub signing_policy_hash-chunks :
    {E : Type 0} (c : Crypto) (a b : Bytes) (cs : List Bytes)
    → All IsChunk (a ∷ b ∷ cs)
    → ◌≡◌ {A = Go E ℕ}
        (signing_policy_hash c (joined (a ∷ b ∷ cs)))
        (ok (foldl (chained c) (c.keccak (a ++ b)) cs))
signing_policy_hash-chunks c a b cs h =
    let p = joined (a ∷ b ∷ cs) in
    let behind_a : drop 32 p ≡ b ++ joined cs = drop-append_of_length 32 a _ h.0 in
    let second : take 32 (drop 32 p) ≡ b =
      ap (take 32) behind_a ∙ take-append_of_length 32 b _ h.1.0 in
    let behind_b : drop 64 p ≡ joined cs =
      sym (drop-drop 32 32 p) ∙ ap (drop 32) behind_a ∙ drop-append_of_length 32 b _ h.1.0 in
    whole_policy c p (length cs) (omega (arith, length-joined (a ∷ b ∷ cs) h))
    ∙ rw (take-append_of_length 32 a (b ++ joined cs) h.0, second, behind_b)
        (ap ok (hash_chunks-joined c cs (c.keccak (a ++ b)) h.1.1))

replicate-append :
    (m n : ℕ) → replicate m 0 ++ replicate n 0 ≡ (let l : Bytes = replicate (m + n) 0 in l)
replicate-append zero n = ap (λ j. replicate j 0) (omega arith)
replicate-append (suc m) n =
    ap (λ (l : Bytes). 0 ∷ l) (replicate-append m n) ∙ ap (λ j. replicate j 0) (suc-m m n)
  where
    suc-m : (m n : ℕ) → suc (m + n) ≡ suc m + n
    suc-m m n = omega arith

padded-part : (p : Bytes) → 0 < length p % 32 → padded p ≡ p ++ replicate (32 - length p % 32) 0
unfolding padded
padded-part p h = rw (let no : (length p % 32 == 0) ≡ false = ground arith in no) refl

-- Zeros that complete a piece, or leave it incomplete.
padded-zeros :
    (p : Bytes) (k : ℕ)
    → 0 < length p % 32
    → length p % 32 + k ≤ 32
    → padded (p ++ replicate k 0) ≡ padded p
padded-zeros p k part room =
    let size : length (p ++ replicate k 0) ≡ length p + k =
      length-append p (replicate k 0) ∙ ap (λ j. length p + j) (length-replicate k 0) in
    elim (Bool-cases (length p % 32 + k == 32)) [
      | inl full ↦
          padded-whole (p ++ replicate k 0)
            (let h = ==_iff (length p % 32 + k) 32 in omega (arith, size, h.0 full))
          ∙ ap (λ j. p ++ replicate j 0)
              (let h = ==_iff (length p % 32 + k) 32 in omega (arith, h.0 full))
          ∙ sym (padded-part p part)
      | inr short ↦
          let less : length p % 32 + k < 32 = ground (arith) in
          let rest : length (p ++ replicate k 0) % 32 ≡ length p % 32 + k = omega (arith, size) in
          padded-part (p ++ replicate k 0) (omega (arith, rest))
          ∙ append_assoc p (replicate k 0) _
          ∙ ap (λ l. p ++ l) (replicate-append k _)
          ∙ ap (λ j. p ++ replicate j 0) (omega (arith, rest))
          ∙ sym (padded-part p part)
    ]

-- The bytes that are missing for the last piece count as zeros: the hash does not tell a policy of
-- another length from the same policy with some or all of these zeros.
pub signing_policy_hash-zeros :
    {E : Type 0} (c : Crypto) (p : Bytes) (k : ℕ)
    → 0 < length p % 32
    → length p % 32 + k ≤ 32
    → ◌≡◌ {A = Go E ℕ} (signing_policy_hash c (p ++ replicate k 0)) (signing_policy_hash c p)
signing_policy_hash-zeros c p k part room =
    unfold signing_policy_hash in rw (padded-zeros p k part room) refl
