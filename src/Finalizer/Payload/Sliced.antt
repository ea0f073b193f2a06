-- ===== src/Finalizer/Payload/Sliced.antt =====
-- client/finalizer/finalizer_utils.go: the slices and indices of the decoder are in range behind its tests of
-- the lengths.
use flare_system_client.Crypto.{Crypto}
use flare_system_client.Prelude.{
  ℕ, zero, suc, ◌+◌, ◌-◌, ◌%◌, ◌<◌, ◌≤◌, ◌≡◌, refl, arith, inl, inr, true, Bool-cases, ◌||◌, List,
  [], ◌∷◌, ◌++◌, Bytes, be_value, leb, leb→le, ◌==◌, length, length-take, length-drop, get_or, take,
  drop, Go, ok, ◌>>=◌, ◌>>◌, guard, or_err, negsuc,
}
use flare_system_client.Finalizer.Payload.{
  Error, SubmittedPayload, SignedPayload, SubmitterPayloadItem, byte_at, slice, transform_signature,
  decode_submitted_payload, decode_signed_payload, decode_items, payload_too_short,
  invalid_quality_score, invalid_signature, invalid_payload_length,
}

slice_lem :
    (bs : Bytes) (i j : ℕ)
    → leb i j ≡ true
    → leb j (length bs) ≡ true
    → slice bs i j ≡ ok (take (j - i) (drop i bs))
unfolding slice
slice_lem bs i j h k = rw (h, k) refl

byte_at_lem : (bs : Bytes) (i : ℕ) → i < length bs → byte_at bs i ≡ ok (get_or bs i 0)
byte_at_lem [] i h = absurd (omega arith)
byte_at_lem (b ∷ bs) zero h = refl
byte_at_lem (b ∷ bs) (suc i) h = byte_at_lem bs i (omega arith)

-- What `transformSignature` makes of 65 bytes.
abbrev pub transformed : Bytes → Bytes
transformed s =
    take 32 (drop 1 s) ++ (take 32 (drop 33 s) ++ ((get_or s 0 0 + 256 - 27) % 256 ∷ []))

transform_signature_lem : (s : Bytes) → 65 ≤ length s → transform_signature s ≡ ok (transformed s)
unfolding transform_signature
transform_signature_lem s long =
    rw
      (
        slice_lem s 1 33 refl (ground (arith, long)),
        slice_lem s 33 65 refl (ground (arith, long)),
        byte_at_lem s 0 (omega arith),
      )
      refl

-- What the decoders return, where the bytes that they read are taken without a test.
abbrev pub submitted_of : Bytes → Go Error SubmittedPayload
submitted_of payload = do
  guard (leb 38 (length payload)) payload_too_short
  let rqs = get_or payload 5 0
  guard (rqs == 0 || rqs == 1) invalid_quality_score
  ok (record {
    protocol_id = get_or payload 0 0;
    voting_round_id = be_value (take 4 (drop 1 payload)) 0;
    random_quality_score = rqs == 1;
    merkle_root = take 32 (drop 6 payload);
  })

pub decode_submitted_payload_lem :
    (payload : Bytes) → decode_submitted_payload payload ≡ submitted_of payload
unfolding decode_submitted_payload
decode_submitted_payload_lem payload = elim (Bool-cases (leb 38 (length payload))) [
  | inr short ↦ rw (short, decode_submitted_payload) refl
  | inl long ↦
      rw
        (
          long,
          byte_at_lem payload 5 (ground (arith, long)),
          byte_at_lem payload 0 (ground (arith, long)),
          slice_lem payload 1 5 refl (ground (arith, long)),
          slice_lem payload 6 38 refl (ground (arith, long)),
        )
        refl
]

module _ (c : Crypto) where
  abbrev pub signed_of : Bytes → Go Error SignedPayload
  signed_of payload = do
    guard (leb 104 (length payload)) payload_too_short
    let raw_message = take 38 (drop 1 payload)
    message ← submitted_of raw_message
    let signature = take 65 (drop 39 payload)
    let message_hash = c.text_hash (c.keccak raw_message)
    signer ← or_err (c.recover message_hash (transformed signature)) invalid_signature
    ok (record {
      type_id = get_or payload 0 0;
      message = message;
      raw_message = raw_message;
      signature = signature;
      additional_data = drop 104 payload;
      signer = signer;
      message_hash = message_hash;
      index = negsuc 0;
    })

  signature_size :
      (payload : Bytes) → 104 ≤ length payload → 65 ≤ length (take 65 (drop 39 payload))
  signature_size payload h = omega (arith, length-take 65 (drop 39 payload), length-drop 39 payload)

  pub decode_signed_payload_lem :
      (payload : Bytes) → decode_signed_payload c payload ≡ signed_of payload
  unfolding decode_signed_payload
  decode_signed_payload_lem payload = elim (Bool-cases (leb 104 (length payload))) [
    | inr short ↦ rw (short, decode_signed_payload) refl
    | inl long ↦
        rw
          (
            long,
            slice_lem payload 1 39 refl (ground (arith, long)),
            slice_lem payload 39 104 refl (ground (arith, long)),
            byte_at_lem payload 0 (ground (arith, long)),
            decode_submitted_payload_lem (take 38 (drop 1 payload)),
            transform_signature_lem (take 65 (drop 39 payload))
                (signature_size payload (leb→le 104 (length payload) long)),
          )
          refl
  ]

  abbrev pub items_of : ℕ → ℕ → Bytes → Go Error (List SubmitterPayloadItem)
  items_of fuel b bs = do
    guard (leb 7 (length (b ∷ bs))) invalid_payload_length
    let payload_length = be_value (take 2 (drop 4 bs)) 0
    let rest = drop 6 bs
    guard (leb payload_length (length rest)) payload_too_short
    payload ← decode_signed_payload c (take payload_length rest)
    items ← decode_items c fuel (drop payload_length rest)
    ok (
        record { protocol_id = b; voting_round_id = be_value (take 4 bs) 0; payload = payload }
        ∷ items)

  behind_header : (n : ℕ) → 7 + n - 7 ≡ n
  behind_header n = omega arith

  pub decode_items_lem :
      (fuel b : ℕ) (bs : Bytes) → decode_items c (suc fuel) (b ∷ bs) ≡ items_of fuel b bs
  unfolding decode_items
  decode_items_lem fuel b bs = elim (Bool-cases (leb 7 (length (b ∷ bs)))) [
    | inr short ↦ rw (short, decode_items) refl
    | inl long ↦
        let n = be_value (take 2 (drop 4 bs)) 0 in
        let left : length (b ∷ bs) - 7 ≡ length (drop 6 bs) = omega (arith, length-drop 6 bs) in
        elim (Bool-cases (leb n (length (drop 6 bs)))) [
          | inr little ↦
              rw
                (
                  long,
                  slice_lem (b ∷ bs) 1 5 refl (ground (arith, long)),
                  slice_lem (b ∷ bs) 5 7 refl (ground (arith, long)),
                  left,
                  little,
                )
                refl
          | inl enough ↦
              rw
                (
                  long,
                  slice_lem (b ∷ bs) 1 5 refl (ground (arith, long)),
                  slice_lem (b ∷ bs) 5 7 refl (ground (arith, long)),
                  left,
                  enough,
                  slice_lem (b ∷ bs) 7 (7 + n) (ground arith)
                      (ground (arith, long, enough, length-drop 6 bs)),
                  behind_header n,
                )
                refl
        ]
  ]
