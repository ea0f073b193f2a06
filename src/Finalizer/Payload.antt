-- ===== src/Finalizer/Payload.antt =====
-- client/finalizer/finalizer_utils.go: the byte format of `submitSignatures` transactions, and the
-- signatures part of a relay transaction.
pub mod Sliced
pub mod Total
use flare_system_client.Crypto.{Crypto}
use flare_system_client.Prelude.{
  ℕ, zero, suc, ◌+◌, ◌-◌, ◌%◌, Bool, ◌||◌, List, [], ◌∷◌, ◌++◌, Bytes, be_bytes, be_value, ltb, leb,
  ◌==◌, length, get_elem?, must, ◌&&◌, if◌then◌else◌, take, drop, Go, ok, err, panicked, ◌>>=◌,
  ◌>>◌, guard, or_err, ℤ, pos, negsuc, ltb_ℤ,
}

pub data Error : Type 0 where
  payload_too_short invalid_payload_length invalid_quality_score invalid_signature : Error
  too_many_payloads index_not_set not_sorted : Error

pub record SubmittedPayload : Type 0 where
  pub protocol_id : ℕ
  pub voting_round_id : ℕ
  pub random_quality_score : Bool
  pub merkle_root : Bytes

pub record SignedPayload : Type 0 where
  pub type_id : ℕ
  pub message : SubmittedPayload
  pub raw_message : Bytes
  pub signature : Bytes
  pub additional_data : Bytes
  pub signer : ℕ
  pub message_hash : ℕ
  pub index : ℤ

pub record SubmitterPayloadItem : Type 0 where
  pub protocol_id : ℕ
  pub voting_round_id : ℕ
  pub payload : SignedPayload

-- `bs[i]`, which panics out of range.
abbrev pub byte_at : Bytes → ℕ → Go Error ℕ
byte_at bs i = must (get_elem? bs i)

-- `bs[i:j]`, which panics where the bounds are not in order or `j` is behind the end. (Go lets `j` go up
-- to the capacity, which is not known here.)
unfoldable pub slice : Bytes → ℕ → ℕ → Go Error Bytes
slice bs i j = if leb i j && leb j (length bs) then ok (take (j - i) (drop i bs)) else panicked

-- `V || R || S` to `R || S || V - 27`, where the byte wraps around.
unfoldable pub transform_signature : Bytes → Go Error Bytes
transform_signature signature = do
  r ← slice signature 1 33
  s ← slice signature 33 65
  v ← byte_at signature 0
  ok (r ++ (s ++ ((v + 256 - 27) % 256 ∷ [])))

unfoldable pub decode_submitted_payload : Bytes → Go Error SubmittedPayload
decode_submitted_payload payload = do
  guard (leb 38 (length payload)) payload_too_short
  rqs ← byte_at payload 5
  guard (rqs == 0 || rqs == 1) invalid_quality_score
  protocol_id ← byte_at payload 0
  round_bytes ← slice payload 1 5
  merkle_root ← slice payload 6 38
  ok (record {
    protocol_id = protocol_id;
    voting_round_id = be_value round_bytes 0;
    random_quality_score = rqs == 1;
    merkle_root = merkle_root;
  })

module _ (c : Crypto) where
  unfoldable pub decode_signed_payload : Bytes → Go Error SignedPayload
  decode_signed_payload payload = do
    guard (leb 104 (length payload)) payload_too_short
    raw_message ← slice payload 1 39
    message ← decode_submitted_payload raw_message
    signature ← slice payload 39 104
    let message_hash = c.text_hash (c.keccak raw_message)
    transformed ← transform_signature signature
    signer ← or_err (c.recover message_hash transformed) invalid_signature
    type_id ← byte_at payload 0
    ok (record {
      type_id = type_id;
      message = message;
      raw_message = raw_message;
      signature = signature;
      additional_data = drop 104 payload;
      signer = signer;
      message_hash = message_hash;
      index = negsuc 0;
    })

  -- The loop of `DecodeSubmitterPayload`; the bytes are `message[i:]`. Every round takes seven bytes at
  -- least, so their number is fuel enough.
  unfoldable pub decode_items : ℕ → Bytes → Go Error (List SubmitterPayloadItem)
  decode_items fuel [] = ok []
  decode_items zero (b ∷ bs) = panicked
  decode_items (suc fuel) (b ∷ bs) = do
    guard (leb 7 (length (b ∷ bs))) invalid_payload_length
    round_bytes ← slice (b ∷ bs) 1 5
    size_bytes ← slice (b ∷ bs) 5 7
    let payload_length = be_value size_bytes 0
    guard (leb payload_length (length (b ∷ bs) - 7)) payload_too_short
    bytes ← slice (b ∷ bs) 7 (7 + payload_length)
    payload ← decode_signed_payload bytes
    items ← decode_items fuel (drop payload_length (drop 6 bs))
    ok (
        record { protocol_id = b; voting_round_id = be_value round_bytes 0; payload = payload }
        ∷ items)

  -- The loop starts behind the four bytes of the function selector.
  unfoldable pub decode_submitter_payload : Bytes → Go Error (List SubmitterPayloadItem)
  decode_submitter_payload message = decode_items (length message) (drop 4 message)

-- The loop of `EncodeForRelay`, which keeps the index of the payload before.
unfoldable pub encode_loop : ℤ → List SignedPayload → Go Error Bytes
encode_loop prev_index [] = ok []
encode_loop prev_index (p ∷ ps) = elim p.index [
  | negsuc _ ↦ err index_not_set
  | pos i ↦
      guard (ltb_ℤ prev_index (pos i)) not_sorted
      >> (encode_loop (pos i) ps >>= λ rest. ok (p.signature ++ (be_bytes 2 (i % 65536) ++ rest)))
]

unfoldable pub encode_for_relay : List SignedPayload → Go Error Bytes
encode_for_relay payloads = do
  guard (leb (length payloads) 65535) too_many_payloads
  rest ← encode_loop (negsuc 0) payloads
  ok (be_bytes 2 (length payloads) ++ rest)
