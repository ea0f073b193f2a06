-- ===== src/Protocol/RoundTrip.antt =====
-- client/protocol/submitter.go against client/finalizer/finalizer_utils.go: what the signature submitter
-- writes is what the finalizer reads.

use flare_system_client.Crypto.{Crypto, SignLaws}
use flare_system_client.Protocol.Response.{Error, SubProtocolResponse}
use flare_system_client.Protocol.Signatures.{write_payload}
use flare_system_client.Utils.Int64.{to_uint32, to_uint32-lt}
use flare_system_client.Finalizer.Payload.{
  SubmitterPayloadItem, decode_items, decode_submitter_payload,
}
use flare_system_client.Prelude.{
  ℕ, zero, suc, ◌+◌, ◌%◌, ◌≤◌, ◌<◌, ◌≡◌, refl, ◌∙◌, ap, arith, List, [], ◌∷◌, ◌++◌, append_assoc,
  Bytes, be_bytes, be_value, be_value-be_bytes_two, be_value-be_bytes_four, length-be_bytes,
  length-append, drop-append_of_length, length, get_or, some, none, Option, Option-cases, All, map,
  >>=-eq-ok, ok-injective, subst, ok, Go, ◌>>=◌, ℤ, pos, ◌-ℤ◌, inl, inr,
}
use flare_system_client.Protocol.Written.{
  body, payload_of, signed_hash, decode_signed_payload-body, decode_items_round, length-body,
}

-- A response that the verifier lets through, with the quality byte of its message 0 or 1.
pub record IsWritable (r : SubProtocolResponse) : Type 0 where
  pub data_size : length r.data_bytes ≡ 38
  pub quality : get_or r.data_bytes 5 0 < 2
  pub additional_size : length r.additional_data ≤ 65431

-- The bytes of several payloads, in a row.
unfoldable pub write_payloads : Crypto → ℕ → ℤ → List (ℕ × SubProtocolResponse) → Go Error Bytes
write_payloads c key epoch [] = ok []
write_payloads c key epoch ((id, r) ∷ es) = do
  bytes ← write_payload c key epoch r id
  rest ← write_payloads c key epoch es
  ok (bytes ++ rest)

abbrev pub signature_or_nil : Option Bytes → Bytes
signature_or_nil none = []
signature_or_nil (some s) = s

-- What the finalizer makes of one of them.
abbrev pub item_of : Crypto → ℕ → ℕ → ℤ → ℕ × SubProtocolResponse → SubmitterPayloadItem
item_of c signer key epoch (id, r) = record {
  protocol_id = id;
  voting_round_id = to_uint32 (epoch -ℤ pos 1);
  payload =
      payload_of c r.data_bytes (signature_or_nil (c.sign (signed_hash c r.data_bytes) key))
        r.additional_data signer;
}

module _ (c : Crypto) (address_of : ℕ → ℕ) (laws : SignLaws c address_of) (key : ℕ)
    (epoch : ℤ) where
  write_payload-body :
      (id : ℕ) (r : SubProtocolResponse) (bytes : Bytes)
      → write_payload c key epoch r id ≡ ok bytes
      → (s : Bytes) × (c.sign (signed_hash c r.data_bytes) key ≡ some s)
        × (bytes
            ≡ id
              ∷ (be_bytes 4 (to_uint32 (epoch -ℤ pos 1))
                  ++ (be_bytes 2 ((104 + length r.additional_data) % 65536)
                      ++ body r.data_bytes s r.additional_data)))
  unfolding write_payload
  write_payload-body id r bytes e = elim (Option-cases (c.sign (signed_hash c r.data_bytes) key)) [
    | inl n ↦ absurd (ground (arith, n))
    | inr (s, q) ↦ (s, q, ground (arith, q))
  ]

  decode_items-write_payload :
      (fuel id : ℕ) (r : SubProtocolResponse) (bytes rest : Bytes)
      → IsWritable r
      → write_payload c key epoch r id ≡ ok bytes
      → decode_items c (suc fuel) (bytes ++ rest) ≡ (
          decode_items c fuel rest >>= λ items.
          ok (item_of c (address_of key) key epoch (id, r) ∷ items))
  decode_items-write_payload fuel id r bytes rest ok_r e =
      let (s, q, shape) = write_payload-body id r bytes e in
      let round_bytes = be_bytes 4 (to_uint32 (epoch -ℤ pos 1)) in
      let size_bytes = be_bytes 2 ((104 + length r.additional_data) % 65536) in
      let payload = body r.data_bytes s r.additional_data in
      let long = laws.sign-length _ _ s q in
      let assoc : (round_bytes ++ (size_bytes ++ payload)) ++ rest
          ≡ round_bytes ++ (size_bytes ++ (payload ++ rest)) =
        append_assoc round_bytes (size_bytes ++ payload) rest
        ∙ ap (λ l. round_bytes ++ l) (append_assoc size_bytes payload rest) in
      let sized : be_value size_bytes 0 ≡ length payload =
        be_value-be_bytes_two _ (omega arith)
        ∙ omega (
          arith,
          ok_r.additional_size,
          length-body r.data_bytes s r.additional_data ok_r.data_size long,
        ) in
      rw shape (
        ap (λ l. decode_items c (suc fuel) (id ∷ l)) assoc
        ∙ decode_items_round c fuel id round_bytes size_bytes payload rest (length-be_bytes 4 _)
            (length-be_bytes 2 _) sized
        ∙ rw (
          q,
          decode_signed_payload-body r.data_bytes s r.additional_data ok_r.data_size long c
              (address_of key) ok_r.quality (laws.sign-last _ _ s q) (laws.recover-sign _ _ s q),
          be_value-be_bytes_four _ (to_uint32-lt (epoch -ℤ pos 1)),
        ))

  length-write_payload :
      (id : ℕ) (r : SubProtocolResponse) (bytes : Bytes)
      → write_payload c key epoch r id ≡ ok bytes
      → 0 < length bytes
  length-write_payload id r bytes e =
      let (s, q, shape) = write_payload-body id r bytes e in rw shape (omega arith)

  one_more :
      (id : ℕ) (r : SubProtocolResponse) (b rest : Bytes) (items : List SubmitterPayloadItem)
      (fuel : ℕ)
      → IsWritable r
      → write_payload c key epoch r id ≡ ok b
      → length (b ++ rest) ≤ fuel
      → ((f : ℕ) → length rest ≤ f → decode_items c f rest ≡ ok items)
      → decode_items c fuel (b ++ rest) ≡ ok (item_of c (address_of key) key epoch (id, r) ∷ items)
  one_more id r b rest items zero ok_r e enough later =
      absurd (omega (arith, length-append b rest, length-write_payload id r b e))
  one_more id r b rest items (suc fuel) ok_r e enough later =
      let room : length rest ≤ fuel =
        omega (arith, length-append b rest, length-write_payload id r b e) in
      rw (decode_items-write_payload fuel id r b rest ok_r e, later fuel room)

  decode_items-write_payloads :
      (es : List (ℕ × SubProtocolResponse)) (bytes : Bytes)
      → All (λ e. IsWritable e.1) es
      → write_payloads c key epoch es ≡ ok bytes
      → (fuel : ℕ) → length bytes ≤ fuel
      → decode_items c fuel bytes ≡ ok (map (item_of c (address_of key) key epoch) es)
  unfolding write_payloads
  decode_items-write_payloads [] bytes ok_es e fuel enough =
      subst (λ l. decode_items c fuel l ≡ ok []) (ok-injective e) (nothing fuel)
    where
      nothing : (fuel : ℕ) → decode_items c fuel [] ≡ ok []
      nothing zero = unfold decode_items in refl
      nothing (suc fuel) = unfold decode_items in refl
  decode_items-write_payloads ((id, r) ∷ es) bytes ok_es e fuel enough =
      let (b, eb, e') = >>=-eq-ok (write_payload c key epoch r id) _ e in
      let (rest, er, e'') = >>=-eq-ok (write_payloads c key epoch es) _ e' in
      let whole : b ++ rest ≡ bytes = ok-injective e'' in
      subst
        (λ l.
          decode_items c fuel l ≡ ok (map (item_of c (address_of key) key epoch) ((id, r) ∷ es)))
        whole
        (one_more id r b rest _ fuel ok_es.0 eb (rw whole enough)
          (decode_items-write_payloads es rest ok_es.1 er))

  -- Behind any four-byte selector, the finalizer's decoder reads back each payload that the signature
  -- submitter wrote for data that passed its check and whose quality byte is 0 or 1: the protocol, the
  -- round before the current one, the message, the additional data, and as signer the submitter's own
  -- address.
  pub decode_submitter_payload-write_payloads :
      (selector : Bytes) (es : List (ℕ × SubProtocolResponse)) (bytes : Bytes)
      → length selector ≡ 4
      → All (λ e. IsWritable e.1) es
      → write_payloads c key epoch es ≡ ok bytes
      → decode_submitter_payload c (selector ++ bytes)
        ≡ ok (map (item_of c (address_of key) key epoch) es)
  unfolding decode_submitter_payload
  decode_submitter_payload-write_payloads selector es bytes four ok_es e =
      rw (drop-append_of_length 4 selector bytes four) (
        decode_items-write_payloads es bytes ok_es e _
          (omega (arith, length-append selector bytes)))
