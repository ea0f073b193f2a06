-- ===== src/Protocol/Written.antt =====
-- client/protocol/submitter.go against client/finalizer/finalizer_utils.go: the finalizer reads back
-- what a signature submitter writes.
use flare_system_client.Crypto.{Crypto}
use flare_system_client.Finalizer.Payload.{
  SubmittedPayload, SignedPayload, decode_signed_payload, decode_items,
}
use flare_system_client.Finalizer.Payload.Sliced.{
  transformed, submitted_of, decode_signed_payload_lem, decode_items_lem,
}
use flare_system_client.Prelude.{
  ℕ, suc, ◌+◌, ◌-◌, ◌%◌, ◌<◌, ◌≡◌, refl, sym, ◌∙◌, ap, arith, [], ◌∷◌, ◌++◌, append_assoc, Bytes,
  be_value, length-append, drop-append_of_length, take-append_of_length, take_all, take-append-drop,
  length-take, length-drop, drop-drop, length, get_or, get_or-drop, take, drop, some, take-append,
  drop-append, ok, ◌>>=◌, negsuc, leb, ◌==◌, true,
}

-- A signature `[R || S || V]` and its three parts.
abbrev part_r : Bytes → Bytes
part_r s = take 32 s

abbrev part_s : Bytes → Bytes
part_s s = take 32 (drop 32 s)

module _ (s : Bytes) (size : length s ≡ 65) where
  part_r-length : length (part_r s) ≡ 32
  part_r-length = omega (arith, length-take 32 s)

  part_s-length : length (part_s s) ≡ 32
  part_s-length = omega (arith, length-take 32 (drop 32 s), length-drop 32 s)

  last_part : drop 32 (drop 32 s) ≡ get_or s 64 0 ∷ []
  last_part =
      one _ (omega (arith, length-drop 32 (drop 32 s), length-drop 32 s))
      ∙ ap (λ v. v ∷ []) (get_or-drop 32 (drop 32 s) 0 0 ∙ get_or-drop 32 s 32 0)
    where
      one : (xs : Bytes) → length xs ≡ 1 → xs ≡ get_or xs 0 0 ∷ []
      one [] e = absurd (omega arith)
      one (x ∷ []) e = refl
      one (x ∷ (y ∷ ys)) e = absurd (omega arith)

  rejoined : part_r s ++ (part_s s ++ (get_or s 64 0 ∷ [])) ≡ s
  rejoined =
      rw (← last_part)
        (ap (λ l. part_r s ++ l) (take-append-drop 32 (drop 32 s)) ∙ take-append-drop 32 s)

  -- Moving V to the front and adding 27 is undone by `transformSignature`.
  transformed_back :
      get_or s 64 0 < 2 → transformed ((get_or s 64 0 + 27) % 256 ∷ (part_r s ++ part_s s)) ≡ s
  transformed_back small =
      let first = take-append_of_length 32 (part_r s) (part_s s) part_r-length in
      let second = drop-append_of_length 32 (part_r s) (part_s s) part_r-length in
      let v : ((get_or s 64 0 + 27) % 256 + 256 - 27) % 256 ≡ get_or s 64 0 = omega arith in
      rw (first, second, take_all 32 (part_s s) part_s-length, v) rejoined

-- The bytes of one payload behind the seven bytes of its header.
abbrev pub body : Bytes → Bytes → Bytes → Bytes
body data_bytes s additional =
    0 ∷ (data_bytes ++ ((get_or s 64 0 + 27) % 256 ∷ (part_r s ++ (part_s s ++ additional))))

-- What the finalizer reads of the message bytes.
abbrev pub message_of : Bytes → SubmittedPayload
message_of data_bytes = record {
  protocol_id = get_or data_bytes 0 0;
  voting_round_id = be_value (take 4 (drop 1 data_bytes)) 0;
  random_quality_score = get_or data_bytes 5 0 == 1;
  merkle_root = take 32 (drop 6 data_bytes);
}

-- The message hash that is signed.
abbrev pub signed_hash : Crypto → Bytes → ℕ
signed_hash c data_bytes = c.text_hash (c.keccak data_bytes)

-- The payload that the finalizer makes of the data, for a given signature and signer.
abbrev pub payload_of : Crypto → Bytes → Bytes → Bytes → ℕ → SignedPayload
payload_of c data_bytes s additional signer = record {
  type_id = 0;
  message = message_of data_bytes;
  raw_message = data_bytes;
  signature = (get_or s 64 0 + 27) % 256 ∷ (take 32 s ++ take 32 (drop 32 s));
  additional_data = additional;
  signer = signer;
  message_hash = signed_hash c data_bytes;
  index = negsuc 0;
}

module _ (data_bytes s additional : Bytes) (data_size : length data_bytes ≡ 38)
    (size : length s ≡ 65) where
  pub length-body : length (body data_bytes s additional) ≡ 104 + length additional
  length-body = omega (
    arith,
    length-append data_bytes ((get_or s 64 0 + 27) % 256 ∷ (part_r s ++ (part_s s ++ additional))),
    length-append (part_r s) (part_s s ++ additional),
    length-append (part_s s) additional,
    part_r-length s size,
    part_s-length s size,
  )

  raw_part : take 38 (drop 1 (body data_bytes s additional)) ≡ data_bytes
  raw_part = take-append_of_length 38 data_bytes _ data_size

  behind_data :
      drop 39 (body data_bytes s additional)
      ≡ (get_or s 64 0 + 27) % 256 ∷ ((part_r s ++ part_s s) ++ additional)
  behind_data =
      drop-append_of_length 38 data_bytes _ data_size
      ∙ ap (λ l. (get_or s 64 0 + 27) % 256 ∷ l)
          (sym (append_assoc (part_r s) (part_s s) additional))

  rs_length : length (part_r s ++ part_s s) ≡ 64
  rs_length =
      omega (arith, length-append (part_r s) (part_s s), part_r-length s size, part_s-length s size)

  signature_part :
      take 65 (drop 39 (body data_bytes s additional))
      ≡ (get_or s 64 0 + 27) % 256 ∷ (part_r s ++ part_s s)
  signature_part = rw behind_data (
      ap (λ l. (get_or s 64 0 + 27) % 256 ∷ l)
        (take-append_of_length 64 (part_r s ++ part_s s) additional rs_length))

  additional_part : drop 104 (body data_bytes s additional) ≡ additional
  additional_part =
      sym (drop-drop 39 65 (body data_bytes s additional))
      ∙ rw behind_data (drop-append_of_length 64 (part_r s ++ part_s s) additional rs_length)

  read_message : get_or data_bytes 5 0 < 2 → submitted_of data_bytes ≡ ok (message_of data_bytes)
  read_message quality = ground (arith, data_size)

  pub decode_signed_payload-body :
      (c : Crypto) (signer : ℕ)
      → get_or data_bytes 5 0 < 2
      → get_or s 64 0 < 2
      → c.recover (signed_hash c data_bytes) s ≡ some signer
      → decode_signed_payload c (body data_bytes s additional)
        ≡ ok (payload_of c data_bytes s additional signer)
  decode_signed_payload-body c signer quality small recovered =
      decode_signed_payload_lem c (body data_bytes s additional)
      ∙ rw
          (
            raw_part,
            signature_part,
            additional_part,
            transformed_back s size small,
            read_message quality,
            recovered,
          )
          (ground (arith, length-body))

-- One round of the decoder on a header, its payload and what follows.
pub decode_items_round :
    (c : Crypto) (fuel id : ℕ) (round_bytes size_bytes payload rest : Bytes)
    → length round_bytes ≡ 4
    → length size_bytes ≡ 2
    → be_value size_bytes 0 ≡ length payload
    → decode_items c (suc fuel) (id ∷ (round_bytes ++ (size_bytes ++ (payload ++ rest)))) ≡ (
        decode_signed_payload c payload >>= λ p. decode_items c fuel rest >>= λ items. ok (
          record { protocol_id = id; voting_round_id = be_value round_bytes 0; payload = p }
          ∷ items))
decode_items_round c fuel id round_bytes size_bytes payload rest four two size =
    let all = round_bytes ++ (size_bytes ++ (payload ++ rest)) in
    let round : take 4 all ≡ round_bytes = take-append_of_length 4 round_bytes _ four in
    let behind : drop 4 all ≡ size_bytes ++ (payload ++ rest) =
      drop-append_of_length 4 round_bytes _ four in
    let sized : take 2 (drop 4 all) ≡ size_bytes =
      rw behind (take-append_of_length 2 size_bytes _ two) in
    let tail : drop 6 all ≡ payload ++ rest =
      sym (drop-drop 4 2 all) ∙ rw behind (drop-append_of_length 2 size_bytes _ two) in
    let long : leb 7 (suc (length all)) ≡ true = ground (
      arith,
      length-append round_bytes (size_bytes ++ (payload ++ rest)),
      length-append size_bytes (payload ++ rest),
    ) in
    let fits : leb (length payload) (length (payload ++ rest)) ≡ true =
      ground (arith, length-append payload rest) in
    decode_items_lem c fuel id (round_bytes ++ (size_bytes ++ (payload ++ rest)))
    ∙ rw (long, sized, size, tail, fits, take-append payload rest, drop-append payload rest, round)
        refl
