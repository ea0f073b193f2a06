-- ===== src/Finalizer/Payload/Total.antt =====
-- client/finalizer/finalizer_utils.go: decoding ends with items or with an error, on any bytes.
use flare_system_client.Prelude.{
  sym, ◌∙◌, ◌≡◌, subst, ℕ, zero, suc, ◌≤◌, ◌≢◌, refl, [], ◌∷◌, Bytes, Bool, true, false, Option,
  none, some, arith, length, drop, length-drop, Go, ok, err, panicked, ◌>>=◌, ◌>>◌, guard, or_err,
  take, leb, be_value,
}
use flare_system_client.Crypto.{Crypto}
use flare_system_client.Finalizer.Payload.Sliced.{
  submitted_of, decode_submitted_payload_lem, decode_signed_payload_lem, decode_items_lem,
}
use flare_system_client.Finalizer.Payload.{
  decode_submitted_payload, decode_signed_payload, decode_items, decode_submitter_payload,
  payload_too_short, invalid_payload_length, invalid_signature,
}

>>=-safe :
    {E A B : Type 0} (m : Go E A) (f : A → Go E B)
    → m ≢ panicked
    → ((a : A) → f a ≢ panicked)
    → (m >>= f) ≢ panicked
>>=-safe (ok a) f h k = k a
>>=-safe (err e) f h k = λ p. absurd (ground arith)
>>=-safe panicked f h k = absurd (h refl)

guarded-safe :
    {E A : Type 0} (b : Bool) (e : E) (m : Go E A) → m ≢ panicked → (guard b e >> m) ≢ panicked
guarded-safe true e m h = h
guarded-safe false e m h = λ p. absurd (ground arith)

or_err-safe :
    {E A B : Type 0} (o : Option A) (e : E) (f : A → Go E B)
    → ((a : A) → f a ≢ panicked)
    → (or_err o e >>= f) ≢ panicked
or_err-safe none e f h = λ p. absurd (ground arith)
or_err-safe (some a) e f h = h a

ok-safe : {E A : Type 0} (a : A) → ◌≢◌ {A = Go E A} (ok a) panicked
ok-safe a p = absurd (ground arith)

decode_submitted_payload-safe : (payload : Bytes) → decode_submitted_payload payload ≢ panicked
decode_submitted_payload-safe payload p = by_shape (sym (decode_submitted_payload_lem payload) ∙ p)
  where
    by_shape : submitted_of payload ≡ panicked → ⊥
    by_shape q = absurd (ground arith)

module _ (c : Crypto) where
  decode_signed_payload-safe : (payload : Bytes) → decode_signed_payload c payload ≢ panicked
  decode_signed_payload-safe payload =
      subst (λ r. r ≢ panicked) (sym (decode_signed_payload_lem c payload))
        (guarded-safe (leb 104 (length payload)) payload_too_short _ (
          >>=-safe (submitted_of (take 38 (drop 1 payload))) _
            (subst (λ r. r ≢ panicked) (decode_submitted_payload_lem (take 38 (drop 1 payload)))
              (decode_submitted_payload-safe _))
            (λ m. or_err-safe (c.recover _ _) invalid_signature _ (λ a. ok-safe _))))

  decode_items-safe : (fuel : ℕ) (bs : Bytes) → length bs ≤ fuel → decode_items c fuel bs ≢ panicked
  unfolding decode_items
  decode_items-safe fuel [] h = ok-safe []
  decode_items-safe zero (b ∷ bs) h = absurd (omega arith)
  decode_items-safe (suc fuel) (b ∷ bs) h =
      let n = be_value (take 2 (drop 4 bs)) 0 in
      subst (λ r. r ≢ panicked) (sym (decode_items_lem c fuel b bs))
        (guarded-safe (leb 7 (length (b ∷ bs))) invalid_payload_length _ (
          guarded-safe (leb n (length (drop 6 bs))) payload_too_short _ (
            >>=-safe (decode_signed_payload c (take n (drop 6 bs))) _ (decode_signed_payload-safe _)
              (λ payload.
                >>=-safe (decode_items c fuel (drop n (drop 6 bs))) _
                  (decode_items-safe fuel (drop n (drop 6 bs))
                    (omega (arith, length-drop n (drop 6 bs), length-drop 6 bs)))
                  (λ items. ok-safe _)))))

  -- On any bytes at all, `DecodeSubmitterPayload` returns items or an error: its loop comes to an end, and
  -- no index or slice that it or the decoders below it take is out of range.
  pub decode_submitter_payload-Total :
      (message : Bytes) → decode_submitter_payload c message ≢ panicked
  unfolding decode_submitter_payload
  decode_submitter_payload-Total message =
      decode_items-safe (length message) (drop 4 message) (omega (arith, length-drop 4 message))
