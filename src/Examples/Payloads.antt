-- ===== src/Examples/Payloads.antt =====
-- A toy signature scheme, and one payload written and read.
use flare_system_client.Finalizer.Payload.Total.{decode_submitter_payload-Total}
use flare_system_client.Prelude.{
  ◌≢◌, ℕ, ◌+◌, ◌<◌, ◌≡◌, refl, ◌∙◌, ap, [], ◌∷◌, ◌++◌, Bytes, be_bytes, be_value, length-be_bytes,
  length-append, length, get_or, get_or-append_right, replicate, take, take-append_of_length,
  Option, some, ok, err, panicked, pos, arith, map, subst,
}
use flare_system_client.Crypto.{Crypto, SignLaws}
use flare_system_client.Finalizer.Payload.{decode_submitter_payload}
use flare_system_client.Protocol.Response.{SubProtocolResponse}
use flare_system_client.Protocol.Signatures.{write_payload}
use flare_system_client.Protocol.RoundTrip.{
  IsWritable, write_payloads, item_of, decode_submitter_payload-write_payloads,
}

abbrev toy_sign : ℕ → ℕ → Bytes
toy_sign hash key = be_bytes 32 key ++ (be_bytes 32 hash ++ (0 ∷ []))

abbrev pub toy : Crypto
toy = record {
  keccak = λ b. 1;
  text_hash = λ h. h;
  recover = λ h s. some (be_value (take 32 s) 0);
  sign = λ h k. some (toy_sign h k);
}

abbrev toy_address : ℕ → ℕ
toy_address key = be_value (be_bytes 32 key) 0

toy_sign-length : (h k : ℕ) → length (toy_sign h k) ≡ 65
toy_sign-length h k = omega (
  arith,
  length-append (be_bytes 32 k) (be_bytes 32 h ++ (0 ∷ [])),
  length-append (be_bytes 32 h) (0 ∷ []),
  length-be_bytes 32 k,
  length-be_bytes 32 h,
)

some-eq : {s t : Bytes} → ◌≡◌ {A = Option Bytes} (some s) (some t) → s ≡ t
some-eq e = cc

behind : (n i : ℕ) (xs ys : Bytes) → length xs ≡ n → get_or (xs ++ ys) (n + i) 0 ≡ get_or ys i 0
behind n i xs ys e =
    subst (λ m. get_or (xs ++ ys) (m + i) 0 ≡ get_or ys i 0) e (get_or-append_right xs ys i 0)

toy_sign-last : (h k : ℕ) → get_or (toy_sign h k) 64 0 ≡ 0
toy_sign-last h k =
    behind 32 32 (be_bytes 32 k) (be_bytes 32 h ++ (0 ∷ [])) (length-be_bytes 32 k)
    ∙ behind 32 0 (be_bytes 32 h) (0 ∷ []) (length-be_bytes 32 h)

toy-laws : SignLaws toy toy_address
toy-laws = record {
  sign-length = λ h k s e. subst (λ (b : Bytes). length b ≡ 65) (some-eq e) (toy_sign-length h k);
  sign-last = λ h k s e.
      subst (λ (b : Bytes). get_or b 64 0 < 2) (some-eq e) (omega (arith, toy_sign-last h k));
  recover-sign = λ h k s e.
      ap (λ b. some (be_value b 0))
        (subst (λ (b : Bytes). take 32 b ≡ be_bytes 32 k) (some-eq e)
          (take-append_of_length 32 (be_bytes 32 k) (be_bytes 32 h ++ (0 ∷ []))
            (length-be_bytes 32 k)));
}

abbrev response : SubProtocolResponse
response = record { data_bytes = replicate 38 1; additional_data = 9 ∷ 8 ∷ []; status = [] }

response-IsWritable : IsWritable response
response-IsWritable = record {
  data_size = refl;
  quality = omega arith;
  additional_size = omega arith;
}

abbrev pub written : Bytes
written = elim (write_payloads toy 5 (pos 100) ((1, response) ∷ [])) [
  | ok bytes ↦ bytes
  | err _ ↦ []
  | panicked ↦ []
]

written_lem : write_payloads toy 5 (pos 100) ((1, response) ∷ []) ≡ ok written
unfolding write_payloads write_payload
written_lem = refl

decode_submitter_payload-write_payloads_example :
    decode_submitter_payload toy ((1 ∷ 2 ∷ 3 ∷ 4 ∷ []) ++ written)
    ≡ ok (map (item_of toy (toy_address 5) 5 (pos 100)) ((1, response) ∷ []))
decode_submitter_payload-write_payloads_example =
    decode_submitter_payload-write_payloads toy toy_address toy-laws 5 (pos 100)
      (1 ∷ 2 ∷ 3 ∷ 4 ∷ []) ((1, response) ∷ []) written refl (response-IsWritable, tt) written_lem

decode_submitter_payload-Total_example :
    decode_submitter_payload toy ((1 ∷ 2 ∷ 3 ∷ 4 ∷ []) ++ written) ≢ panicked
decode_submitter_payload-Total_example =
    decode_submitter_payload-Total toy ((1 ∷ 2 ∷ 3 ∷ 4 ∷ []) ++ written)
