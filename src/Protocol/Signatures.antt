-- ===== src/Protocol/Signatures.antt =====
-- client/protocol/submitter.go: the submitters, which fetch data in each voting epoch and send it in a
-- transaction. `W` is the outside world: the data providers and the chain.
use flare_system_client.Crypto.{Crypto}
use flare_system_client.Shared.{success, failed, is_success, retry_call}
use flare_system_client.Prelude.Calls as Calls
use flare_system_client.Prelude.Calls.{Call, return}
use flare_system_client.Protocol.Response.{
  Error, signing_failed, SubProtocolResponse, HttpReply, status_ok, verify_signature_data,
  verify_identity, get_data_with_retry,
}
use flare_system_client.Utils.Int64.{to_uint32}
use flare_system_client.Utils.Hex.{bytes_eq}
use flare_system_client.Prelude.{
  ℕ, zero, suc, ◌+◌, ◌%◌, Bool, true, false, List, [], ◌∷◌, ◌++◌, Bytes, be_bytes, ltb,
  if◌then◌else◌, length, get_or, take, drop, Option, none, some, Go, ok, err, panicked, ◌>>=◌,
  or_err, ℤ, pos, ◌-ℤ◌, ◌+ℤ◌,
}

-- `WritePayload`: what it appends to the buffer. The key is that of the signer.
unfoldable pub write_payload : Crypto → ℕ → ℤ → SubProtocolResponse → ℕ → Go Error Bytes
write_payload c key current_epoch r protocol_id = do
  s ← or_err (c.sign (c.text_hash (c.keccak r.data_bytes)) key) signing_failed
  ok (
      protocol_id
      ∷ (be_bytes 4 (to_uint32 (current_epoch -ℤ pos 1))
          ++ (be_bytes 2 ((104 + length r.additional_data) % 65536)
              ++ (0
                  ∷ (r.data_bytes
                      ++ ((get_or s 64 0 + 27) % 256
                          ∷ (take 32 s ++ (take 32 (drop 32 s) ++ r.additional_data))))))))

-- A data provider: its protocol id, and a call of its API.
pub record SubProtocol (W : Type 0) : Type 0 where
  pub id : ℕ
  pub fetch : ℤ → W → Option HttpReply × W

-- What the two submitters share. `send` is one attempt to send a transaction (`SendRawTx` of Chain): it may
-- return an error after the transaction was sent, or panic.
pub record Submitter (W : Type 0) : Type 0 where
  pub selector : Bytes
  pub submit_retries : ℕ
  pub data_fetch_retries : ℕ
  pub send : Bytes → Call W Bytes (Unit {0})

module _ {W : Type 0} (s : Submitter W) where
  -- `submit`: whether an attempt returned no error. A panic in the goroutine of the retries ends the
  -- program.
  unfoldable pub submit : Bytes → Call W Bytes Bool
  submit payload =
      Calls.◌>>=◌ (retry_call (s.send payload) s.submit_retries)
        (λ status. return (ok (is_success status)))

  -- The data of `GetPayload`, with whether any was received. An answer whose status is not "OK" is
  -- passed over.
  unfoldable pub collect_data : ℤ → List (SubProtocol W) → W → (Bool × Bytes) × W
  collect_data epoch [] w = ((false, []), w)
  collect_data epoch (p ∷ ps) w =
      let (result, w') =
        get_data_with_retry verify_identity (p.fetch epoch) s.data_fetch_retries w in
      let rest = collect_data epoch ps w' in
      elim result [
        | failed ↦ rest
        | success r ↦
            if bytes_eq r.status status_ok then ((true, r.data_bytes ++ rest.0.1), rest.1) else rest
      ]

  -- `GetPayload`: no payload if there are no data.
  unfoldable pub get_payload : ℤ → ℤ → List (SubProtocol W) → W → Option Bytes × W
  get_payload epoch_offset current_epoch ps w =
      let (collected, w') = collect_data (current_epoch +ℤ epoch_offset) ps w in
      if collected.0 then (some (s.selector ++ collected.1), w') else (none, w')

  -- `Submitter.RunEpoch`: whether `submit` was called and returned true.
  unfoldable pub run_epoch : ℤ → ℤ → List (SubProtocol W) → Call W Bytes Bool
  run_epoch epoch_offset current_epoch ps w =
      let (payload, w') = get_payload epoch_offset current_epoch ps w in
      elim payload [ none ↦ (ok false, w') | some bytes ↦ submit bytes w' ]

  module _ (c : Crypto) (key : ℕ) (current_epoch : ℤ) where
    -- What one round of `SignatureSubmitter.RunEpoch` writes for the protocols that are still to be
    -- sent, and those of them for which there are no data yet.
    unfoldable pub collect_signed : List (SubProtocol W) → W → (Bytes × List (SubProtocol W)) × W
    collect_signed [] w = (([], []), w)
    collect_signed (p ∷ ps) w =
        let (result, w') =
          get_data_with_retry verify_signature_data (p.fetch (current_epoch -ℤ pos 1))
            s.data_fetch_retries w in
        let rest = collect_signed ps w' in
        elim result [
          | failed ↦ ((rest.0.0, p ∷ rest.0.1), rest.1)
          | success r ↦ elim (write_payload c key current_epoch r p.id) [
            | ok bytes ↦ ((bytes ++ rest.0.0, rest.0.1), rest.1)
            | err _ ↦ ((rest.0.0, p ∷ rest.0.1), rest.1)
            | panicked ↦ ((rest.0.0, p ∷ rest.0.1), rest.1)
          ]
        ]

    -- One round: what is still to be sent after it. A failed transaction leaves all of it.
    unfoldable pub signature_round : List (SubProtocol W) → Call W Bytes (List (SubProtocol W))
    signature_round to_send w =
        let (collected, w') = collect_signed to_send w in
        if ltb (length collected.1) (length to_send)
        then Calls.◌>>=◌ (submit (s.selector ++ collected.0))
            (λ sent. return (ok (if sent then collected.1 else to_send))) w'
        else (ok collected.1, w')

    -- `SignatureSubmitter.RunEpoch`: the rounds go on while there is something to send.
    unfoldable pub signature_rounds : ℕ → List (SubProtocol W) → Call W Bytes (List (SubProtocol W))
    signature_rounds zero to_send = return (ok to_send)
    signature_rounds (suc rounds) [] = return (ok [])
    signature_rounds (suc rounds) (p ∷ ps) =
        Calls.◌>>=◌ (signature_round (p ∷ ps)) (λ to_send. signature_rounds rounds to_send)
