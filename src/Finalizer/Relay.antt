-- ===== src/Finalizer/Relay.antt =====
-- client/finalizer/relay_utils.go: relay transactions, and the events of the relay contract. `W` is the
-- outside world.
pub mod Calm
use flare_system_client.Prelude.{
  ℕ, Bool, true, false, List, [], ◌∷◌, ◌++◌, Bytes, Option, none, some, ok, err, panicked,
  if◌then◌else◌,
}
use flare_system_client.Prelude.Calls.{Call, return, on_err, ◌>>=◌}
use flare_system_client.Shared.{max_tx_send_retries, is_success, retry_call, exists_as_substring}
use flare_system_client.Finalizer.Payload.{SignedPayload, encode_for_relay}
use flare_system_client.Finalizer.Policies.{SigningPolicy, PolicyData}

-- "Already relayed"
abbrev pub non_fatal_relay_errors : List Bytes
non_fatal_relay_errors =
    (b'A' ∷ b'l' ∷ b'r' ∷ b'e' ∷ b'a' ∷ b'd' ∷ b'y' ∷ b' ' ∷ b'r' ∷ b'e' ∷ b'l' ∷ b'a' ∷ b'y' ∷ b'e'
      ∷ b'd' ∷ [])
    ∷ []

-- A client of the relay contract. `send_raw_tx payload dry_run` is one attempt to send a transaction to
-- it (`SendRawTx` of Chain, which may panic), with the text of the error.
pub record RelayClient (W : Type 0) : Type 0 where
  pub relay_selector : Bytes
  pub sender_address : ℕ
  pub send_raw_tx : Bytes → Bool → Call W Bytes (Unit {0})

-- A log of the database: its place on the chain, and the rest of the row.
pub record Log : Type 0 where
  pub timestamp : ℕ
  pub topics : List Bytes
  pub log_data : Bytes

pub record PolicyResponse : Type 0 where
  pub policy_data : PolicyData
  pub timestamp : ℕ

module _ {W : Type 0} (r : RelayClient W) where
  -- The function that `SubmitPayloads` retries: a harmless error is no error.
  unfoldable pub send_relay : Bytes → Bool → Call W Bytes (Unit {0})
  send_relay payload dry_run = on_err (r.send_raw_tx payload dry_run) (λ text.
      if exists_as_substring non_fatal_relay_errors text then return (ok tt) else return (err text))

  -- The call data of a relay transaction.
  unfoldable pub relay_payload : SignedPayload → List SignedPayload → SigningPolicy → Option Bytes
  relay_payload p ps policy = elim (encode_for_relay (p ∷ ps)) [
    | ok signatures ↦ some (r.relay_selector ++ (policy.raw_bytes ++ (p.raw_message ++ signatures)))
    | err _ ↦ none
    | panicked ↦ none
  ]

  -- `SubmitPayloads`, with whether relaying finished. It waits for the result of the retries, if its
  -- context is not cancelled. A panic in the goroutine of the retries ends the program.
  unfoldable pub submit_payloads :
      List SignedPayload → Option SigningPolicy → Bool → Call W Bytes Bool
  submit_payloads [] policy dry_run = return (ok false)
  submit_payloads (p ∷ ps) none dry_run = return (ok false)
  submit_payloads (p ∷ ps) (some policy) dry_run = elim (relay_payload p ps policy) [
    | none ↦ return (ok false)
    | some payload ↦ retry_call (send_relay payload dry_run) max_tx_send_retries >>= λ status.
        return (ok (is_success status))
  ]

module _ (parse : Log → Option PolicyData) where
  -- `FetchSigningPolicies`, on what the database returns. One log that does not parse is an error.
  unfoldable pub parse_policies : List Log → Option (List PolicyResponse)
  parse_policies [] = some []
  parse_policies (log ∷ logs) = elim (parse log) [
    | none ↦ none
    | some d ↦ elim (parse_policies logs) [
      | none ↦ none
      | some rest ↦ some (record { policy_data = d; timestamp = log.timestamp } ∷ rest)
    ]
  ]

  unfoldable pub fetch_signing_policies : Option (List Log) → Option (List PolicyResponse)
  fetch_signing_policies none = none
  fetch_signing_policies (some logs) = parse_policies logs

  -- What `SigningPolicyInitializedListener` sends for the logs of one tick, and the start of its next
  -- range. It stops at a log that does not parse.
  unfoldable pub listener_logs : List Log → ℕ → List PolicyResponse × ℕ
  listener_logs [] range_start = ([], range_start)
  listener_logs (log ∷ logs) range_start = elim (parse log) [
    | none ↦ ([], range_start)
    | some d ↦
        let rest = listener_logs logs log.timestamp in
        (record { policy_data = d; timestamp = log.timestamp } ∷ rest.0, rest.1)
  ]

  unfoldable pub listener_tick : Option (List Log) → ℕ → List PolicyResponse × ℕ
  listener_tick none range_start = ([], range_start)
  listener_tick (some logs) range_start = listener_logs logs range_start
