-- ===== src/Finalizer/Relay/Calm.antt =====
-- client/finalizer/relay_utils.go: relaying returns, where sending a transaction does.
use flare_system_client.Prelude.{
  ◌≡◌, ◌≢◌, refl, arith, Bool, false, Bool-cases, List, [], ◌∷◌, Bytes, Option, Option-cases, none,
  some, Go, ok, err, panicked, inl, inr, if◌then◌else◌, ap, ◌∙◌,
}
use flare_system_client.Prelude.Calls.{return, on_err, handled, >>=-ok}
use flare_system_client.Shared.{
  is_success, execute_with_retry, retry_call, max_tx_send_retries, exists_as_substring,
}
use flare_system_client.Shared.Calls.{attempt, retry_call-execute_with_retry}
use flare_system_client.Finalizer.Payload.{SignedPayload}
use flare_system_client.Finalizer.Policies.{SigningPolicy}
use flare_system_client.Finalizer.Relay.{
  RelayClient, non_fatal_relay_errors, send_relay, relay_payload, submit_payloads,
}

handled_harmless :
    {W : Type 0} (left : Go Bytes (Unit {0}) × W)
    → left.0 ≢ panicked
    → (handled left (λ text.
        if exists_as_substring non_fatal_relay_errors text
        then return (ok tt)
        else return (err text))).0
      ≢ panicked
unfolding return
handled_harmless (ok u, w) h = h
handled_harmless (panicked, w) h = h
handled_harmless (err text, w) h =
    elim (Bool-cases (exists_as_substring non_fatal_relay_errors text)) [
      | inl harmless ↦ rw harmless (λ p. absurd (ground arith))
      | inr bad ↦ rw bad (λ p. absurd (ground arith))
    ]

module _ {W : Type 0} (relay : RelayClient W)
    (calm : (payload : Bytes) (dry_run : Bool) (w : W)
      → (relay.send_raw_tx payload dry_run w).0 ≢ panicked) where
  send_relay-calm :
      (payload : Bytes) (dry_run : Bool) (w : W) → (send_relay relay payload dry_run w).0 ≢ panicked
  unfolding send_relay on_err
  send_relay-calm payload dry_run w =
      handled_harmless (relay.send_raw_tx payload dry_run w) (calm payload dry_run w)

  pub submit_payloads-returns :
      (ps : List SignedPayload) (policy : Option SigningPolicy) (dry_run : Bool) (w : W)
      → (done : Bool) × (w' : W) × (submit_payloads relay ps policy dry_run w ≡ (ok done, w'))
  unfolding submit_payloads return
  submit_payloads-returns [] policy dry_run w = (false, w, refl)
  submit_payloads-returns (p ∷ ps) none dry_run w = (false, w, refl)
  submit_payloads-returns (p ∷ ps) (some policy) dry_run w =
      elim (Option-cases (relay_payload relay p ps policy)) [
        | inl e ↦ (false, w, rw (e, submit_payloads) refl)
        | inr (payload, e) ↦
            let send = send_relay relay payload dry_run in
            let (status, w') = execute_with_retry (attempt send) max_tx_send_retries w in
            let returned =
              retry_call-execute_with_retry send (send_relay-calm payload dry_run)
                max_tx_send_retries w in
            (
              is_success status,
              w',
              rw (e, submit_payloads)
                  (>>=-ok (retry_call send max_tx_send_retries) (λ s. return (ok (is_success s))) w
                      status (ap (λ x. x.0) returned)
                    ∙ ap (λ x. (ok (is_success status), x.1)) returned),
            )
      ]
