-- ===== src/Epoch/Registry.antt =====
-- client/epoch/registry_utils.go: the registration of the voter.
use flare_system_client.Chain.{Tx, GasConfig, get_gas_price, wait_until_mined}
use flare_system_client.Shared.{ExecuteStatus, max_tx_send_retries, retry_call}
use flare_system_client.Epoch.Signing.{
  VrsSignature, vrs_signature, SystemsManagerClient, sign_hash, TransactOpts, reading, writing,
}
use flare_system_client.Utils.Int64.{eq_ℤ, to_uint32, to_uint64}
use flare_system_client.Prelude.{ℕ, Bytes, if◌then◌else◌, ok, ℤ, pos, some}
use flare_system_client.Prelude.Calls.{Call, return, on_err, ◌>>=◌, ◌>>◌}

-- `registryContractClientImpl`. The signer, the node, the sender and the shared options are those of
-- `base`.
pub record RegistryClient (W : Type 0) : Type 0 where
  pub base : SystemsManagerClient W
  pub gas_cfg : GasConfig
  pub register_voter : TransactOpts → ℕ → VrsSignature → Call W Bytes Tx

abbrev pub fallback_gas_price : ℤ
fallback_gas_price = pos 50000000000

-- The options with the configured limit, if it is not 0, and with a price.
abbrev pub with_gas : ℤ → ℤ → TransactOpts → TransactOpts
with_gas limit price opts = record {
  gas_limit = if eq_ℤ limit (pos 0) then opts.gas_limit else to_uint64 limit;
  gas_price = some price;
}

module _ {W : Type 0} (r : RegistryClient W) where
  unfoldable pub create_signature : ℕ → ℕ → Call W Bytes Bytes
  create_signature next_reward_epoch_id address =
      return (r.base.packer.registration next_reward_epoch_id address) >>= λ message.
      return (sign_hash r.base.crypto r.base.signer_private_key (r.base.crypto.keccak message))

  -- Without a price from the node the transaction is sent with the fallback.
  unfoldable pub registration_price : Call W Bytes ℤ
  registration_price =
      on_err (get_gas_price r.gas_cfg r.base.eth) (λ e. return (ok fallback_gas_price))

  unfoldable pub send_register_voter : ℤ → ℕ → Call W Bytes (Unit {0})
  send_register_voter next_reward_epoch_id address =
      create_signature (to_uint32 next_reward_epoch_id) address >>= λ bytes.
      return (vrs_signature bytes) >>= λ signature. registration_price >>= λ gas_price.
      writing r.base.sender_tx_opts (with_gas r.gas_cfg.gas_limit gas_price)
      >> (reading r.base.sender_tx_opts (λ opts. r.register_voter opts address signature)
          >>= wait_until_mined r.base.eth r.base.unpack r.base.sender)

  unfoldable pub register_voter : ℤ → ℕ → Call W Bytes (ExecuteStatus (Unit {0}))
  register_voter next_reward_epoch_id address =
      retry_call (send_register_voter next_reward_epoch_id address) max_tx_send_retries
