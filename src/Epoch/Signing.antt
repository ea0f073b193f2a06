-- ===== src/Epoch/Signing.antt =====
-- client/epoch/system_manager_utils.go and uptime_utils.go: the signatures for the systems manager
-- contract, and the transactions that carry them.
use flare_system_client.Crypto.{Crypto}
use flare_system_client.Chain.{Tx, EthClient, wait_until_mined}
use flare_system_client.Shared.{ExecuteStatus, max_tx_send_retries, retry_call, exists_as_substring}
use flare_system_client.Epoch.PolicyHash.{signing_policy_hash}
use flare_system_client.Utils.Int64.{to_int64}
use flare_system_client.Prelude.{
  ℕ, ◌+◌, ◌%◌, List, [], ◌∷◌, Bytes, codes, be_value, ltb, if◌then◌else◌, length, get_or, take,
  drop, replicate, Option, none, some, Go, ok, err, panicked, ℤ, or_err,
}
use flare_system_client.Prelude.Calls.{Call, return, on_err, ◌>>=◌}

-- `IFlareSystemsManagerSignature` and `IVoterRegistrySignature`
pub record VrsSignature : Type 0 where
  pub v : ℕ
  pub r : ℕ
  pub s : ℕ

-- The contract's form of a signature `[R || S || V]`. Slices beyond its end panic.
unfoldable pub vrs_signature : Bytes → Go Bytes VrsSignature
vrs_signature signature =
    if ltb (length signature) 65
    then panicked
    else ok (record {
      r = be_value (take 32 signature) 0;
      s = be_value (take 32 (drop 32 signature)) 0;
      v = (get_or signature 64 0 + 27) % 256;
    })

-- The ABI encodings of what is signed, which go-ethereum makes.
pub record Packer : Type 0 where
  pub uptime_vote : ℤ → ℕ → Go Bytes Bytes
  pub weight_claims : ℤ → ℤ → Go Bytes Bytes
  pub rewards : ℤ → ℕ → ℕ → Go Bytes Bytes
  pub registration : ℕ → ℕ → Go Bytes Bytes

-- The fields of `bind.TransactOpts` that the client sets. Without a price, or with the limit 0, the
-- binding asks the node.
pub record TransactOpts : Type 0 where
  pub gas_limit : ℕ
  pub gas_price : Option ℤ

-- The place of a shared object in the world.
pub record Ref (W A : Type 0) : Type 0 where
  pub read : W → A
  pub write : A → W → W

unfoldable pub reading : {W A B : Type 0} → Ref W A → (A → Call W Bytes B) → Call W Bytes B
reading ref next w = next (ref.read w) w

unfoldable pub writing : {W A : Type 0} → Ref W A → (A → A) → Call W Bytes (Unit {0})
writing ref f w = (ok tt, ref.write (f (ref.read w)) w)

-- The binding of the systems manager contract. An epoch id is a `big.Int`.
pub record FlareSystemsManager (W : Type 0) : Type 0 where
  pub sign_new_signing_policy : TransactOpts → ℤ → ℕ → VrsSignature → Call W Bytes Tx
  pub sign_uptime_vote : TransactOpts → ℤ → ℕ → VrsSignature → Call W Bytes Tx
  pub sign_rewards : TransactOpts → ℤ → List (ℤ × ℤ) → ℕ → VrsSignature → Call W Bytes Tx
  pub get_current_reward_epoch_id : Call W Bytes ℤ

-- `systemsManagerContractClientImpl`, with the cryptography and the node. `NewEpochClient` hands the same
-- `senderTxOpts` to this client and to that of the registry. A key is named by a number.
pub record SystemsManagerClient (W : Type 0) : Type 0 where
  pub crypto : Crypto
  pub packer : Packer
  pub eth : EthClient W
  pub unpack : Bytes → Option Bytes
  pub contract : FlareSystemsManager W
  pub sender : ℕ
  pub sender_tx_opts : Ref W TransactOpts
  pub signer_private_key : ℕ
  pub chain_id : ℤ

abbrev pub non_fatal_sign_new_signing_policy_errors : List Bytes
non_fatal_sign_new_signing_policy_errors = codes "new signing policy already signed" ∷ []

abbrev pub non_fatal_sign_uptime_vote_errors : List Bytes
non_fatal_sign_uptime_vote_errors =
    codes "submit uptime vote already ended"
    ∷ codes "voter already signed"
    ∷ codes "uptime vote hash already signed"
    ∷ []

abbrev pub non_fatal_sign_rewards_errors : List Bytes
non_fatal_sign_rewards_errors =
    codes "rewards hash already signed" ∷ codes "voter already signed" ∷ []

-- `crypto.Sign` of the text hash of a hash.
unfoldable pub sign_hash : Crypto → ℕ → ℕ → Go Bytes Bytes
sign_hash c key hash = or_err (c.sign (c.text_hash hash) key) (codes "signing failed")

module _ {W : Type 0} (m : SystemsManagerClient W) where
  -- Waits for the transaction that a contract call made, if it made one.
  unfoldable pub wait_for : Option Tx → Call W Bytes (Unit {0})
  wait_for none = return (ok tt)
  wait_for (some tx) = wait_until_mined m.eth m.unpack m.sender tx

  -- The end of the three signing functions: the transaction of the contract call, its harmless errors,
  -- and the wait for the block.
  unfoldable pub send_and_wait :
      List Bytes → (TransactOpts → Call W Bytes Tx) → Call W Bytes (Unit {0})
  send_and_wait non_fatal call =
      on_err (reading m.sender_tx_opts call >>= λ tx. return (ok (some tx)))
        (λ e. if exists_as_substring non_fatal e then return (ok none) else return (err e))
      >>= wait_for

  unfoldable pub send_sign_new_signing_policy : ℤ → Bytes → Call W Bytes (Unit {0})
  send_sign_new_signing_policy reward_epoch_id policy =
      return (signing_policy_hash m.crypto policy) >>= λ hash.
      return (sign_hash m.crypto m.signer_private_key hash) >>= λ bytes.
      return (vrs_signature bytes) >>= λ signature.
      send_and_wait non_fatal_sign_new_signing_policy_errors
        (λ opts. m.contract.sign_new_signing_policy opts reward_epoch_id hash signature)

  -- `zeroHash`
  unfoldable pub zero_hash : ℕ
  zero_hash = m.crypto.keccak (replicate 32 0)

  unfoldable pub get_uptime_signature : ℤ → Call W Bytes VrsSignature
  get_uptime_signature reward_epoch_id =
      return (m.packer.uptime_vote (to_int64 reward_epoch_id) zero_hash) >>= λ to_sign.
      return (sign_hash m.crypto m.signer_private_key (m.crypto.keccak to_sign)) >>= λ bytes.
      return (vrs_signature bytes)

  unfoldable pub send_sign_uptime_vote : ℤ → Call W Bytes (Unit {0})
  send_sign_uptime_vote reward_epoch_id = get_uptime_signature reward_epoch_id >>= λ signature.
      send_and_wait non_fatal_sign_uptime_vote_errors
        (λ opts. m.contract.sign_uptime_vote opts reward_epoch_id zero_hash signature)

  -- An error of the packer is fatal, and ends the program.
  abbrev pub fatal : {A : Type 0} → Go Bytes A → Go Bytes A
  fatal (ok a) = ok a
  fatal (err e) = panicked
  fatal panicked = panicked

  unfoldable pub encode_rewards_data : ℤ → ℕ → ℤ → Call W Bytes Bytes
  encode_rewards_data epoch_id reward_hash weight_claims =
      return (fatal (m.packer.weight_claims m.chain_id weight_claims)) >>= λ claims.
      return (fatal (m.packer.rewards (to_int64 epoch_id) (m.crypto.keccak claims) reward_hash))

  unfoldable pub send_sign_rewards : ℤ → ℕ → ℤ → Call W Bytes (Unit {0})
  send_sign_rewards epoch_id reward_hash weight_claims =
      encode_rewards_data epoch_id reward_hash weight_claims >>= λ packed.
      return (sign_hash m.crypto m.signer_private_key (m.crypto.keccak packed)) >>= λ bytes.
      return (vrs_signature bytes) >>= λ signature.
      send_and_wait non_fatal_sign_rewards_errors (λ opts.
        m.contract.sign_rewards opts epoch_id ((m.chain_id, weight_claims) ∷ []) reward_hash
          signature)

  unfoldable pub sign_new_signing_policy : ℤ → Bytes → Call W Bytes (ExecuteStatus (Unit {0}))
  sign_new_signing_policy reward_epoch_id policy =
      retry_call (send_sign_new_signing_policy reward_epoch_id policy) max_tx_send_retries

  unfoldable pub sign_uptime_vote : ℤ → Call W Bytes (ExecuteStatus (Unit {0}))
  sign_uptime_vote reward_epoch_id =
      retry_call (send_sign_uptime_vote reward_epoch_id) max_tx_send_retries

  unfoldable pub sign_rewards : ℤ → ℕ → ℤ → Call W Bytes (ExecuteStatus (Unit {0}))
  sign_rewards epoch_id reward_hash weight_claims =
      retry_call (send_sign_rewards epoch_id reward_hash weight_claims) max_tx_send_retries

  unfoldable pub get_current_reward_epoch_id : Call W Bytes (ExecuteStatus ℤ)
  get_current_reward_epoch_id =
      retry_call m.contract.get_current_reward_epoch_id max_tx_send_retries
