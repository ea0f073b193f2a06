-- ===== src/Chain/Sent.antt =====
-- utils/chain/tx_utils.go: how many transactions a call of `SendRawTx` sends.
use flare_system_client.Prelude.{ℕ, Bool, Bytes, Option, none, some, ℤ, pos, ◌==◌}
use flare_system_client.Prelude.Calls.{
  Call, Takes, ◌>>=◌, return-Takes, >>=-Takes, on_err-Takes, if-Takes,
}
use flare_system_client.Utils.Int64.{eq_ℤ}
use flare_system_client.Chain.{
  Tx, EthClient, GasConfig, wrapped, dry_run_tx, get_gas_limit, get_gas_price, price_from,
  error_reason, wait_until_mined, send_raw_tx,
}

-- `sent` counts the transactions that the node has taken: `SendTransaction` adds one if it is
-- successful and one at most, and the other methods add none.
pub record CountsSent {W : Type 0} (eth : EthClient W) (sent : W → ℕ) : Type 0 where
  pub nonce_at : (address : ℕ) → Takes sent 0 0 (eth.nonce_at address)
  pub estimate_gas : (msg : _) → Takes sent 0 0 (eth.estimate_gas msg)
  pub suggest_gas_price : Takes sent 0 0 eth.suggest_gas_price
  pub network_id : Takes sent 0 0 eth.network_id
  pub send_transaction : (tx : Tx) → Takes sent 1 1 (eth.send_transaction tx)
  pub wait_mined : (tx : Tx) → Takes sent 0 0 (eth.wait_mined tx)
  pub call_contract : (msg : _) (block : ℕ) → Takes sent 0 0 (eth.call_contract msg block)
  pub transaction_receipt : (tx : Tx) → Takes sent 0 0 (eth.transaction_receipt tx)

module _ {W : Type 0} (eth : EthClient W) (sent : W → ℕ) (laws : CountsSent eth sent) where
  pub wrapped-Takes :
      {A : Type 0} (text : Bytes) (call : Call W Bytes A)
      → Takes sent 0 0 call
      → Takes sent 0 0 (wrapped text call)
  unfolding wrapped
  wrapped-Takes text call t = on_err-Takes sent 0 0 0 call _ t (λ e. return-Takes sent _)

  -- Two calls that send nothing.
  pub quiet-Takes :
      {A B : Type 0} (first : Call W Bytes A) (next : A → Call W Bytes B)
      → Takes sent 0 0 first
      → ((a : A) → Takes sent 0 0 (next a))
      → Takes sent 0 0 (first >>= next)
  quiet-Takes first next t t' = >>=-Takes sent 0 0 0 0 first next t t'

  get_gas_limit-Takes :
      (cfg : GasConfig) (sender to value : ℕ) (input : Bytes)
      → Takes sent 0 0 (get_gas_limit eth cfg sender to value input)
  unfolding get_gas_limit
  get_gas_limit-Takes cfg sender to value input =
      if-Takes sent (eq_ℤ cfg.gas_limit (pos 0)) 0 0 _ _
        (on_err-Takes sent 0 0 0 _ _ (laws.estimate_gas _) (λ e. return-Takes sent _))
        (return-Takes sent _)

  price_from-Takes :
      (fixed : Option ℤ) (cfg : GasConfig) → Takes sent 0 0 (price_from fixed cfg eth)
  unfolding price_from
  price_from-Takes none cfg = return-Takes sent _
  price_from-Takes (some fixed) cfg =
      if-Takes sent (eq_ℤ fixed (pos 0)) 0 0 _ _
        (quiet-Takes _ _ (wrapped-Takes _ _ laws.suggest_gas_price) (λ p. return-Takes sent _))
        (return-Takes sent _)

  pub get_gas_price-Takes : (cfg : GasConfig) → Takes sent 0 0 (get_gas_price cfg eth)
  unfolding get_gas_price
  get_gas_price-Takes cfg = price_from-Takes cfg.gas_price_fixed cfg

  pub wait_until_mined-Takes :
      (unpack : Bytes → Option Bytes) (sender : ℕ) (tx : Tx)
      → Takes sent 0 0 (wait_until_mined eth unpack sender tx)
  unfolding wait_until_mined error_reason
  wait_until_mined-Takes unpack sender tx =
      quiet-Takes _ _ (wrapped-Takes _ _ (laws.wait_mined tx)) (λ receipt.
        if-Takes sent (receipt.status == 1) 0 0 _ _ (return-Takes sent _) (
          quiet-Takes _ _
            (quiet-Takes _ _ (wrapped-Takes _ _ (laws.call_contract _ _))
              (λ r. return-Takes sent _))
            (λ r. return-Takes sent _)))

  -- Whatever the node answers, `SendRawTx` sends one transaction at most; and if it returns no error, it
  -- has sent one.
  pub send_raw_tx-Takes :
      (unpack : Bytes → Option Bytes) (key sender to : ℕ) (input : Bytes) (dry_run : Bool)
      (cfg : GasConfig)
      → Takes sent 1 1 (send_raw_tx eth unpack key sender to input dry_run cfg)
  unfolding send_raw_tx dry_run_tx
  send_raw_tx-Takes unpack key sender to input dry_run cfg =
      >>=-Takes sent 0 0 1 1 _ _ (laws.nonce_at sender) (λ nonce.
        >>=-Takes sent 0 0 1 1 _ _
          (if-Takes sent dry_run 0 0 _ _
            (wrapped-Takes _ _ (quiet-Takes _ _ (laws.estimate_gas _) (λ g. return-Takes sent _)))
            (return-Takes sent _))
          (λ u. >>=-Takes sent 0 0 1 1 _ _ (get_gas_limit-Takes cfg sender to 0 input) (λ gas.
            >>=-Takes sent 0 0 1 1 _ _ (get_gas_price-Takes cfg) (λ price.
              >>=-Takes sent 0 0 1 1 _ _ laws.network_id (λ chain.
                >>=-Takes sent 0 0 1 1 _ _ (return-Takes sent _) (λ signed.
                  >>=-Takes sent 1 1 0 0 _ _ (laws.send_transaction signed) (λ u.
                    quiet-Takes _ _ (wait_until_mined-Takes unpack sender signed) (λ u.
                      quiet-Takes _ _ (laws.transaction_receipt signed)
                        (λ r. return-Takes sent _)))))))))
