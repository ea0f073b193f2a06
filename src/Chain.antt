-- ===== src/Chain.antt =====
-- utils/chain/tx_utils.go: sending a transaction and waiting for it. The Ethereum node is reached by the
-- calls of `EthClient`; an error is its text.
pub mod Sent
use flare_system_client.Prelude.{
  ℕ, [], ◌∷◌, Bool, true, false, ◌==◌, if◌then◌else◌, ◌++◌, Bytes, codes, length, take, drop, ltb,
  Option, none, some, Go, ok, err, panicked, ℤ, pos, ltb_ℤ,
}
use flare_system_client.Prelude.Calls.{Call, return, on_err, ◌>>=◌, ◌>>◌}
use flare_system_client.Utils.Hex.{bytes_eq}
use flare_system_client.Utils.Int64.{eq_ℤ, to_uint64}

-- A transaction of go-ethereum, signed or not yet.
pub record Tx : Type 0 where
  pub nonce : ℕ
  pub to : ℕ
  pub value : ℕ
  pub gas : ℕ
  pub gas_price : ℤ
  pub input : Bytes
  pub signature : Bytes

pub record CallMsg : Type 0 where
  pub sender : ℕ
  pub to : ℕ
  pub gas : ℕ
  pub gas_price : ℤ
  pub value : ℕ
  pub input : Bytes

pub record Receipt : Type 0 where
  pub status : ℕ
  pub block_number : ℕ

-- The methods of `ethclient.Client`, `bind.WaitMined` and the signing of a transaction.
pub record EthClient (W : Type 0) : Type 0 where
  pub nonce_at : ℕ → Call W Bytes ℕ
  pub estimate_gas : CallMsg → Call W Bytes ℕ
  pub suggest_gas_price : Call W Bytes ℤ
  pub network_id : Call W Bytes ℤ
  pub sign_tx : Tx → ℤ → ℕ → Go Bytes Tx
  pub send_transaction : Tx → Call W Bytes (Unit {0})
  pub wait_mined : Tx → Call W Bytes Receipt
  pub call_contract : CallMsg → ℕ → Call W Bytes Bytes
  pub transaction_receipt : Tx → Call W Bytes Receipt

-- `config.GasConfig`. A price that the file does not give is a nil pointer. The multiplier is a
-- floating-point number: none is zero, another is the product with it, rounded to a whole number.
pub record GasConfig : Type 0 where
  pub gas_price_multiplier : Option (ℤ → ℤ)
  pub gas_price_fixed : Option ℤ
  pub gas_limit : ℤ

abbrev pub default_gas_limit : ℕ
default_gas_limit = 2500000

abbrev pub error_sig : Bytes
error_sig = 8 ∷ 195 ∷ 121 ∷ 160 ∷ []

-- A call whose error is passed on by `errors.Wrap`.
unfoldable pub wrapped : {W A : Type 0} → Bytes → Call W Bytes A → Call W Bytes A
wrapped text call = on_err call (λ e. return (err (text ++ (codes ": " ++ e))))

-- `unpackError`, where `unpack` reads an ABI string. The slice expression `result[:4]` panics on a
-- shorter result.
unfoldable pub unpack_error : (Bytes → Option Bytes) → Bytes → Go Bytes Bytes
unpack_error unpack result =
    if ltb (length result) 4
    then panicked
    else if bytes_eq (take 4 result) error_sig
    then elim (unpack (drop 4 result)) [
      | none ↦ err (codes "unpacking revert reason")
      | some reason ↦ ok reason
    ]
    else err (codes "tx result not of type Error(string)")

abbrev pub multiplied : Option (ℤ → ℤ) → ℤ → ℤ
multiplied none price = price
multiplied (some times) price = times price

-- `GetGasPrice`, on the pointer to the fixed price: `Cmp` on a nil pointer panics.
unfoldable pub price_from : {W : Type 0} → Option ℤ → GasConfig → EthClient W → Call W Bytes ℤ
price_from none cfg eth = return panicked
price_from (some fixed) cfg eth =
    if eq_ℤ fixed (pos 0)
    then (wrapped (codes "Unable to estimate gas price") eth.suggest_gas_price >>= λ suggested.
        return (ok (multiplied cfg.gas_price_multiplier suggested)))
    else return (ok fixed)

unfoldable pub get_gas_price : {W : Type 0} → GasConfig → EthClient W → Call W Bytes ℤ
get_gas_price cfg eth = price_from cfg.gas_price_fixed cfg eth

module _ {W : Type 0} (eth : EthClient W) where
  -- The message of `dryRunTx` and `getGasLimit`.
  abbrev pub simple_msg : ℕ → ℕ → ℕ → Bytes → CallMsg
  simple_msg sender to value input = record {
    sender = sender;
    to = to;
    gas = 0;
    gas_price = pos 0;
    value = value;
    input = input;
  }

  unfoldable pub dry_run_tx : ℕ → ℕ → ℕ → Bytes → Call W Bytes (Unit {0})
  dry_run_tx sender to value input =
      eth.estimate_gas (simple_msg sender to value input) >>= λ gas. return (ok tt)

  unfoldable pub get_gas_limit : GasConfig → ℕ → ℕ → ℕ → Bytes → Call W Bytes ℕ
  get_gas_limit cfg sender to value input =
      if eq_ℤ cfg.gas_limit (pos 0)
      then on_err (eth.estimate_gas (simple_msg sender to value input))
          (λ e. return (ok default_gas_limit))
      else return (ok (to_uint64 cfg.gas_limit))

  module _ (unpack : Bytes → Option Bytes) where
    -- `errorReason`: the transaction is called again, in its block.
    unfoldable pub error_reason : ℕ → Tx → ℕ → Call W Bytes Bytes
    error_reason sender tx block =
        wrapped (codes "CallContract") (
          eth.call_contract
            (record {
              sender = sender;
              to = tx.to;
              gas = tx.gas;
              gas_price = tx.gas_price;
              value = tx.value;
              input = tx.input;
            })
            block)
        >>= λ result. return (unpack_error unpack result)

    unfoldable pub wait_until_mined : ℕ → Tx → Call W Bytes (Unit {0})
    wait_until_mined sender tx = wrapped (codes "bind.WaitMined") (eth.wait_mined tx) >>= λ receipt.
        if receipt.status == 1
        then return (ok tt)
        else error_reason sender tx receipt.block_number >>= λ reason.
            return (err (codes "tx failed: " ++ reason))

    -- `SendRawTx` for the key with the address `sender`.
    unfoldable pub send_raw_tx : ℕ → ℕ → ℕ → Bytes → Bool → GasConfig → Call W Bytes (Unit {0})
    send_raw_tx key sender to input dry_run cfg = eth.nonce_at sender >>= λ nonce.
        (if dry_run
          then wrapped (codes "dry run failed") (dry_run_tx sender to 0 input)
          else return (ok tt))
        >> (get_gas_limit cfg sender to 0 input >>= λ gas. get_gas_price cfg eth >>= λ gas_price.
            eth.network_id >>= λ chain_id.
            return (
              eth.sign_tx
                (record {
                  nonce = nonce;
                  to = to;
                  value = 0;
                  gas = gas;
                  gas_price = gas_price;
                  input = input;
                  signature = [];
                })
                chain_id key)
            >>= λ signed.
                eth.send_transaction signed
                >> (wait_until_mined sender signed
                    >> (eth.transaction_receipt signed >>= λ receipt. return (ok tt))))
