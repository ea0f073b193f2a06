-- ===== src/Examples/Transactions.antt =====
-- A node that answers, and transactions sent through it. The world counts the transactions.
use flare_system_client.Prelude.{
  ◌⊎◌, ℕ, suc, ◌≡◌, ◌≢◌, refl, arith, true, [], ◌∷◌, Bytes, codes, Option, none, some, ok, panicked,
  pos,
}
use flare_system_client.Prelude.Calls.{Takes}
use flare_system_client.Chain.{EthClient, GasConfig, send_raw_tx}
use flare_system_client.Chain.Sent.{CountsSent, send_raw_tx-Takes}
use flare_system_client.Config.{
  KeySource, private_key_from_config, trim_space, validate_config, validate_gas_config,
}
use flare_system_client.Config.Keys.{CountsReads, is_allowed, private_key_from_config-guarded}

abbrev pub node : EthClient ℕ
node = record {
  nonce_at = λ a w. (ok 7, w);
  estimate_gas = λ m w. (ok 21000, w);
  suggest_gas_price = λ w. (ok (pos 25), w);
  network_id = λ w. (ok (pos 14), w);
  sign_tx = λ tx chain key. ok tx;
  send_transaction = λ tx w. (ok tt, suc w);
  wait_mined = λ tx w. (ok (record { status = 1; block_number = 3 }), w);
  call_contract = λ m b w. (ok [], w);
  transaction_receipt = λ tx w. (ok (record { status = 1; block_number = 3 }), w);
}

abbrev pub sent : ℕ → ℕ
sent w = w

pub node-CountsSent : CountsSent node sent
node-CountsSent = record {
  nonce_at = λ a. record { grown = λ w. (omega arith, omega arith) };
  estimate_gas = λ m. record { grown = λ w. (omega arith, omega arith) };
  suggest_gas_price = record { grown = λ w. (omega arith, omega arith) };
  network_id = record { grown = λ w. (omega arith, omega arith) };
  send_transaction = λ tx. record { grown = λ w. (omega arith, omega arith) };
  wait_mined = λ tx. record { grown = λ w. (omega arith, omega arith) };
  call_contract = λ m b. record { grown = λ w. (omega arith, omega arith) };
  transaction_receipt = λ tx. record { grown = λ w. (omega arith, omega arith) };
}

abbrev pub gas : GasConfig
gas = record { gas_price_multiplier = none; gas_price_fixed = some (pos 0); gas_limit = pos 0 }

abbrev no_reason : Bytes → Option Bytes
no_reason bytes = none

send_raw_tx-Takes_example : Takes sent 1 1 (send_raw_tx node no_reason 5 20 30 (1 ∷ []) true gas)
send_raw_tx-Takes_example =
    send_raw_tx-Takes node sent node-CountsSent no_reason 5 20 30 (1 ∷ []) true gas

pub gas_valid : validate_config gas gas ≡ ok tt
unfolding validate_config validate_gas_config
gas_valid = refl

pub suggestion-calm : (w : ℕ) → (node.suggest_gas_price w).0 ≢ panicked
suggestion-calm w = λ e. absurd (ground arith)

-- Every variable is "True", and a file has a key.
abbrev keys : KeySource ℕ
keys = record {
  getenv = λ name w. (codes "True", w);
  read_file = λ name w. (ok (codes "0xab"), suc w);
  hex_to_ecdsa = λ text. some 171;
}

keys-CountsReads : CountsReads keys (λ w. w)
keys-CountsReads = record { getenv-reads = λ name w. refl; read_file-reads = λ name w. omega arith }

private_key_from_config-guarded_example :
    ((private_key_from_config keys (codes "key") (codes " ") 0).1 ≡ 0)
    ⊎ ((trim_space (codes " ") ≡ [])
        × (trim_space (codes "key") ≢ [])
        × (is_allowed keys (λ w. w) keys-CountsReads 0 ≡ true)
        × ((private_key_from_config keys (codes "key") (codes " ") 0).1 ≡ 1))
private_key_from_config-guarded_example =
    private_key_from_config-guarded keys (λ w. w) keys-CountsReads (codes "key") (codes " ") 0
