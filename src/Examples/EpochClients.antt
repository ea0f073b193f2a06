-- ===== src/Examples/EpochClients.antt =====
-- An epoch client whose contracts take every transaction. The world counts the transactions.
use flare_system_client.Prelude.{
  ℕ, suc, ◌*◌, ◌≢◌, refl, arith, true, false, List, [], ◌∷◌, codes, none, ok, panicked, pos,
}
use flare_system_client.Prelude.Calls.{Takes}
use flare_system_client.Chain.{Tx}
use flare_system_client.Epoch.Signing.{SystemsManagerClient, TransactOpts, sign_new_signing_policy}
use flare_system_client.Epoch.Registry.{RegistryClient}
use flare_system_client.Epoch.Registry as Registry
use flare_system_client.Epoch.Client.{
  EpochClient, Event, vote_power_block_selected, signing_policy_initialized, uptime_vote_signed,
  logged, run_context, register_voter, sign_policy,
}
use flare_system_client.Epoch.Sent.{CountsEpoch, heard, run_context-Takes}
use flare_system_client.Epoch.Future.{ActsOnFuture, only_future_epochs}
use flare_system_client.Examples.Payloads.{toy}
use flare_system_client.Examples.Transactions.{node, sent, node-CountsSent, gas}

abbrev tx : Tx
tx = record { nonce = 1; to = 2; value = 0; gas = 3; gas_price = pos 4; input = []; signature = [] }

abbrev opts : TransactOpts
opts = record { gas_limit = 0; gas_price = none }

abbrev manager : SystemsManagerClient ℕ
manager = record {
  crypto = toy;
  packer = record {
    uptime_vote = λ e h. ok [];
    weight_claims = λ c n. ok [];
    rewards = λ e h r. ok [];
    registration = λ e a. ok [];
  };
  eth = node;
  unpack = λ b. none;
  contract = record {
    sign_new_signing_policy = λ o e h s w. (ok tx, suc w);
    sign_uptime_vote = λ o e h s w. (ok tx, suc w);
    sign_rewards = λ o e c h s w. (ok tx, suc w);
    get_current_reward_epoch_id = λ w. (ok (pos 5), w);
  };
  sender = 20;
  sender_tx_opts = record { read = λ w. opts; write = λ o w. w };
  signer_private_key = 5;
  chain_id = pos 14;
}

abbrev client : EpochClient ℕ
client = record {
  registry_client = record {
    base = manager;
    gas_cfg = gas;
    register_voter = λ o a s w. (ok tx, suc w);
  };
  rewards_source = record {
    decimal = λ n. codes "6";
    is_url = λ p. false;
    http_get = λ p w. (ok [], w);
    read_file = λ p w. (ok [], w);
    unmarshal = λ b. none;
    decode_hex = λ b. none;
  };
  identity_address = 30;
  registration_enabled = true;
  uptime_voting_enabled = false;
  rewards_signing_enabled = true;
  path_prefix = codes "rewards";
}

client-CountsEpoch : CountsEpoch client sent
client-CountsEpoch = record {
  eth = node-CountsSent;
  write_opts = λ o w. refl;
  sign_new_signing_policy = λ o e h s. record { grown = λ w. (omega arith, omega arith) };
  sign_uptime_vote = λ o e h s. record { grown = λ w. (omega arith, omega arith) };
  sign_rewards = λ o e c h s. record { grown = λ w. (omega arith, omega arith) };
  get_current_reward_epoch_id = record { grown = λ w. (omega arith, omega arith) };
  register_voter = λ o a s. record { grown = λ w. (omega arith, omega arith) };
  http_get = λ p. record { grown = λ w. (omega arith, omega arith) };
  read_file = λ p. record { grown = λ w. (omega arith, omega arith) };
}

abbrev events : List Event
events =
    vote_power_block_selected (pos 6)
    ∷ signing_policy_initialized (pos 6) []
    ∷ uptime_vote_signed (pos 5)
    ∷ []

run_context-Takes_example : Takes sent 0 (4 * heard client events) (run_context client events)
run_context-Takes_example = run_context-Takes client sent client-CountsEpoch events

query-calm : (w : ℕ) → (manager.contract.get_current_reward_epoch_id w).0 ≢ panicked
query-calm w = λ e. absurd (ground arith)

only_future_epochs_example :
    ActsOnFuture client
      (pos 6)
      (logged (Registry.register_voter client.registry_client (pos 6) 30))
      (register_voter client (pos 6))
      0
    × ActsOnFuture client
        (pos 6)
        (logged (sign_new_signing_policy manager (pos 6) []))
        (sign_policy client (pos 6) [])
        0
only_future_epochs_example = only_future_epochs client query-calm (pos 6) [] 0
