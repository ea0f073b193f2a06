-- ===== src/Config/Settings.antt =====
-- client/config/client.go: the configuration of the clients, and its defaults. Durations are in nanoseconds.
use flare_system_client.Chain.{GasConfig}
use flare_system_client.Config.{ClientsConfig, validate_config}
use flare_system_client.Finalizer.Context.{FinalizerConfig}
use flare_system_client.Prelude.{
  ℕ, ◌*◌, Bool, true, false, [], Bytes, codes, none, Go, ok, ℤ, pos, ◌>>=◌, ◌≡◌, subst,
  ok-injective, >>=-eq-ok,
}

pub record ChainConfig : Type 0 where
  pub chain_id : ℤ
  pub eth_rpc_url : Bytes
  pub api_key : Bytes

pub record SubmitConfig : Type 0 where
  pub enabled : Bool
  pub start_offset : ℤ
  pub tx_submit_retries : ℤ
  pub data_fetch_retries : ℤ
  pub data_fetch_timeout : ℤ

pub record SubmitSignaturesConfig : Type 0 where
  pub submit_config : SubmitConfig
  pub max_rounds : ℤ

pub record UptimeConfig : Type 0 where
  pub signing_window : ℤ

pub record RewardsConfig : Type 0 where
  pub path_prefix : Bytes
  pub signing_window : ℤ

-- `ClientConfig`; the fields that nothing here reads (the database, the logger, the metrics, the addresses,
-- the credentials and the protocols) are one field of type `R`.
pub record ClientConfig (R : Type 0) : Type 0 where
  pub chain : ChainConfig
  pub clients : ClientsConfig
  pub submit1 : SubmitConfig
  pub submit2 : SubmitConfig
  pub submit_signatures : SubmitSignaturesConfig
  pub finalizer : FinalizerConfig
  pub submit_gas : GasConfig
  pub register_gas : GasConfig
  pub uptime : UptimeConfig
  pub rewards : RewardsConfig
  pub others : R

abbrev pub second : ℕ
second = 1000000000

abbrev pub default_submit_config : SubmitConfig
default_submit_config = record {
  enabled = true;
  start_offset = pos 0;
  tx_submit_retries = pos 0;
  data_fetch_retries = pos 1;
  data_fetch_timeout = pos (5 * second);
}

abbrev pub unset_gas : GasConfig
unset_gas = record { gas_price_multiplier = none; gas_price_fixed = none; gas_limit = pos 0 }

-- `newConfig`, with the zero value of the other fields.
unfoldable pub new_config : {R : Type 0} → R → ClientConfig R
new_config zero_value = record {
  chain = record {
    chain_id = pos 0;
    eth_rpc_url = codes "http://localhost:9650/ext/C/rpc";
    api_key = [];
  };
  clients = record {
    enabled_registration = false;
    enabled_uptime_voting = false;
    enabled_reward_signing = false;
    enabled_protocol_voting = false;
    enabled_finalizer = false;
  };
  submit1 = default_submit_config;
  submit2 = default_submit_config;
  submit_signatures = record { submit_config = default_submit_config; max_rounds = pos 0 };
  finalizer = record {
    starting_reward_epoch = pos 0;
    starting_voting_round = 0;
    start_offset = pos (7 * 24 * 3600 * second);
    voter_threshold_bips = 500;
    grace_period_end_offset = pos 0;
  };
  submit_gas = unset_gas;
  register_gas = unset_gas;
  uptime = record { signing_window = pos 2 };
  rewards = record { path_prefix = []; signing_window = pos 2 };
  others = zero_value;
}

-- What `BuildConfig` does with the configuration that it has read.
unfoldable pub validated : {R : Type 0} → ClientConfig R → Go Bytes (ClientConfig R)
validated cfg = validate_config cfg.submit_gas cfg.register_gas >>= λ valid. ok cfg

-- What is let through has passed the check.
pub validated-valid :
    {R : Type 0} (read cfg : ClientConfig R)
    → validated read ≡ ok cfg
    → validate_config cfg.submit_gas cfg.register_gas ≡ ok tt
unfolding validated
validated-valid {R} read cfg e =
    let (done, valid, same) =
      >>=-eq-ok (validate_config read.submit_gas read.register_gas) (λ valid. ok read) e in
    subst (λ c. validate_config c.submit_gas c.register_gas ≡ ok tt) (ok-injective same) valid
