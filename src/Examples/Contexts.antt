-- ===== src/Examples/Contexts.antt =====
-- A configuration file that sets the fixed gas prices to 0.
use flare_system_client.Prelude.{ℕ, [], some, ok}
use flare_system_client.Config.Settings.{new_config}
use flare_system_client.Config.Built.{ConfigSource, ClientContext}
use flare_system_client.Examples.Transactions.{gas}

abbrev files : ConfigSource ℕ ℕ
files = record {
  read_config = λ name w. (ok [], w);
  decode = λ content cfg. some (record cfg { submit_gas = gas; register_gas = gas });
  process_env = λ cfg w. (ok cfg, w);
}

abbrev context : ClientContext ℕ ℕ
context = record { config = record (new_config 0) { submit_gas = gas; register_gas = gas }; db = 1 }
