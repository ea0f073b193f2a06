-- ===== src/Finalizer/Context.antt =====
-- client/finalizer/finalizer_context.go: the settings of the finalizer, from its configuration and the
-- relay contract. `now` is the time that the call reads from the clock.
use flare_system_client.Prelude.{ℕ, Bytes, true, false, ok, ℤ, ◌==◌}
use flare_system_client.Prelude.Calls.{Call, return, ◌>>=◌}
use flare_system_client.Utils.Int64.{to_uint32}
use flare_system_client.Utils.Epochs.{epoch_index, Epoch}
use flare_system_client.Shared.EpochSettings.{StateData, epochs_from_chain}
use flare_system_client.Finalizer.Client.{FinalizerContext}

-- The section of the configuration.
pub record FinalizerConfig : Type 0 where
  pub starting_reward_epoch : ℤ
  pub starting_voting_round : ℕ
  pub start_offset : ℤ
  pub voter_threshold_bips : ℕ
  pub grace_period_end_offset : ℤ

module _ {W : Type 0} where
  -- The first voting round: the current one, if none is configured.
  unfoldable pub starting_round : FinalizerConfig → ℤ → Epoch → Call W Bytes ℕ
  starting_round cfg now voting_epoch = elim (cfg.starting_voting_round == 0) [
    | true ↦ return (epoch_index voting_epoch now) >>= λ index. return (ok (to_uint32 index))
    | false ↦ return (ok cfg.starting_voting_round)
  ]

  unfoldable pub new_finalizer_context :
      FinalizerConfig → Call W Bytes StateData → ℤ → Call W Bytes FinalizerContext
  new_finalizer_context cfg relay now = epochs_from_chain relay >>= λ epochs.
      starting_round cfg now epochs.0 >>= λ first. return (
        ok (record {
          starting_reward_epoch = cfg.starting_reward_epoch;
          starting_voting_round = first;
          start_time_offset = cfg.start_offset;
          voter_threshold_bips = cfg.voter_threshold_bips;
          grace_period_end_offset = cfg.grace_period_end_offset;
          voting_epoch = epochs.0;
          reward_epoch = epochs.1;
        }))
