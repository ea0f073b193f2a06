-- ===== src/Shared/EpochSettings.antt =====
-- client/shared/epoch_settings.go: the epochs that the contracts define. Times and durations are whole
-- numbers of nanoseconds, without the bounds of `int64`.
use flare_system_client.Prelude.{ℕ, ◌^◌, Bytes, ok, ℤ, pos, ◌*ℤ◌}
use flare_system_client.Prelude.Calls.{Call, return, ◌>>=◌}
use flare_system_client.Utils.Int64.{to_int64}
use flare_system_client.Utils.Epochs.{Epoch, IntEpoch}

-- What is read of the systems manager contract; each is a `uint64`.
pub record ManagerSettings (W : Type 0) : Type 0 where
  pub first_reward_epoch_start_ts : Call W Bytes ℕ
  pub reward_epoch_duration_seconds : Call W Bytes ℕ
  pub first_voting_round_start_ts : Call W Bytes ℕ
  pub voting_epoch_duration_seconds : Call W Bytes ℕ

-- What is used of the fields of `StateData` of the relay contract.
pub record StateData : Type 0 where
  pub first_voting_round_start_ts : ℕ
  pub voting_epoch_duration_seconds : ℕ
  pub first_reward_epoch_start_voting_round_id : ℕ
  pub reward_epoch_duration_in_voting_epochs : ℕ

-- A whole number of seconds, which the source converts to `int64`.
unfoldable pub seconds : ℕ → ℤ
seconds n = to_int64 (pos n) *ℤ pos (10 ^ 9)

unfoldable pub new_epoch : ℤ → ℤ → Epoch
new_epoch start duration = record { start = start; period = duration }

unfoldable pub new_int_epoch : ℤ → ℤ → IntEpoch
new_int_epoch start period = record { start = start; period = period }

module _ {W : Type 0} where
  unfoldable pub reward_epoch_from_chain : ManagerSettings W → Call W Bytes Epoch
  reward_epoch_from_chain fsm = fsm.first_reward_epoch_start_ts >>= λ epoch_start.
      fsm.reward_epoch_duration_seconds >>= λ epoch_period.
      return (ok (record { start = seconds epoch_start; period = seconds epoch_period }))

  unfoldable pub voting_epoch_from_chain : ManagerSettings W → Call W Bytes Epoch
  voting_epoch_from_chain fsm = fsm.first_voting_round_start_ts >>= λ epoch_start.
      fsm.voting_epoch_duration_seconds >>= λ epoch_period.
      return (ok (new_epoch (seconds epoch_start) (seconds epoch_period)))

  unfoldable pub epochs_from_chain : Call W Bytes StateData → Call W Bytes (Epoch × IntEpoch)
  epochs_from_chain state_data = state_data >>= λ sd. return (
      ok (
        new_epoch (seconds sd.first_voting_round_start_ts)
            (seconds sd.voting_epoch_duration_seconds),
        new_int_epoch (pos sd.first_reward_epoch_start_voting_round_id)
            (pos sd.reward_epoch_duration_in_voting_epochs),
      ))
