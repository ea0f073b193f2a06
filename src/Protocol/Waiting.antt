-- ===== src/Protocol/Waiting.antt =====
-- client/protocol/protocol_client.go: the wait for the registration of the voter.
pub mod Reached
use flare_system_client.Utils.Epochs.{Epoch, epoch_index, start_time}
use flare_system_client.Prelude.{
  ℕ, zero, suc, Bool, true, false, Bytes, if◌then◌else◌, Option, none, some, ok, ℤ, pos, ltb_ℤ,
  ◌-ℤ◌, ◌+ℤ◌,
}
use flare_system_client.Prelude.Calls.{Call, return, on_err, ◌>>=◌, ◌>>◌}

-- What `waitUntilRegistered` uses. `sleep` is `time.After` together with the end of the context, which
-- is an error; `query_retries` is how often the backoff makes another query after an error.
pub record RegistrationWait (W : Type 0) : Type 0 where
  pub reward_epoch : Epoch
  pub time_now : W → ℤ × W
  pub is_voter_registered : ℤ → Call W Bytes Bool
  pub query_retries : ℕ
  pub sleep : ℤ → Call W Bytes (Unit {0})

-- `backoff.RetryNotify`
unfoldable pub retry_notify : {W A : Type 0} → Call W Bytes A → ℕ → Call W Bytes A
retry_notify f zero = f
retry_notify f (suc n) = on_err f (λ e. retry_notify f n)

module _ {W : Type 0} (r : RegistrationWait W) where
  unfoldable pub now : Call W Bytes ℤ
  now w = (ok (r.time_now w).0, (r.time_now w).1)

  unfoldable pub is_registered : ℤ → Call W Bytes Bool
  is_registered epoch = retry_notify (r.is_voter_registered epoch) r.query_retries

  unfoldable pub wait_for_next_reward_epoch : ℤ → Call W Bytes (Unit {0})
  wait_for_next_reward_epoch current_epoch = now >>= λ t.
      if ltb_ℤ (start_time r.reward_epoch (current_epoch +ℤ pos 1)) t
      then return (ok tt)
      else r.sleep (start_time r.reward_epoch (current_epoch +ℤ pos 1) -ℤ t)

  -- `waitUntilRegistered`, for a number of rounds: the epoch for which the voter is registered, or none
  -- if the rounds are over.
  unfoldable pub wait_until_registered : ℕ → Call W Bytes (Option ℤ)
  wait_until_registered zero = return (ok none)
  wait_until_registered (suc rounds) = now >>= λ t.
      return (epoch_index r.reward_epoch t) >>= λ current_epoch.
      is_registered current_epoch >>= λ registered.
      if registered
      then return (ok (some current_epoch))
      else wait_for_next_reward_epoch current_epoch >> wait_until_registered rounds
