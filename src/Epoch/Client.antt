-- ===== src/Epoch/Client.antt =====
-- client/epoch/epoch_client.go: what the epoch client does on each event.
use flare_system_client.Shared.{ExecuteStatus, success, failed}
use flare_system_client.Epoch.Signing.{
  SystemsManagerClient, sign_new_signing_policy, sign_uptime_vote, sign_rewards,
  get_current_reward_epoch_id,
}
use flare_system_client.Epoch.Registry.{RegistryClient, register_voter as send_registration}
use flare_system_client.Epoch.Rewards.{RewardsSource, get_rewards_hash}
use flare_system_client.Prelude.{ℕ, Bool, false, List, [], ◌∷◌, Bytes, if◌then◌else◌, ok, ℤ, ltb_ℤ}
use flare_system_client.Prelude.Calls.{Call, return, on_err, ◌>>=◌, ◌>>◌}

pub record EpochClient (W : Type 0) : Type 0 where
  pub registry_client : RegistryClient W
  pub rewards_source : RewardsSource W
  pub identity_address : ℕ
  pub registration_enabled : Bool
  pub uptime_voting_enabled : Bool
  pub rewards_signing_enabled : Bool
  pub path_prefix : Bytes

-- What arrives on the channels of the four listeners.
pub data Event : Type 0 where
  vote_power_block_selected : ℤ → Event
  signing_policy_initialized : ℤ → Bytes → Event
  sign_uptime_vote_enabled : ℤ → Event
  uptime_vote_signed : ℤ → Event

-- The end of an action: success and failure are only logged, an error too.
abbrev pub logged : {W A : Type 0} → Call W Bytes A → Call W Bytes (Unit {0})
logged call = on_err (call >>= λ a. return (ok tt)) (λ e. return (ok tt))

module _ {W : Type 0} (c : EpochClient W) where
  abbrev pub systems_manager : SystemsManagerClient W
  systems_manager = c.registry_client.base

  abbrev pub is_after : ℤ → ExecuteStatus ℤ → Bool
  is_after epoch_id (success current) = ltb_ℤ current epoch_id
  is_after epoch_id failed = false

  unfoldable pub is_future_epoch : ℤ → Call W Bytes Bool
  is_future_epoch epoch_id = get_current_reward_epoch_id systems_manager >>= λ status.
      return (ok (is_after epoch_id status))

  unfoldable pub register_voter : ℤ → Call W Bytes (Unit {0})
  register_voter epoch_id = is_future_epoch epoch_id >>= λ future.
      if future
      then logged (send_registration c.registry_client epoch_id c.identity_address)
      else return (ok tt)

  unfoldable pub sign_policy : ℤ → Bytes → Call W Bytes (Unit {0})
  sign_policy epoch_id policy = is_future_epoch epoch_id >>= λ future.
      if future
      then logged (sign_new_signing_policy systems_manager epoch_id policy)
      else return (ok tt)

  unfoldable pub sign_uptime : ℤ → Call W Bytes (Unit {0})
  sign_uptime epoch_id = logged (sign_uptime_vote systems_manager epoch_id)

  -- `signRewards`: an error of the rewards hash ends it.
  unfoldable pub sign_epoch_rewards : ℤ → Call W Bytes (Unit {0})
  sign_epoch_rewards epoch_id = logged (
      get_rewards_hash c.rewards_source epoch_id c.path_prefix >>= λ hash.
      sign_rewards systems_manager epoch_id hash.0 hash.1)

  -- Whether the listener of an event runs. The channel of one that does not run is nil, and nothing
  -- arrives on it.
  abbrev pub listens : Event → Bool
  listens (vote_power_block_selected epoch_id) = c.registration_enabled
  listens (signing_policy_initialized epoch_id policy) = c.registration_enabled
  listens (sign_uptime_vote_enabled epoch_id) = c.uptime_voting_enabled
  listens (uptime_vote_signed epoch_id) = c.rewards_signing_enabled

  -- One case of the `select` in `RunContext`.
  unfoldable pub handle_event : Event → Call W Bytes (Unit {0})
  handle_event (vote_power_block_selected epoch_id) = register_voter epoch_id
  handle_event (signing_policy_initialized epoch_id policy) = sign_policy epoch_id policy
  handle_event (sign_uptime_vote_enabled epoch_id) = sign_uptime epoch_id
  handle_event (uptime_vote_signed epoch_id) = sign_epoch_rewards epoch_id

  -- The loop of `RunContext`, over the events that occur until it is cancelled.
  unfoldable pub run_context : List Event → Call W Bytes (Unit {0})
  run_context [] = return (ok tt)
  run_context (e ∷ es) = if listens e then (handle_event e >> run_context es) else run_context es
