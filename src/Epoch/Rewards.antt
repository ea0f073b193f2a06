-- ===== src/Epoch/Rewards.antt =====
-- client/epoch/rewards_utils.go: the rewards hash of an epoch, from a web server or from a file.
use flare_system_client.Shared.{ExecuteStatus, success, failed, retry_call}
use flare_system_client.Utils.Int64.{eq_ℤ, to_int64}
use flare_system_client.Prelude.{
  ℕ, Bool, [], ◌∷◌, ◌++◌, Bytes, codes, be_value, ◌==◌, if◌then◌else◌, length, Option, none, some,
  Go, ok, err, ℤ,
}
use flare_system_client.Prelude.Calls.{Call, return, ◌>>=◌}

-- `rewardsHash`
pub record RewardsHash : Type 0 where
  pub reward_epoch_id : ℤ
  pub no_of_weight_based_claims : ℤ
  pub merkle_root : Bytes

-- What is outside: the decimal digits of a number, the test for a URL with scheme and host, the web,
-- the file system, `json.Unmarshal` and `hexutil.Decode`.
pub record RewardsSource (W : Type 0) : Type 0 where
  pub decimal : ℤ → Bytes
  pub is_url : Bytes → Bool
  pub http_get : Bytes → Call W Bytes Bytes
  pub read_file : Bytes → Call W Bytes Bytes
  pub unmarshal : Bytes → Option RewardsHash
  pub decode_hex : Bytes → Option Bytes

module _ {W : Type 0} (src : RewardsSource W) where
  abbrev pub fetched : ExecuteStatus Bytes → Go Bytes Bytes
  fetched (success data_bytes) = ok data_bytes
  fetched failed = err (codes "error fetching rewards hash")

  unfoldable pub fetch_rewards_hash_bytes : Bytes → Call W Bytes Bytes
  fetch_rewards_hash_bytes path =
      if src.is_url path
      then (retry_call (src.http_get path) 3 >>= λ result. return (fetched result))
      else src.read_file path

  -- The checks on the content of the file.
  unfoldable pub check_rewards_hash : ℤ → Option RewardsHash → Go Bytes (ℕ × ℤ)
  check_rewards_hash epoch_id none = err (codes "error decoding reward hash file")
  check_rewards_hash epoch_id (some h) =
      if eq_ℤ h.reward_epoch_id (to_int64 epoch_id)
      then elim (src.decode_hex h.merkle_root) [
        | none ↦ err (codes "invalid rewards merkle root")
        | some bytes ↦
            if length bytes == 32
            then ok (be_value bytes 0, h.no_of_weight_based_claims)
            else err (codes "invalid rewards merkle root length")
      ]
      else err (codes "invalid rewards hash epoch id")

  -- `getRewardsHash`, for the prefix of the configuration.
  unfoldable pub get_rewards_hash : ℤ → Bytes → Call W Bytes (ℕ × ℤ)
  get_rewards_hash epoch_id [] = return (err (codes "rewards hash path prefix not set"))
  get_rewards_hash epoch_id (p ∷ ps) =
      fetch_rewards_hash_bytes
        ((p ∷ ps) ++ (codes "/" ++ (src.decimal epoch_id ++ codes "/rewards-hash.json")))
      >>= λ bytes. return (check_rewards_hash epoch_id (src.unmarshal bytes))
