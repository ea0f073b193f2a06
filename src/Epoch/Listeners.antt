-- ===== src/Epoch/Listeners.antt =====
-- client/epoch/system_manager_utils.go and relay_utils.go: the listeners for contract events. Each tick
-- asks the database for the logs of a time range, and leaves the start of the next range.
use flare_system_client.Database.{LogRow, ChainLog, fetch_logs, convert_database_log_to_chain_log}
pub mod Appended
pub mod Next
pub mod Merged
use flare_system_client.Utils.Int64.{to_int64}
use flare_system_client.Utils.Epochs.{Epoch, epoch_index, start_time}
use flare_system_client.Prelude.{
  ℕ, Bool, true, false, ◌&&◌, not, List, [], ◌∷◌, ◌++◌, Bytes, if◌then◌else◌, Option, none, some,
  Go, ok, err, panicked, ◌>>=◌, ℤ, pos, ltb_ℤ, ◌-ℤ◌, ◌+ℤ◌,
}

-- The last row of a non-empty list.
abbrev pub last_row : LogRow → List LogRow → LogRow
last_row r [] = r
last_row r (r' ∷ rs) = last_row r' rs

-- The fields that the listeners read of an event.
pub record EpochEvent : Type 0 where
  pub reward_epoch_id : ℤ
  pub event_time : ℕ
  pub threshold_reached : Bool
  pub signing_policy_bytes : Bytes

module _ (hex_to_hash : Bytes → ℕ) (parse : ChainLog → Option EpochEvent) where
  -- The conversion of the row, and the parser of the binding.
  unfoldable pub parse_event : LogRow → Option EpochEvent
  parse_event row = elim (convert_database_log_to_chain_log hex_to_hash row) [
    | none ↦ none
    | some log ↦ parse log
  ]

  -- One tick of `VotePowerBlockSelectedListener` or `SigningPolicyInitializedListener`, on what the
  -- database returns: the event of the last log, if it parses.
  unfoldable pub last_log_tick : Option (List LogRow) → ℤ → Option EpochEvent × ℤ
  last_log_tick none range_start = (none, range_start)
  last_log_tick (some []) range_start = (none, range_start)
  last_log_tick (some (row ∷ rows)) range_start = elim (parse_event (last_row row rows)) [
    | none ↦ (none, range_start)
    | some e ↦ (some e, pos e.event_time)
  ]

  -- The loop over the logs of one tick of `SignUptimeVoteEnabledListener` or `UptimeVoteSignedListener`:
  -- the events that pass the test are sent. A log that does not parse is passed over.
  unfoldable pub all_logs : (EpochEvent → Bool) → List LogRow → ℤ → List EpochEvent × ℤ
  all_logs passes [] range_start = ([], range_start)
  all_logs passes (row ∷ rows) range_start = elim (parse_event row) [
    | none ↦ all_logs passes rows range_start
    | some e ↦
        let rest = all_logs passes rows (pos e.event_time) in
        ((if passes e then e ∷ rest.0 else rest.0), rest.1)
  ]

  unfoldable pub all_logs_tick :
      (EpochEvent → Bool) → Option (List LogRow) → ℤ → List EpochEvent × ℤ
  all_logs_tick passes none range_start = ([], range_start)
  all_logs_tick passes (some rows) range_start = all_logs passes rows range_start

  module _ (passes : EpochEvent → Bool) (address topic0 : Bytes) where
    -- One tick at the time `now`, on the table of the logs.
    unfoldable pub listen : List LogRow → ℤ → ℤ → List EpochEvent × ℤ
    listen rows now range_start =
        all_logs_tick passes (some (fetch_logs rows address topic0 range_start now)) range_start

    -- Several ticks: what all of them send, and the last start.
    unfoldable pub listen_all : List LogRow → List ℤ → ℤ → List EpochEvent × ℤ
    listen_all rows [] range_start = ([], range_start)
    listen_all rows (now ∷ nows) range_start =
        let first = listen rows now range_start in
        let rest = listen_all rows nows first.1 in (first.0 ++ rest.0, rest.1)

-- `RewardEpochId.Int64() >= currentEpoch - window`
abbrev pub in_window : ℤ → ℤ → EpochEvent → Bool
in_window current_epoch window e =
    not (ltb_ℤ (to_int64 e.reward_epoch_id) (current_epoch -ℤ window))

-- The tests of the two listeners.
abbrev pub uptime_enabled_passes : ℤ → ℤ → EpochEvent → Bool
uptime_enabled_passes current_epoch window e = in_window current_epoch window e

abbrev pub uptime_signed_passes : ℤ → ℤ → EpochEvent → Bool
uptime_signed_passes current_epoch window e =
    e.threshold_reached && in_window current_epoch window e

-- The start of the first range: of the epoch before the current one, or of the first epoch of the
-- window.
unfoldable pub first_range_start : {E : Type 0} → Epoch → ℤ → Go E ℤ
first_range_start epoch now =
    epoch_index epoch now >>= λ current. ok (start_time epoch (current -ℤ pos 1))

unfoldable pub window_range_start : {E : Type 0} → Epoch → ℤ → ℤ → Go E ℤ
window_range_start epoch window now =
    epoch_index epoch now >>= λ current. ok (start_time epoch (current -ℤ window +ℤ pos 1))
