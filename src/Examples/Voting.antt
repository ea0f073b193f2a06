-- ===== src/Examples/Voting.antt =====
-- A voter that is registered from the reward epoch 3 on, and the ticks of a listener.
use flare_system_client.Prelude.{
  ℕ, ◌+◌, ◌≤◌, ◌≡◌, refl, ap, arith, Bool, true, false, List, [], ◌∷◌, Bytes, codes, leb, Option,
  some, ok, ℤ, pos, negsuc, pos_part, ◌+ℤ◌, ◌*ℤ◌, ◌≤ℤ◌, get_or,
}
use flare_system_client.Utils.Epochs.{start_time}
use flare_system_client.Utils.Hex.{hex_decode, hex_digit}
use flare_system_client.Database.{LogRow, ChainLog, convert_database_log_to_chain_log, add_topic}
use flare_system_client.Protocol.Waiting.{RegistrationWait, wait_until_registered}
use flare_system_client.Protocol.Waiting.Reached.{IsRegisteredFrom, wait_until_registered-ends}
use flare_system_client.Epoch.Listeners.{EpochEvent, parse_event, listen, listen_all}
use flare_system_client.Epoch.Listeners.Merged.{last_time, listen_all-listen}

abbrev registered_at : ℤ → Bool
registered_at (pos k) = leb 3 k
registered_at (negsuc k) = false

abbrev voter : RegistrationWait ℕ
voter = record {
  reward_epoch = record { start = pos 0; period = pos 10 };
  time_now = λ w. (pos w, w);
  is_voter_registered = λ e w. (ok (registered_at e), w);
  query_retries = 2;
  sleep = λ d w. (ok tt, w + pos_part d);
}

abbrev clock : ℕ → ℤ
clock w = pos w

later_clock : (w : ℕ) (d : ℤ) → pos w +ℤ d ≤ℤ pos (w + pos_part d)
unfolding ◌+ℤ◌
later_clock w (pos n) = ground arith
later_clock w (negsuc n) = ground arith

three_on : (k : ℕ) → 3 ≤ k → leb 3 k ≡ true
three_on k h = ground arith

voter-IsRegisteredFrom : IsRegisteredFrom voter clock 3
voter-IsRegisteredFrom = record {
  time_reads = λ w. omega arith;
  time_passes = λ w. omega arith;
  query_answers = λ e w. (registered_at e, refl, omega arith);
  query_registered = λ k w h. ap ok (three_on k h);
  sleep_ends = λ d w. refl;
  sleep_lasts = λ d w. later_clock w d;
}

at_start : start_time voter.reward_epoch (pos 0) ≤ℤ pos 5
unfolding start_time ◌+ℤ◌ ◌*ℤ◌
at_start = omega arith

wait_until_registered-ends_example :
    (j : ℕ) × (w' : ℕ) × (0 ≤ j) × (wait_until_registered voter 4 5 ≡ (ok (some (pos j)), w'))
wait_until_registered-ends_example =
    wait_until_registered-ends voter clock 3 9 voter-IsRegisteredFrom refl 3 0 5 (omega arith)
      at_start (omega arith)

abbrev row_at : ℕ → Bytes → LogRow
row_at t text = record {
  address = codes "ab";
  hex_data = text;
  topic0 = codes "cd";
  topic1 = codes "NULL";
  topic2 = codes "NULL";
  topic3 = codes "NULL";
  timestamp = t;
}

abbrev rows : List LogRow
rows = row_at 5 (codes "05") ∷ row_at 7 (codes "07") ∷ []

-- The event has the time that the data of the log give.
abbrev parse : ChainLog → Option EpochEvent
parse log = some (record {
  reward_epoch_id = pos 6;
  event_time = get_or log.log_data 0 0;
  threshold_reached = true;
  signing_policy_bytes = [];
})

abbrev no_hash : Bytes → ℕ
no_hash b = 0

abbrev pass : EpochEvent → Bool
pass e = e.threshold_reached

five_parses :
    (e : EpochEvent) × (parse_event no_hash parse (row_at 5 (codes "05")) ≡ some e)
    × (e.event_time ≡ 5)
unfolding parse_event convert_database_log_to_chain_log add_topic hex_decode hex_digit
five_parses = (_, refl, refl)

seven_parses :
    (e : EpochEvent) × (parse_event no_hash parse (row_at 7 (codes "07")) ≡ some e)
    × (e.event_time ≡ 7)
unfolding parse_event convert_database_log_to_chain_log add_topic hex_decode hex_digit
seven_parses = (_, refl, refl)

listen_all-listen_example :
    listen_all no_hash parse pass (codes "ab") (codes "cd") rows (pos 6 ∷ pos 8 ∷ []) (pos 0)
    ≡ listen no_hash parse pass
        (codes "ab")
        (codes "cd")
        rows
        (last_time (pos 6) (pos 8 ∷ []))
        (pos 0)
listen_all-listen_example =
    listen_all-listen no_hash parse pass (codes "ab") (codes "cd") rows (pos 6) (pos 8 ∷ []) (pos 0)
      ((omega arith, tt), (tt, tt)) (λ a. five_parses, (λ a. seven_parses, tt))
      (omega arith, (omega arith, tt))
