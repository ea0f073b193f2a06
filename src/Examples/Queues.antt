-- ===== src/Examples/Queues.antt =====
-- A processor that postpones one item.
use flare_system_client.Prelude.{
  ℕ, ◌≡◌, refl, [], ◌∷◌, some, Bytes, ok, pos, ◌+ℤ◌, ◌*ℤ◌, arith, false,
}
use flare_system_client.Utils.Epochs.{Epoch, start_time_int64, end_time}
use flare_system_client.Utils.DelayedQueue.{put, fire, add, new_delayed_queue_manager}
use flare_system_client.Utils.DelayedQueue as DelayedQueue
use flare_system_client.Utils.Int64.{to_int64, to_uint64}
use flare_system_client.Voters.{
  select_voters, initial_hash_seed, seed_bytes, random_select_threshold_weight_voters, select_loop,
  select_voter_index, binary_search, binary_search_loop,
}
use flare_system_client.Finalizer.Submissions.{SubmissionStorage, get, copy_message}
use flare_system_client.Finalizer.Relay.{RelayClient}
use flare_system_client.Finalizer.Queue.{QueueItem, pop, push, is_voter_for_current_epoch}
use flare_system_client.Finalizer.Client.{FinalizerContext}
use flare_system_client.Finalizer.Processor.{
  Processor, new_processor, run_tick, queued, ticked, timed, fresh, later, relay_time, Reachable,
  ProcessorStep, with_item, with_answer, handle_item, postpone,
}
use flare_system_client.Finalizer.Processor.Steps.{delayed_item-on_time}
use flare_system_client.Examples.Messages.{full_message}
use flare_system_client.Examples.Sorting.{sorter}

abbrev rounds_of_90 : Epoch
rounds_of_90 = record { start = pos 1000; period = pos 90 }

abbrev late_context : FinalizerContext
late_context = record {
  starting_reward_epoch = pos 0;
  starting_voting_round = 0;
  start_time_offset = pos 1000;
  voter_threshold_bips = 500;
  grace_period_end_offset = pos 20;
  voting_epoch = rounds_of_90;
  reward_epoch = record { start = pos 1; period = pos 3360 };
}

abbrev pub no_voter : RelayClient ℕ
no_voter = record {
  relay_selector = 1 ∷ 2 ∷ 3 ∷ 4 ∷ [];
  sender_address = 99;
  send_raw_tx = λ payload dry_run w. (ok tt, w);
}

abbrev constant_hash : Bytes → ℕ
constant_hash b = 1

abbrev one_message : SubmissionStorage
one_message r = some (λ protocol hash. some full_message)

abbrev first_item : QueueItem
first_item = record { seed = some 5; voting_round_id = 0; protocol_id = 1; message_hash = 77 }

abbrev one_queued : Processor
one_queued = record { queue = first_item ∷ []; delayed = new_delayed_queue_manager }

abbrev one_waiting : Processor
one_waiting = record { queue = []; delayed = put new_delayed_queue_manager (pos 1110) first_item }

not_selected :
    is_voter_for_current_epoch constant_hash 5 500 99 one_message first_item ≡ ok (some false)
unfolding is_voter_for_current_epoch get copy_message select_voters initial_hash_seed seed_bytes
    random_select_threshold_weight_voters select_loop select_voter_index binary_search
    binary_search_loop
not_selected = refl

postponed :
    run_tick late_context sorter sorter no_voter constant_hash 5 one_message (pos 1000) one_queued 0
    ≡ ok (some (one_waiting, 0))
unfolding run_tick pop with_item with_answer handle_item postpone get copy_message relay_time add
    start_time_int64 to_int64 to_uint64 ◌+ℤ◌ ◌*ℤ◌
postponed = rw not_selected refl

queue_filled : Reachable late_context sorter sorter no_voter one_queued
unfolding new_processor push
queue_filled =
    later new_processor (pos 0) [] one_queued fresh (queued new_processor (pos 0) first_item)

item_waits : Reachable late_context sorter sorter no_voter one_waiting
item_waits =
    later one_queued (pos 1000) [] one_waiting queue_filled
      (ticked constant_hash 5 one_message (pos 1000) one_queued one_waiting 0 0 postponed)

timer_fires :
    ProcessorStep late_context sorter sorter no_voter one_waiting
      (pos 1110)
      (first_item ∷ [])
      (record one_waiting { delayed = (fire one_waiting.delayed (pos 1110)).1 })
unfolding fire put DelayedQueue.get new_delayed_queue_manager
timer_fires = timed one_waiting (pos 1110) refl

delayed_item-on_time_example : pos 1110 ≡ end_time rounds_of_90 (pos 0) +ℤ pos 20
delayed_item-on_time_example =
    delayed_item-on_time late_context sorter sorter no_voter one_waiting (pos 1110)
      (first_item ∷ []) (record one_waiting { delayed = (fire one_waiting.delayed (pos 1110)).1 }) 0
      first_item item_waits timer_fires refl (omega arith) 90 refl (omega arith)
