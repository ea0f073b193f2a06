-- ===== src/Finalizer/Processor.antt =====
-- client/finalizer/finalizer_queue.go: the rounds of the processor of the queue, and the items that wait
-- for the end of the grace period. Times are whole numbers; `now` is the time that a call reads from the
-- clock, and `W` is the outside world.
pub mod Punctual
pub mod Steps
use flare_system_client.Prelude.{
  ℕ, ◌+◌, ◌%◌, ◌^◌, Bool, true, false, List, [], ◌∷◌, Bytes, Option, none, some, Go, ok, err,
  panicked, ◌>>=◌, ℤ, pos, ◌+ℤ◌, ◌≡◌,
}
use flare_system_client.Utils.Epochs.{epoch_index, start_time, start_time_int64}
use flare_system_client.Utils.DelayedQueue.{
  DelayedQueueManager, new_delayed_queue_manager, has_time, add, fire,
}
use flare_system_client.Voters.{Error as VotersError}
use flare_system_client.Finalizer.Payload.{SignedPayload}
use flare_system_client.Finalizer.Submissions.{SubmissionStorage, get}
use flare_system_client.Finalizer.Relay.{RelayClient, Log}
use flare_system_client.Finalizer.Queue.{
  QueueItem, MessageRelayed, Weighed, Sorter, push, pop, process_item, process_delayed,
  protocol_message_relayed, is_voter_for_current_epoch,
}
use flare_system_client.Finalizer.Client.{FinalizerContext}

-- The state of `finalizerQueueProcessor`.
pub record Processor : Type 0 where
  pub queue : List QueueItem
  pub delayed : DelayedQueueManager QueueItem

-- `newFinalizerQueueProcessor`
unfoldable pub new_processor : Processor
new_processor = record { queue = []; delayed = new_delayed_queue_manager }

module _ (ctx : FinalizerContext) where
  -- When an item is relayed that is not relayed in its grace period: the offset counts from the start of the
  -- next voting round. The number of that round is a `uint32`.
  unfoldable pub relay_time : QueueItem → ℤ
  relay_time item =
      start_time_int64 ctx.voting_epoch (pos ((item.voting_round_id + 1) % 2 ^ 32))
      +ℤ ctx.grace_period_end_offset

  -- The branch of `Run` for an item that the sender is not selected for.
  unfoldable pub postpone :
      SubmissionStorage
      → ℤ
      → DelayedQueueManager QueueItem
      → QueueItem
      → DelayedQueueManager QueueItem
  postpone s now delayed item =
      elim (get s item.voting_round_id item.protocol_id item.message_hash) [
        | none ↦ delayed
        | some m ↦ add delayed now (relay_time item) item
      ]

  module _ (by_weight : Sorter Weighed) (by_index : Sorter SignedPayload) {W : Type 0}
      (relay : RelayClient W) where
    -- What `Run` does with an item, by whether the sender is selected for it.
    unfoldable pub handle_item :
        SubmissionStorage
        → ℤ
        → DelayedQueueManager QueueItem
        → QueueItem
        → W
        → Bool
        → Go VotersError (DelayedQueueManager QueueItem × W)
    handle_item s now delayed item w true =
        process_item by_weight by_index relay s item false w >>= λ done. ok (delayed, done.1)
    handle_item s now delayed item w false = ok (postpone s now delayed item, w)

    -- The end of a round of `Run`, for the answer of `isVoterForCurrentEpoch`; `none` if the rounds of
    -- the selection did not suffice.
    unfoldable pub with_answer :
        SubmissionStorage
        → ℤ
        → Processor
        → List QueueItem
        → QueueItem
        → W
        → Option Bool
        → Go VotersError (Option (Processor × W))
    with_answer s now p q item w none = ok none
    with_answer s now p q item w (some selected) =
        handle_item s now p.delayed item w selected >>= λ after.
        ok (some (record { queue = q; delayed = after.0 }, after.1))

    -- The rest of a round of `Run`, for the item that it pops.
    unfoldable pub with_item :
        (Bytes → ℕ)
        → ℕ
        → SubmissionStorage
        → ℤ
        → Processor
        → List QueueItem
        → W
        → Option QueueItem
        → Go VotersError (Option (Processor × W))
    with_item keccak rounds s now p q w none = ok (some (record p { queue = q }, w))
    with_item keccak rounds s now p q w (some item) =
        is_voter_for_current_epoch keccak rounds ctx.voter_threshold_bips relay.sender_address s
          item
        >>= with_answer s now p q item w

    -- One round of the loop of `Run`.
    unfoldable pub run_tick :
        (Bytes → ℕ)
        → ℕ
        → SubmissionStorage
        → ℤ
        → Processor
        → W
        → Go VotersError (Option (Processor × W))
    run_tick keccak rounds s now p w =
        let (popped, q) = pop p.queue in with_item keccak rounds s now p q w popped

    -- `processDelayedQueue`; `fetch` stands for the database, which returns the logs of the relayed
    -- messages between two times. `none` is the error of the database or of a log that does not parse.
    unfoldable pub process_delayed_queue :
        (Log → Option MessageRelayed)
        → (ℤ → ℤ → Option (List Log))
        → SubmissionStorage
        → ℤ
        → List QueueItem
        → W
        → Go VotersError (Option (ℕ × W))
    process_delayed_queue parse fetch s now items w =
        epoch_index ctx.voting_epoch now >>= λ current.
        elim (protocol_message_relayed parse (fetch (start_time ctx.voting_epoch current) now)) [
          | none ↦ ok none
          | some relayed ↦
              process_delayed by_weight by_index relay s relayed items w >>= λ done. ok (some done)
        ]

    -- The steps of the processor, with the items that each gives to `processDelayedQueue`, and their
    -- time: an item is queued, a tick of `Run` ends, or a timer fires.
    pub data ProcessorStep : Processor → ℤ → List QueueItem → Processor → Type 0 where
      queued :
          (p : Processor) (t : ℤ) (item : QueueItem)
          → ProcessorStep p t [] (record p { queue = push p.queue item })
      ticked :
          (keccak : Bytes → ℕ) (rounds : ℕ) (s : SubmissionStorage) (now : ℤ) (p p' : Processor)
          (w w' : W)
          → run_tick keccak rounds s now p w ≡ ok (some (p', w'))
          → ProcessorStep p now [] p'
      timed :
          (p : Processor) (t : ℤ)
          → has_time p.delayed t ≡ true
          → ProcessorStep p t (fire p.delayed t).0 (record p { delayed = (fire p.delayed t).1 })

    -- The states that a new processor comes to.
    pub data Reachable : Processor → Type 0 where
      fresh : Reachable new_processor
      later :
          (p : Processor) (t : ℤ) (items : List QueueItem) (p' : Processor)
          → Reachable p
          → ProcessorStep p t items p'
          → Reachable p'
