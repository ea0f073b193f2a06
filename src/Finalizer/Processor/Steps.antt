-- ===== src/Finalizer/Processor/Steps.antt =====
-- client/finalizer/finalizer_queue.go: what the steps of the processor keep.
use flare_system_client.Prelude.{
  ℕ, ◌≡◌, Bool, true, false, List, Bytes, Option, none, some, ok, >>=-eq-ok, All, ℤ, ap, subst,
  ok-injective, some-injective, All-at, sym, ◌∙◌, ◌+◌, ◌*◌, ◌<◌, ◌^◌, ◌%◌, get_elem?, pos, ◌+ℤ◌,
  arith,
}
use flare_system_client.Utils.Epochs.{start_time, start_time_int64, end_time}
use flare_system_client.Utils.Epochs.Located.{start_time_int64_lem}
use flare_system_client.Utils.DelayedQueue.{
  DelayedQueueManager, add, fire, get, new_delayed_queue_manager,
}
use flare_system_client.Finalizer.Payload.{SignedPayload}
use flare_system_client.Finalizer.Submissions as Submissions
use flare_system_client.Finalizer.Submissions.{SubmissionStorage}
use flare_system_client.Finalizer.Relay.{RelayClient}
use flare_system_client.Finalizer.Queue.{
  QueueItem, Weighed, Sorter, pop, process_item, is_voter_for_current_epoch,
}
use flare_system_client.Finalizer.Client.{FinalizerContext}
use flare_system_client.Finalizer.Processor.{
  Processor, relay_time, postpone, handle_item, with_answer, with_item, run_tick, ProcessorStep,
  queued, ticked, timed, new_processor, Reachable, fresh, later,
}
use flare_system_client.Finalizer.Processor.Punctual.{
  AllPunctual, add-AllPunctual, fire-AllPunctual,
}

next_round : (n : ℕ) → n + 1 < 2 ^ 32 → pos ((n + 1) % 2 ^ 32) ≡ pos n +ℤ pos 1
unfolding ◌+ℤ◌
next_round n small = ground arith

relay_time-end :
    (ctx : FinalizerContext) (item : QueueItem) (period : ℕ)
    → item.voting_round_id + 1 < 2 ^ 32
    → ctx.voting_epoch.period ≡ pos period
    → (item.voting_round_id + 1) * period < 2 ^ 63
    → relay_time ctx item
      ≡ end_time ctx.voting_epoch (pos item.voting_round_id) +ℤ ctx.grace_period_end_offset
unfolding relay_time end_time
relay_time-end ctx item period small length_of fits =
    let round : (item.voting_round_id + 1) % 2 ^ 32 ≡ item.voting_round_id + 1 = omega arith in
    ap (λ n. n +ℤ ctx.grace_period_end_offset)
      (ap (λ k. start_time_int64 ctx.voting_epoch (pos k)) round
        ∙ start_time_int64_lem ctx.voting_epoch period (item.voting_round_id + 1) length_of fits
        ∙ ap (start_time ctx.voting_epoch)
            (sym (ap pos round) ∙ next_round item.voting_round_id small))

module _ (ctx : FinalizerContext) where
  postpone-AllPunctual :
      (s : SubmissionStorage) (now : ℤ) (q : DelayedQueueManager QueueItem) (item : QueueItem)
      → AllPunctual (relay_time ctx) q
      → AllPunctual (relay_time ctx) (postpone ctx s now q item)
  unfolding postpone
  postpone-AllPunctual s now q item h =
      elim (Submissions.get s item.voting_round_id item.protocol_id item.message_hash)
        as (λ found.
          AllPunctual (relay_time ctx)
            (elim found [ none ↦ q | some m ↦ add q now (relay_time ctx item) item ])) [
              | none ↦ h
              | some m ↦ add-AllPunctual (relay_time ctx) q now item h
            ]

  module _ (by_weight : Sorter Weighed) (by_index : Sorter SignedPayload) {W : Type 0}
      (relay : RelayClient W) where
    handle_item-AllPunctual :
        (s : SubmissionStorage) (now : ℤ) (q q' : DelayedQueueManager QueueItem) (item : QueueItem)
        (w w' : W) (b : Bool)
        → handle_item ctx by_weight by_index relay s now q item w b ≡ ok (q', w')
        → AllPunctual (relay_time ctx) q
        → AllPunctual (relay_time ctx) q'
    unfolding handle_item
    handle_item-AllPunctual s now q q' item w w' true e h =
        let (done, relayed, same) =
          >>=-eq-ok (process_item by_weight by_index relay s item false w) (λ done. ok (q, done.1))
            e in
        subst (AllPunctual (relay_time ctx)) (ap (λ r. r.0) (ok-injective same)) h
    handle_item-AllPunctual s now q q' item w w' false e h =
        subst (AllPunctual (relay_time ctx)) (ap (λ r. r.0) (ok-injective e))
          (postpone-AllPunctual s now q item h)

    with_answer-AllPunctual :
        (s : SubmissionStorage) (now : ℤ) (p p' : Processor) (q : List QueueItem) (item : QueueItem)
        (w w' : W) (selected : Option Bool)
        → with_answer ctx by_weight by_index relay s now p q item w selected ≡ ok (some (p', w'))
        → AllPunctual (relay_time ctx) p.delayed
        → AllPunctual (relay_time ctx) p'.delayed
    unfolding with_answer
    with_answer-AllPunctual s now p p' q item w w' none e h = absurd (ground arith)
    with_answer-AllPunctual s now p p' q item w w' (some b) e h =
        let (after, handled, same) =
          >>=-eq-ok (handle_item ctx by_weight by_index relay s now p.delayed item w b)
            (λ after. ok (some (record { queue = q; delayed = after.0 }, after.1))) e in
        subst (λ x. AllPunctual (relay_time ctx) x.delayed)
          (ap (λ r. r.0) (some-injective (ok-injective same)))
          (handle_item-AllPunctual s now p.delayed after.0 item w after.1 b handled h)

    with_item-AllPunctual :
        (keccak : Bytes → ℕ) (rounds : ℕ) (s : SubmissionStorage) (now : ℤ) (p p' : Processor)
        (q : List QueueItem) (w w' : W) (popped : Option QueueItem)
        → with_item ctx by_weight by_index relay keccak rounds s now p q w popped
          ≡ ok (some (p', w'))
        → AllPunctual (relay_time ctx) p.delayed
        → AllPunctual (relay_time ctx) p'.delayed
    unfolding with_item
    with_item-AllPunctual keccak rounds s now p p' q w w' none e h =
        subst (λ x. AllPunctual (relay_time ctx) x.delayed)
          (ap (λ r. r.0) (some-injective (ok-injective e))) h
    with_item-AllPunctual keccak rounds s now p p' q w w' (some item) e h =
        let (selected, known, rest) =
          >>=-eq-ok
            (is_voter_for_current_epoch keccak rounds ctx.voter_threshold_bips relay.sender_address
              s item)
            (with_answer ctx by_weight by_index relay s now p q item w) e in
        with_answer-AllPunctual s now p p' q item w w' selected rest h

    run_tick-AllPunctual :
        (keccak : Bytes → ℕ) (rounds : ℕ) (s : SubmissionStorage) (now : ℤ) (p p' : Processor)
        (w w' : W)
        → run_tick ctx by_weight by_index relay keccak rounds s now p w ≡ ok (some (p', w'))
        → AllPunctual (relay_time ctx) p.delayed
        → AllPunctual (relay_time ctx) p'.delayed
    unfolding run_tick
    run_tick-AllPunctual keccak rounds s now p p' w w' e h =
        with_item-AllPunctual keccak rounds s now p p' (pop p.queue).1 w w' (pop p.queue).0 e h

    ProcessorStep-AllPunctual :
        (p : Processor) (t : ℤ) (items : List QueueItem) (p' : Processor)
        → ProcessorStep ctx by_weight by_index relay p t items p'
        → AllPunctual (relay_time ctx) p.delayed
        → All (λ item. relay_time ctx item ≡ t) items × AllPunctual (relay_time ctx) p'.delayed
    unfolding fire get
    ProcessorStep-AllPunctual _ _ _ _ (queued p t item) h = (tt, h)
    ProcessorStep-AllPunctual _ _ _ _ (ticked keccak rounds s now p p' w w' e) h =
        (tt, run_tick-AllPunctual keccak rounds s now p p' w w' e h)
    ProcessorStep-AllPunctual _ _ _ _ (timed p t there) h =
        (h t, fire-AllPunctual (relay_time ctx) p.delayed t h)

    Reachable-AllPunctual :
        (p : Processor)
        → Reachable ctx by_weight by_index relay p
        → AllPunctual (relay_time ctx) p.delayed
    unfolding new_processor new_delayed_queue_manager
    Reachable-AllPunctual _ fresh = λ t. tt
    Reachable-AllPunctual _ (later p t items p' r step) =
        (ProcessorStep-AllPunctual p t items p' step (Reachable-AllPunctual p r)).1

    -- In any state that a new processor comes to by queueing items, by rounds of Run and by timers
    -- that fire, an item that a timer gives to processDelayedQueue at its time t has t as the end of its
    -- voting round (and not its start) plus the offset of the grace period. The round is not the last of
    -- uint32, and the rounds up to it last less than 2^63 nanoseconds.
    pub delayed_item-on_time :
        (p : Processor) (t : ℤ) (items : List QueueItem) (p' : Processor) (i : ℕ) (item : QueueItem)
        → Reachable ctx by_weight by_index relay p
        → ProcessorStep ctx by_weight by_index relay p t items p'
        → get_elem? items i ≡ some item
        → item.voting_round_id + 1 < 2 ^ 32
        → (period : ℕ) → ctx.voting_epoch.period ≡ pos period
        → (item.voting_round_id + 1) * period < 2 ^ 63
        → t ≡ end_time ctx.voting_epoch (pos item.voting_round_id) +ℤ ctx.grace_period_end_offset
    delayed_item-on_time p t items p' i item r step at_i small period length_of fits =
        sym (
          All-at (λ x. relay_time ctx x ≡ t) items i item
            (ProcessorStep-AllPunctual p t items p' step (Reachable-AllPunctual p r)).0 at_i)
        ∙ relay_time-end ctx item period small length_of fits
