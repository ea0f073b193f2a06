-- ===== src/Finalizer/Running/Relayed.antt =====
-- client/finalizer: what the running finalizer relays.
use flare_system_client.Prelude.{
  ◌≢◌, panicked, ℕ, ◌<◌, ◌≡◌, refl, subst, Bool, false, List, ◌++◌, Bytes, Perm, Option,
  Option-cases, some, ok, sum_by, inl, inr,
}
use flare_system_client.Finalizer.Payload.{SignedPayload, encode_for_relay}
use flare_system_client.Finalizer.Policies.{PolicyData}
use flare_system_client.Finalizer.Submissions.{MessageData, get, copy_message}
use flare_system_client.Finalizer.Submissions.Counted.{IsCounted}
use flare_system_client.Finalizer.Relay.{RelayClient, Log}
use flare_system_client.Finalizer.Relay.Calm.{submit_payloads-returns}
use flare_system_client.Finalizer.Queue.{
  QueueItem, Weighed, Sorter, SortLaws, present, select_payloads, process_item,
}
use flare_system_client.Finalizer.Queue.Greedy.{weight_of}
use flare_system_client.Finalizer.Queue.Selected.{chosen}
use flare_system_client.Finalizer.Queue.Enough.{select_payloads-Enough, select_payloads_lem}
use flare_system_client.Finalizer.Client.{FinalizerContext}
use flare_system_client.Finalizer.Running.{FinalizerRun, RunReaches}
use flare_system_client.Finalizer.Running.Fair.{IsFair, FairParse}
use flare_system_client.Finalizer.Running.Stored.{get-stored, copy_message-IsCounted}
use flare_system_client.Finalizer.Running.Invariant.{IsSound, RunReaches-IsSound}

copy_message-policy :
    (m : MessageData) → IsFair m.signing_policy → IsFair (copy_message m).signing_policy
unfolding copy_message
copy_message-policy m h = h

sound_when_got :
    (r : FinalizerRun) (round protocol_id hash : ℕ) (m : MessageData)
    → IsSound r
    → get r.submissions round protocol_id hash ≡ some m
    → IsCounted m × IsFair m.signing_policy
sound_when_got r round protocol_id hash m h e =
    let (m', found, same) = get-stored r.submissions round protocol_id hash m e in
    (
      subst IsCounted same
          (copy_message-IsCounted m' (h.messages_kept round protocol_id hash m' found).0),
      subst (λ (x : MessageData). IsFair x.signing_policy) same
          (copy_message-policy m' (h.messages_fair round protocol_id hash m' found)),
    )

module _ (ctx : FinalizerContext) (parse : Log → Option PolicyData) (by_weight : Sorter Weighed)
    (by_index : Sorter SignedPayload) {W : Type 0} (relay : RelayClient W) where
  -- If each policy event of the relay contract has a weight for each voter, at most 65535 voters, and
  -- weights whose sum fits 16 bits: in any state that the finalizer comes to from its start, with the
  -- steps of its goroutines in any order, if `Get` returns a message that weighs more than its policy's
  -- threshold, `processItem` selects some of its payloads, each at most once, which together weigh more
  -- than the threshold, and `EncodeForRelay` encodes them without an error.
  pub running-Enough :
      FairParse parse
      → SortLaws by_weight
      → SortLaws by_index
      → (r : FinalizerRun) (round protocol_id hash : ℕ) (m : MessageData)
      → RunReaches ctx parse by_weight by_index relay r
      → get r.submissions round protocol_id hash ≡ some m
      → m.signing_policy.threshold < m.weight
      → (selected : List SignedPayload) × (rest : List SignedPayload) × (bytes : Bytes)
        × (select_payloads by_weight by_index m ≡ ok selected)
        × Perm (selected ++ rest) (present m.payload)
        × (m.signing_policy.threshold < sum_by (weight_of m.signing_policy.voters) selected)
        × (encode_for_relay selected ≡ ok bytes)
  running-Enough fair weight_laws index_laws r round protocol_id hash m reach e enough =
      let (books, known) =
        sound_when_got r round protocol_id hash m
          (RunReaches-IsSound ctx parse fair by_weight by_index relay r reach) e in
      select_payloads-Enough m books known.weighted by_weight by_index weight_laws index_laws
        known.small known.few enough

  -- If each policy event of the relay contract has a weight for each voter, at most 65535 voters, and
  -- weights whose sum fits 16 bits, and `SendRawTx` does not panic: in any state that the finalizer comes to
  -- from its start, with the steps of its goroutines in any order, `processItem` returns for any item without
  -- a panic.
  pub running-process_item :
      FairParse parse
      → ((payload : Bytes) (dry_run : Bool) (w : W)
          → (relay.send_raw_tx payload dry_run w).0 ≢ panicked)
      → (r : FinalizerRun) (item : QueueItem) (is_delayed : Bool) (w : W)
      → RunReaches ctx parse by_weight by_index relay r
      → (done : Bool) × (w' : W) × (process_item by_weight by_index relay r.submissions item
            is_delayed w
          ≡ ok (done, w'))
  unfolding process_item
  running-process_item fair calm r item is_delayed w reach =
      elim (Option-cases
        (get r.submissions item.voting_round_id item.protocol_id item.message_hash)) [
          | inl gone ↦ (false, w, rw (gone, process_item) refl)
          | inr (m, found) ↦
              let (books, known) =
                sound_when_got r item.voting_round_id item.protocol_id item.message_hash m
                  (RunReaches-IsSound ctx parse fair by_weight by_index relay r reach) found in
              let selected =
                chosen by_weight by_index m.signing_policy.voters m.signing_policy.threshold
                  (present m.payload) in
              let (done, w', returned) =
                submit_payloads-returns relay calm selected (some m.signing_policy) is_delayed w in
              (
                done,
                w',
                rw
                    (
                      found,
                      process_item,
                      select_payloads_lem m books known.weighted by_weight by_index,
                      returned,
                    )
                    refl,
              )
        ]
