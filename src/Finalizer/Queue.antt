-- ===== src/Finalizer/Queue.antt =====
-- client/finalizer/finalizer_queue.go: the messages to finalize, and the choice of the signatures that
-- are relayed. `W` is the outside world.
pub mod Greedy
pub mod Selected
pub mod Enough
pub mod Fewest
use flare_system_client.Prelude.{
  ℕ, suc, ◌+◌, ◌%◌, ◌*◌, Bool, true, false, ◌&&◌, List, [], ◌∷◌, ◌++◌, Bytes, Perm, all, ltb, ◌==◌,
  if◌then◌else◌, Option, none, some, Go, ok, err, panicked, ◌>>=◌, must, ℤ, pos, negsuc, ltb_ℤ, ◌≡◌,
  ◌<◌, ◌≤◌, length, get_elem?, map, All,
}
use flare_system_client.Voters.{
  VoterSet, word16, at, contains, select_voters, Error as VotersError, voter_weight,
}
use flare_system_client.Finalizer.Payload.{SignedPayload, SubmitterPayloadItem}
use flare_system_client.Finalizer.Policies.{SigningPolicy}
use flare_system_client.Finalizer.Submissions.{SubmissionStorage, MessageData, get}
use flare_system_client.Finalizer.Relay.{Log, RelayClient, submit_payloads}

pub record QueueItem : Type 0 where
  pub seed : Option ℕ
  pub voting_round_id : ℕ
  pub protocol_id : ℕ
  pub message_hash : ℕ

-- `finalizerQueue`
unfoldable pub push : List QueueItem → QueueItem → List QueueItem
push q item = q ++ (item ∷ [])

-- `ProtocolMessageRelayed` of relay_utils.go: the items of the relayed messages, for the logs that the
-- database returns; their hash is the Merkle root.
pub record MessageRelayed : Type 0 where
  pub protocol_id : ℕ
  pub voting_round_id : ℕ
  pub merkle_root : ℕ

module _ (parse : Log → Option MessageRelayed) where
  unfoldable pub parse_relayed : List Log → Option (List QueueItem)
  parse_relayed [] = some []
  parse_relayed (log ∷ logs) = elim (parse log) [
    | none ↦ none
    | some d ↦ elim (parse_relayed logs) [
      | none ↦ none
      | some rest ↦ some (
          record {
            seed = none;
            voting_round_id = d.voting_round_id;
            protocol_id = d.protocol_id;
            message_hash = d.merkle_root;
          }
          ∷ rest)
    ]
  ]

  unfoldable pub protocol_message_relayed : Option (List Log) → Option (List QueueItem)
  protocol_message_relayed none = none
  protocol_message_relayed (some logs) = parse_relayed logs

unfoldable pub pop : List QueueItem → Option QueueItem × List QueueItem
pop [] = (none, [])
pop (item ∷ q) = (some item, q)

-- `finalizerQueueProcessor.Add`
unfoldable pub add_item : List QueueItem → SubmitterPayloadItem → Option ℕ → List QueueItem
add_item q item seed = push q (record {
  seed = seed;
  voting_round_id = item.voting_round_id;
  protocol_id = item.protocol_id;
  message_hash = item.payload.message_hash;
})

-- `slices.SortFunc` of golang.org/x/exp.
pub record Sorter (A : Type 0) : Type 0 where
  pub sort : (A → A → Bool) → List A → List A

-- The elements in ascending order of a key.
abbrev pub IsAscending : {A : Type 0} → (A → ℕ) → List A → Type 0
IsAscending key [] = Unit {0}
IsAscending key (x ∷ xs) = All (λ y. key x ≤ key y) xs × IsAscending key xs

-- What is documented of it: it sorts the slice in ascending order as determined by `less`, here for a
-- `less` that compares keys on the elements of the slice, which are those of a test.
pub record SortLaws {A : Type 0} (s : Sorter A) : Type 0 where
  pub sort-perm : (less : A → A → Bool) (xs : List A) → Perm (s.sort less xs) xs
  pub sort-IsAscending :
      (less : A → A → Bool) (key : A → ℕ) (test : A → Bool) (xs : List A)
      → all test xs ≡ true
      → ((x y : A) → test x ≡ true → test y ≡ true → less x y ≡ ltb (key x) (key y))
      → IsAscending key (s.sort less xs)

-- The payloads that are there.
unfoldable pub present : List (Option SignedPayload) → List SignedPayload
present [] = []
present (none ∷ xs) = present xs
present (some p ∷ xs) = p ∷ present xs

-- A payload with its voter's weight, which the comparisons and the selection look up.
abbrev pub Weighed : Type 0
Weighed = ℕ × SignedPayload

unfoldable pub weigh : VoterSet → List SignedPayload → Go VotersError (List Weighed)
weigh vs [] = ok []
weigh vs (p ∷ ps) = voter_weight vs p.index >>= λ w. weigh vs ps >>= λ rest. ok ((w, p) ∷ rest)

-- The loop that selects payloads until their weight, in `uint16`, is more than the threshold.
unfoldable pub select_greedy : ℕ → ℕ → List Weighed → List Weighed
select_greedy threshold weight [] = []
select_greedy threshold weight ((w, p) ∷ ps) =
    let rest = select_greedy threshold ((weight + w) % word16) ps in
    (w, p) ∷ (if ltb threshold ((weight + w) % word16) then [] else rest)

abbrev pub heavier : Weighed → Weighed → Bool
heavier p q = ltb q.0 p.0

abbrev pub earlier : SignedPayload → SignedPayload → Bool
earlier p q = ltb_ℤ p.index q.index

module _ (by_weight : Sorter Weighed) (by_index : Sorter SignedPayload) where
  -- What `processItem` relays of a message.
  unfoldable pub select_payloads : MessageData → Go VotersError (List SignedPayload)
  select_payloads m = weigh m.signing_policy.voters (present m.payload) >>= λ weighed. ok (
      by_index.sort earlier (
        map (λ p. p.1)
          (select_greedy m.signing_policy.threshold 0 (by_weight.sort heavier weighed))))

  -- The result of `SubmitPayloads`; it returns no error.
  abbrev pub relayed : {W : Type 0} → Go Bytes Bool × W → Go VotersError (Bool × W)
  relayed (ok done, w) = ok (done, w)
  relayed (err text, w) = ok (false, w)
  relayed (panicked, w) = panicked

  module _ {W : Type 0} (relay : RelayClient W) where
    -- `processItem`, with whether relaying finished.
    unfoldable pub process_item :
        SubmissionStorage → QueueItem → Bool → W → Go VotersError (Bool × W)
    process_item s item is_delayed w =
        elim (get s item.voting_round_id item.protocol_id item.message_hash) [
          | none ↦ ok (false, w)
          | some m ↦ select_payloads m >>= λ selected.
              relayed (submit_payloads relay selected (some m.signing_policy) is_delayed w)
        ]

    -- `mapset.Set.Contains` of items: the seed is a pointer, and two pointers are equal only if they are
    -- the same. The relayed items have no seed, so an item that has one is not among them.
    unfoldable pub contains_item : List QueueItem → QueueItem → Bool
    contains_item [] item = false
    contains_item (x ∷ xs) item = elim x.seed [
      | some _ ↦ contains_item xs item
      | none ↦ elim item.seed [
        | some _ ↦ contains_item xs item
        | none ↦
            if x.voting_round_id == item.voting_round_id
              && (x.protocol_id == item.protocol_id && x.message_hash == item.message_hash)
            then true
            else contains_item xs item
      ]
    ]

    -- The loop of `processDelayedQueue`: how many items it processes, besides their effect.
    unfoldable pub process_delayed :
        SubmissionStorage → List QueueItem → List QueueItem → W → Go VotersError (ℕ × W)
    process_delayed s relayed [] w = ok (0, w)
    process_delayed s relayed (item ∷ items) w = elim (contains_item relayed item) [
      | true ↦ process_delayed s relayed items w
      | false ↦ process_item s item true w >>= λ done.
          process_delayed s relayed items done.1 >>= λ rest. ok (suc rest.0, rest.1)
    ]

-- `isVoterForCurrentEpoch`; `none` if the rounds did not suffice.
unfoldable pub is_voter_for_current_epoch :
    (Bytes → ℕ) → ℕ → ℕ → ℕ → SubmissionStorage → QueueItem → Go VotersError (Option Bool)
is_voter_for_current_epoch keccak rounds threshold_bips sender s item =
    elim (get s item.voting_round_id item.protocol_id item.message_hash) [
      | none ↦ ok (some false)
      | some m ↦
          elim (select_voters keccak rounds m.signing_policy.voters item.seed item.protocol_id
            item.voting_round_id threshold_bips) [
              | err _ ↦ ok (some false)
              | panicked ↦ panicked
              | ok none ↦ ok none
              | ok (some voters) ↦ ok (some (contains voters sender))
            ]
    ]
