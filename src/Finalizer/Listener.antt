-- ===== src/Finalizer/Listener.antt =====
-- client/finalizer/submission_utils.go: the listener for `submitSignatures` transactions.
pub mod Outcome
pub mod Fetched
pub mod Complete
use flare_system_client.Prelude.{
  ℕ, ◌*◌, ◌+◌, List, [], ◌∷◌, ◌++◌, Bytes, Option, none, some, Go, ok, err, panicked, ℤ, pos, ◌-ℤ◌,
}
use flare_system_client.Crypto.{Crypto}
use flare_system_client.Database.{Transaction, fetch_transactions}
use flare_system_client.Utils.Hex.{hex_digit}
use flare_system_client.Finalizer.Payload.{SubmitterPayloadItem, decode_submitter_payload}

-- The bytes that `hex.DecodeString` returns, also with an error: those before the first wrong digit.
unfoldable pub decoded_prefix : Bytes → Bytes
decoded_prefix [] = []
decoded_prefix (a ∷ []) = []
decoded_prefix (a ∷ (b ∷ digits)) = elim (hex_digit a) [
  | none ↦ []
  | some hi ↦ elim (hex_digit b) [ none ↦ [] | some lo ↦ (16 * hi + lo) ∷ decoded_prefix digits ]
]

-- What the processor is given: the items, or none where the input does not decode.
unfoldable pub payload_of : Crypto → Bytes → List SubmitterPayloadItem
payload_of c input = elim (decode_submitter_payload c (decoded_prefix input)) [
  | ok items ↦ items
  | err _ ↦ []
  | panicked ↦ []
]

module _ {S E : Type 0} (c : Crypto)
    (process : S → List SubmitterPayloadItem → S × Go E (Unit {0})) where
  -- The transactions of one tick, with the state and the start of the next range that they leave. It
  -- stops at a transaction that cannot be processed yet.
  unfoldable pub listener_txs : S → List Transaction → ℤ → S × ℤ
  listener_txs s [] range_start = (s, range_start)
  listener_txs s (tx ∷ txs) range_start = elim (payload_of c tx.input) [
    | [] ↦ listener_txs s txs (pos tx.timestamp -ℤ pos 1)
    | item ∷ items ↦
        let (s', result) = process s (item ∷ items) in
        elim result [
          | ok _ ↦ listener_txs s' txs (pos tx.timestamp -ℤ pos 1)
          | err _ ↦ (s', range_start)
          | panicked ↦ (s', range_start)
        ]
  ]

  -- One tick, on what the database returns.
  unfoldable pub listener_step : S → Option (List Transaction) → ℤ → S × ℤ
  listener_step s none range_start = (s, range_start)
  listener_step s (some txs) range_start = listener_txs s txs range_start

  module _ (to_address function_sig : Bytes) where
    -- One tick at the time `now`, on the table of the transactions.
    unfoldable pub transactions_tick : List Transaction → ℤ → S → ℤ → S × ℤ
    transactions_tick table now s range_start =
        listener_step s (some (fetch_transactions table to_address function_sig range_start now))
          range_start

    -- The table, the state and the start of the next range, while `SubmissionTxListener` runs: the indexer
    -- adds transactions, or the ticker ticks and the database answers or fails.
    pub data ListenerStep : List Transaction × S × ℤ → List Transaction × S × ℤ → Type 0 where
      indexed :
          (table more : List Transaction) (s : S) (range_start : ℤ)
          → ListenerStep (table, s, range_start) (table ++ more, s, range_start)
      ticked :
          (table : List Transaction) (s : S) (range_start now : ℤ)
          → ListenerStep
              (table, s, range_start)
              (
                table,
                (transactions_tick table now s range_start).0,
                (transactions_tick table now s range_start).1,
              )
      fetch_failed :
          (table : List Transaction) (s : S) (range_start : ℤ)
          → ListenerStep
              (table, s, range_start)
              (table, (listener_step s none range_start).0, (listener_step s none range_start).1)

    -- The states from a start on.
    pub data Listens (start : List Transaction × S × ℤ) : List Transaction × S × ℤ → Type 0 where
      begins : Listens start start
      listens_on :
          (a b : List Transaction × S × ℤ) → Listens start a → ListenerStep a b → Listens start b
