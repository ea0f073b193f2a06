-- ===== src/Database.antt =====
-- database/queries.go and entities.go, and the conversion of log rows in client/shared/contracts.go. A
-- table is the list of its rows in the order of their timestamps.
pub mod Ranges
pub mod Atomic
use flare_system_client.Utils.Hex.{hex_decode, bytes_eq, trim_0x}
use flare_system_client.Prelude.{
  ℕ, ◌+◌, Bool, ◌&&◌, not, List, [], ◌∷◌, ◌++◌, map, Bytes, codes, leb, if◌then◌else◌, Option, none,
  some, ℤ, pos, ltb_ℤ,
}

-- `database.Log`, without its ids and its transaction.
pub record LogRow : Type 0 where
  pub address : Bytes
  pub hex_data : Bytes
  pub topic0 : Bytes
  pub topic1 : Bytes
  pub topic2 : Bytes
  pub topic3 : Bytes
  pub timestamp : ℕ

-- `strings.ToLower`, on ASCII.
abbrev pub lower : ℕ → ℕ
lower ch = if leb b'A' ch && leb ch b'Z' then ch + 32 else ch

-- How the queries write an address or a topic.
unfoldable pub normalised : Bytes → Bytes
normalised s = map lower (trim_0x s)

-- A timestamp in (from, to].
abbrev pub in_range : ℤ → ℤ → ℕ → Bool
in_range from to t = ltb_ℤ from (pos t) && not (ltb_ℤ to (pos t))

-- The part of the condition that does not look at the time.
abbrev pub is_about : Bytes → Bytes → LogRow → Bool
is_about address topic0 row =
    bytes_eq row.address (normalised address) && bytes_eq row.topic0 (normalised topic0)

-- `FetchLogsByAddressAndTopic0`
unfoldable pub fetch_logs : List LogRow → Bytes → Bytes → ℤ → ℤ → List LogRow
fetch_logs [] address topic0 from to = []
fetch_logs (row ∷ rows) address topic0 from to =
    if is_about address topic0 row && in_range from to row.timestamp
    then row ∷ fetch_logs rows address topic0 from to
    else fetch_logs rows address topic0 from to

-- `database.Transaction`: the fields that the program reads.
pub record Transaction : Type 0 where
  pub to_address : Bytes
  pub function_sig : Bytes
  pub input : Bytes
  pub timestamp : ℕ

-- The part of the condition that does not look at the time.
abbrev pub is_call : Bytes → Bytes → Transaction → Bool
is_call to_address function_sig tx =
    bytes_eq tx.to_address (normalised to_address)
    && bytes_eq tx.function_sig (normalised function_sig)

-- `FetchTransactionsByAddressAndSelector`
unfoldable pub fetch_transactions : List Transaction → Bytes → Bytes → ℤ → ℤ → List Transaction
fetch_transactions [] to_address function_sig from to = []
fetch_transactions (tx ∷ txs) to_address function_sig from to =
    if is_call to_address function_sig tx && in_range from to tx.timestamp
    then tx ∷ fetch_transactions txs to_address function_sig from to
    else fetch_transactions txs to_address function_sig from to

-- What the log decoder reads of `types.Log`.
pub record ChainLog : Type 0 where
  pub topics : List ℕ
  pub log_data : Bytes

-- A topic that is not "NULL".
unfoldable pub add_topic : (Bytes → ℕ) → Bytes → List ℕ → List ℕ
add_topic hex_to_hash topic topics =
    if bytes_eq topic (codes "NULL") then topics else topics ++ (hex_to_hash topic ∷ [])

-- `ConvertDatabaseLogToChainLog`, where `hex_to_hash` is `common.HexToHash`.
unfoldable pub convert_database_log_to_chain_log : (Bytes → ℕ) → LogRow → Option ChainLog
convert_database_log_to_chain_log hex_to_hash row = elim (hex_decode row.hex_data) [
  | none ↦ none
  | some bytes ↦ some (record {
    topics = add_topic hex_to_hash row.topic3 (
        add_topic hex_to_hash row.topic2
          (add_topic hex_to_hash row.topic1 (add_topic hex_to_hash row.topic0 [])));
    log_data = bytes;
  })
]
