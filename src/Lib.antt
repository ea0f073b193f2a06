-- ===== src/Lib.antt =====
-- A model of the Flare systems protocol client, a Go program with three clients. The protocol client
-- fetches data from sub-protocol providers in each voting epoch, signs them and submits them on chain. The
-- finalizer reads the submitted signatures, gathers them for each message until their voters' weight
-- passes a threshold, and relays the message with enough signatures. The epoch client registers the voter
-- for the next reward epoch and signs its policy, the uptime vote and the rewards, on contract events that
-- it reads from the indexer's database. The protocol client waits until the voter is registered, which the
-- epoch client brings about. Transactions go through one module, with the gas settings of the
-- configuration.
--
-- The files and the code they model:
--   Merkle              utils/merkle/merkle.go: the tree in an array (`build`, `get_proof`, `verify_proof`)
--   Voters              client/shared/voters/voter_set.go: weights, thresholds, the choice by weight
--   Shared              client/shared/utils.go: `execute_with_retry`, `exists_as_substring`;
--                       client/shared/epoch_settings.go
--   Shared/Health       client/shared/metrics.go, client/cronjob/cronjob.go: the health status
--   Protocol/Response   client/protocol/protocol_utils.go: answers of the providers and their checks
--   Protocol/Signatures client/protocol/submitter.go: `write_payload`, the two `RunEpoch`
--   Protocol/Written, Protocol/RoundTrip   what the submitter writes against what the finalizer reads
--   Protocol/Submitted  what the rounds of the signature submitter have reported as sent
--   Protocol/Waiting    client/protocol/protocol_client.go: `wait_until_registered`
--   Epoch/PolicyHash    client/epoch/system_manager_utils.go: `signing_policy_hash`
--   Epoch/Signing       client/epoch/system_manager_utils.go, uptime_utils.go and the encoding in
--                       rewards_utils.go: the signing transactions
--   Epoch/Registry      client/epoch/registry_utils.go: the registration transaction
--   Epoch/Rewards       client/epoch/rewards_utils.go: the rewards hash
--   Epoch/Listeners     client/epoch/system_manager_utils.go, relay_utils.go: one tick of a listener
--   Epoch/Client        client/epoch/epoch_client.go: the actions on events, `run_context`
--   Epoch/Sent, Epoch/Future   how many transactions are sent, and for which epochs
--   Chain               utils/chain/tx_utils.go: `send_raw_tx`, gas limits and prices, failed transactions
--   Database            database/queries.go, database/entities.go, client/shared/contracts.go: log rows
--   Database/Atomic     database/utils.go: operations in a transaction
--   Config              config/config.go, client/config/client.go, utils/credentials/credentials.go,
--                       utils/url.go, utils/errors.go, utils/toml.go: private keys, the checks of the
--                       configuration
--   Config/Settings, Config/Built   client/config/client.go, config/config.go, client/context/context.go: the
--                       defaults, `build_config`, `build_context`
--   Program             client/main/client.go, client/runner/runner.go: the clients' goroutines as steps
--   Finalizer/Payload   client/finalizer/finalizer_utils.go: the bytes of submissions and relay calls
--   Finalizer/Policies  client/finalizer/signing_policy_storage.go: the list of signing policies
--   Finalizer/Submissions   client/finalizer/submission_storage.go: messages and their weights
--   Finalizer/Queue     client/finalizer/finalizer_queue.go: the queue, the choice of signatures
--   Finalizer/Processor client/finalizer/finalizer_queue.go: the rounds of the queue's processor and the items
--                       that wait for the end of their grace period
--   Finalizer/Context   client/finalizer/finalizer_context.go: the finalizer's settings
--   Finalizer/Relay     client/finalizer/relay_utils.go: relay transactions and events
--   Finalizer/Client    client/finalizer/finalizer_client.go: the loops over submissions and policies
--   Finalizer/Listener  client/finalizer/submission_utils.go: the listener, its ticks and the indexer's table
--   Finalizer/Running   client/finalizer/finalizer_client.go: the start, and the goroutines of RunContext as one
--                       step relation over the storages and the queues
--   Utils               utils/epoch.go, utils/queue.go, utils/cache.go, utils/math.go, utils/structures.go,
--                       utils/time.go, utils/encoding.go, client/shared/encoding.go, and what is used of Go's `encoding/hex` and `strings`
--   Crypto              what is used of go-ethereum, as a record of functions with its documented laws
--   Prelude             lists, tests, integers, results of Go calls, bytes, sorting and searching
--   Examples            the theorems at concrete inputs
--
-- A Go call returns a value, an error or a panic (`Go` in Prelude/Results). State is passed explicitly;
-- what a mutex serialises is one step. Go maps are functions into options. A struct that only one owner
-- changes is a record. Weights are `uint16` and wrap around where the code adds them; `uint32` conversions
-- are written out. Epochs, times and durations (`int64`) are integers without bounds: for times that the
-- clock gives, the code's values stay far below 2^63 nanoseconds until 2262. The start of a round that
-- comes from a submission is computed in 64 bits (`start_time_int64`). A slice whose end is behind the
-- length of its bytes is a panic in the decoder of submissions; Go lets it go up to the capacity. `time.Now()` is the argument `now`: a call that
-- reads the clock several times is modelled with one reading. The keccak hash, signatures, the HTTP and
-- chain clients, the database, the ABI parser of events and `slices.SortFunc` are parameters; `sort.Slice`
-- and `sort.Search` on hashes and policies are functions of Prelude/Sort and Prelude/Search, since their
-- results are determined.
--
-- Fuel: `decode_items` has the length of the message, since each round takes seven bytes or more;
-- `proof_loop` has the index of the leaf, since the parent's index is smaller; `binary_search_loop` has the
-- number of thresholds, since the interval shrinks. The random selection of voters takes a number of
-- rounds, and `none` says that they were not enough: that it ends depends on the hash function. The
-- signature submitter's rounds are the configured `maxRounds`.
--
-- A call of the outside (the node, a contract, the database, a file) takes the world `W` and returns what
-- the Go call returns, with the world after it (`Call` in Prelude/Calls). Where a theorem counts
-- transactions, the measure of the world and how each outside call changes it are hypotheses (`Takes`). The
-- gas multiplier is a floating-point number: the product with it is a parameter. The binding of a contract,
-- the ABI encoder, JSON, HTTP and the file system are parameters too. The transaction options that the
-- registry client changes are a place in the world that both contract clients read.
--
-- Not modelled: the goroutines of the protocol client's `Run`, constructors that open connections, logging, the server of the metrics, the generated
-- contract bindings, and the random delay before a listener's first tick. Nothing here reads the sections of
-- the configuration for the database, the logger, the addresses and the credentials, so they are one field
-- of the configuration. The environment, files and TOML are parameters (`ConfigSource`).
pub mod Prelude
pub mod Merkle
pub mod Voters
pub mod Crypto
pub mod Chain
pub mod Database
pub mod Config
pub mod Utils
pub mod Shared
pub mod Program
pub mod Protocol
pub mod Epoch
pub mod Finalizer
pub mod Examples
