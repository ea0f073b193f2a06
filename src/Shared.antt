-- ===== src/Shared.antt =====
-- client/shared/utils.go: retries, and the test for harmless errors.
pub mod Health
pub mod Retry
pub mod Calls
pub mod Substring
pub mod EpochSettings
use flare_system_client.Prelude.{
  ℕ, zero, suc, Bool, true, false, List, [], ◌∷◌, Bytes, Option, none, some, Go, ok, err, panicked,
}
use flare_system_client.Prelude.Calls.{Call, return}
use flare_system_client.Utils.Hex.{has_substring}

-- `MaxTxSendRetries`
abbrev pub max_tx_send_retries : ℕ
max_tx_send_retries = 4

-- `failed` carries the message "max retries reached".
pub data ExecuteStatus (A : Type 0) : Type 0 where
  success : A → ExecuteStatus A
  failed : ExecuteStatus A

-- The field `Success`.
abbrev pub is_success : {A : Type 0} → ExecuteStatus A → Bool
is_success (success a) = true
is_success failed = false

-- Up to `max_retries` calls of `f`, which acts on the outside world `W` and reports an error by `none`.
-- The first success ends the loop. The pause between two calls leaves the result alone.
unfoldable pub execute_with_retry :
    {W A : Type 0} → (W → Option A × W) → ℕ → W → ExecuteStatus A × W
execute_with_retry f zero w = (failed, w)
execute_with_retry f (suc retries) w =
    let (result, w') = f w in
    elim result [ some a ↦ (success a, w') | none ↦ execute_with_retry f retries w' ]

-- What follows one call, where `rest` makes the others. A panic in it ends the program.
abbrev pub retried :
    {W E A : Type 0} → Go E A × W → Call W E (ExecuteStatus A) → Go E (ExecuteStatus A) × W
retried (ok a, w) rest = (ok (success a), w)
retried (err e, w) rest = rest w
retried (panicked, w) rest = (panicked, w)

-- The same retries, of a call that may also panic.
unfoldable pub retry_call : {W E A : Type 0} → Call W E A → ℕ → Call W E (ExecuteStatus A)
retry_call f zero = return (ok failed)
retry_call f (suc retries) = λ w. retried (f w) (retry_call f retries)

unfoldable pub exists_as_substring : List Bytes → Bytes → Bool
exists_as_substring [] s = false
exists_as_substring (item ∷ items) s = elim (has_substring item s) [
  | true ↦ true
  | false ↦ exists_as_substring items s
]
