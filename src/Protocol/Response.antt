-- ===== src/Protocol/Response.antt =====
-- client/protocol/protocol_utils.go: the answer of a data provider, and its checks.
use flare_system_client.Prelude.{
  ℕ, ◌-◌, [], ◌∷◌, Bytes, leb, ◌==◌, if◌then◌else◌, length, Option, none, some, Go, ok, err,
  panicked, ◌>>=◌, ◌>>◌, guard, or_err,
}
use flare_system_client.Shared.{ExecuteStatus, execute_with_retry}
use flare_system_client.Utils.Hex.{hex_decode, bytes_eq, trim_0x}

pub data Error : Type 0 where
  call_failed bad_http_status bad_body bad_data bad_additional_data : Error
  status_not_ok data_length additional_data_too_long signing_failed : Error

pub record SubProtocolResponse : Type 0 where
  pub status : Bytes
  pub data_bytes : Bytes
  pub additional_data : Bytes

pub record DataProviderResponse : Type 0 where
  pub status : Bytes
  pub data_text : Bytes
  pub additional_data : Bytes

-- What the HTTP client hands over: the status code and line, and the parsed JSON body, if it parses.
pub record HttpReply : Type 0 where
  pub status_code : ℕ
  pub status_line : Bytes
  pub body : Option DataProviderResponse

-- "OK"
abbrev pub status_ok : Bytes
status_ok = b'O' ∷ (b'K' ∷ [])

-- The part of `getData` behind the status check. Additional data may be left out.
unfoldable pub decode_response : DataProviderResponse → Go Error SubProtocolResponse
decode_response response = do
  body ← or_err (hex_decode (trim_0x response.data_text)) bad_data
  additional ← elim (trim_0x response.additional_data) [
    | [] ↦ ok []
    | x ∷ xs ↦ or_err (hex_decode (x ∷ xs)) bad_additional_data
  ]
  ok (record { status = response.status; data_bytes = body; additional_data = additional })

-- `getData` on the reply; `none` is a failed call. An answer whose own status is not "OK" is handed on
-- with the status line of the HTTP reply.
unfoldable pub get_data : Option HttpReply → Go Error SubProtocolResponse
unfolding decode_response
get_data call = do
  reply ← or_err call call_failed
  guard (reply.status_code == 200) bad_http_status
  response ← or_err reply.body bad_body
  if bytes_eq response.status status_ok
      then decode_response response
      else ok (record { status = reply.status_line; data_bytes = []; additional_data = [] })

-- `SignatureSubmitterDataVerifier`: `ok` is a nil error.
unfoldable pub verify_signature_data : SubProtocolResponse → Go Error (Unit {0})
verify_signature_data r = do
  guard (bytes_eq r.status status_ok) status_not_ok
  guard (length r.data_bytes == 38) data_length
  guard (leb (length r.additional_data) (65535 - 104)) additional_data_too_long
  ok tt

-- `IdentityDataVerifier`
unfoldable pub verify_identity : SubProtocolResponse → Go Error (Unit {0})
verify_identity r = ok tt

-- The outcome of one attempt of `getDataWithRetry`: an error of either step is retried.
unfoldable pub checked_data :
    (SubProtocolResponse → Go Error (Unit {0})) → Option HttpReply → Option SubProtocolResponse
checked_data verifier call = elim (get_data call >>= λ r. verifier r >> ok r) [
  | ok r ↦ some r
  | err _ ↦ none
  | panicked ↦ none
]

-- `getDataWithRetry`, where `fetch` calls the data provider.
unfoldable pub get_data_with_retry :
    {W : Type 0}
    → (SubProtocolResponse → Go Error (Unit {0}))
    → (W → Option HttpReply × W)
    → ℕ
    → W
    → ExecuteStatus SubProtocolResponse × W
get_data_with_retry verifier fetch =
    execute_with_retry (λ w. let (reply, w') = fetch w in (checked_data verifier reply, w'))
