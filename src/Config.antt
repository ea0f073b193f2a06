-- ===== src/Config.antt =====
-- config/config.go, client/config/client.go and utils/credentials: the keys, and the checks of the
-- configuration.
pub mod Keys
pub mod Gas
pub mod Settings
pub mod Built
use flare_system_client.Chain.{GasConfig}
use flare_system_client.Utils.Int64.{eq_ℤ}
use flare_system_client.Utils.Hex.{bytes_eq, trim_0x}
use flare_system_client.Database.{lower}
use flare_system_client.Prelude.{
  ℕ, Bool, true, false, not, ◌||◌, ◌&&◌, List, [], ◌∷◌, ◌++◌, map, Bytes, codes, ltb, leb, ◌==◌,
  if◌then◌else◌, length, Option, none, some, Go, ok, err, panicked, guard, or_err, ℤ, pos,
}
use flare_system_client.Prelude.Calls.{Call, return, on_err, ◌>>=◌}

-- The white space of `strings.TrimSpace`, in ASCII.
abbrev pub is_space : ℕ → Bool
is_space ch = ch == 32 || (leb 9 ch && leb ch 13)

unfoldable pub trim_left : Bytes → Bytes
trim_left [] = []
trim_left (ch ∷ text) = if is_space ch then trim_left text else ch ∷ text

-- Without the white space at the end.
unfoldable pub trim_right : Bytes → Bytes
trim_right [] = []
trim_right (ch ∷ text) = elim (trim_right text) [
  | [] ↦ if is_space ch then [] else ch ∷ []
  | c ∷ rest ↦ ch ∷ (c ∷ rest)
]

unfoldable pub trim_space : Bytes → Bytes
trim_space text = trim_right (trim_left text)

-- The environment, the file system and `crypto.HexToECDSA`, with a key named by a number.
pub record KeySource (W : Type 0) : Type 0 where
  pub getenv : Bytes → W → Bytes × W
  pub read_file : Bytes → Call W Bytes Bytes
  pub hex_to_ecdsa : Bytes → Option ℕ

module _ {W : Type 0} (src : KeySource W) where
  unfoldable pub private_key_from_hex : Bytes → Go Bytes ℕ
  private_key_from_hex key =
      if ltb (length key) 2
      then err (codes "privateKey is too short")
      else or_err (src.hex_to_ecdsa (trim_0x key)) (codes "crypto.HexToECDSA")

  unfoldable pub read_file_to_string : Bytes → Call W Bytes Bytes
  read_file_to_string file_name =
      src.read_file file_name >>= λ content. return (ok (trim_space content))

  abbrev pub getenv_call : Bytes → Call W Bytes Bytes
  getenv_call name w = (ok (src.getenv name w).0, (src.getenv name w).1)

  -- The text of the key, for trimmed arguments.
  unfoldable pub key_text : Bytes → Bytes → Call W Bytes Bytes
  key_text file_name (ch ∷ env) = return (ok (ch ∷ env))
  key_text [] [] = return (err (codes "no private key specified"))
  key_text (ch ∷ file_name) [] = getenv_call (codes "INSECURE_PRIVATE_KEYS") >>= λ allowed.
      if bytes_eq (map lower allowed) (codes "true")
      then read_file_to_string (ch ∷ file_name)
      else return (err (codes "private keys in files are disabled"))

  unfoldable pub private_key_from_config : Bytes → Bytes → Call W Bytes ℕ
  private_key_from_config file_name env_string =
      key_text (trim_space file_name) (trim_space env_string) >>= λ text.
      return (private_key_from_hex text)

-- `EpochClientEnabled`
pub record ClientsConfig : Type 0 where
  pub enabled_registration : Bool
  pub enabled_uptime_voting : Bool
  pub enabled_reward_signing : Bool
  pub enabled_protocol_voting : Bool
  pub enabled_finalizer : Bool

unfoldable pub epoch_client_enabled : ClientsConfig → Bool
epoch_client_enabled c =
    c.enabled_registration || (c.enabled_uptime_voting || c.enabled_reward_signing)

abbrev pub is_set : {A : Type 0} → Option A → Bool
is_set none = false
is_set (some a) = true

-- `Cmp` on a nil pointer panics.
unfoldable pub validate_gas_config : GasConfig → Go Bytes (Unit {0})
validate_gas_config cfg = elim cfg.gas_price_fixed [
  | none ↦ panicked
  | some fixed ↦
      guard (not (not (eq_ℤ fixed (pos 0)) && is_set cfg.gas_price_multiplier)) (
        codes "only one of gas_price_fixed and gas_price_multiplier can be set to a non-zero value")
]

-- `validateConfig`, of the two gas configurations.
unfoldable pub validate_config : GasConfig → GasConfig → Go Bytes (Unit {0})
validate_config submit_gas register_gas = elim (validate_gas_config submit_gas) [
  | ok _ ↦ validate_gas_config register_gas
  | err e ↦ err e
  | panicked ↦ panicked
]

-- `JoinPaths`
unfoldable pub ends_with_slash : Bytes → Bool
ends_with_slash [] = false
ends_with_slash (ch ∷ []) = ch == b'/'
ends_with_slash (ch ∷ (ch' ∷ path)) = ends_with_slash (ch' ∷ path)

unfoldable pub join_paths : Bytes → Bytes → Bytes
join_paths path1 path2 =
    if ends_with_slash path1 then path1 ++ path2 else path1 ++ (codes "/" ++ path2)

-- `Join`: the texts of the errors, nil where there is none.
unfoldable pub joined : List (Option Bytes) → Bytes → Bytes
joined [] text = text
joined (none ∷ errs) text = joined errs text
joined (some e ∷ errs) [] = joined errs e
joined (some e ∷ errs) (ch ∷ text) = joined errs ((ch ∷ text) ++ (codes ", " ++ e))

unfoldable pub join : List (Option Bytes) → Option Bytes
join errs = elim (joined errs []) [ [] ↦ none | ch ∷ text ↦ some (ch ∷ text) ]

-- `UnmarshalText`, where `parse_time` is `time.Parse` for RFC 3339, `parse_int` is `strconv.ParseInt` and
-- `unix` is `time.Unix` without nanoseconds.
unfoldable pub unmarshal_text :
    {T : Type 0} → (Bytes → Option T) → (Bytes → Option ℤ) → (ℤ → T) → Bytes → Go Bytes T
unmarshal_text parse_time parse_int unix text = elim (parse_time text) [
  | some parsed ↦ ok parsed
  | none ↦ elim (parse_int text) [
    | some seconds ↦ ok (unix seconds)
    | none ↦ err (codes "timestamp must be in RFC3339 or Unix timestamp format")
  ]
]
