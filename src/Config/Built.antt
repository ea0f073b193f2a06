-- ===== src/Config/Built.antt =====
-- config/config.go, config/callback.go, client/config/client.go and client/context/context.go: how the
-- configuration and the context of the clients are built.
pub mod Priced
use flare_system_client.Config.Settings.{ChainConfig, ClientConfig, new_config, validated}
use flare_system_client.Prelude.{
  Bool, true, false, List, [], ◌∷◌, ◌++◌, Bytes, codes, Option, none, some, Go, ok, err, panicked,
  or_err,
}
use flare_system_client.Prelude.Calls.{Call, return, ◌>>=◌, ◌>>◌}

-- The file system, `toml.Decode` into what is there, and `envconfig.Process`.
pub record ConfigSource (W R : Type 0) : Type 0 where
  pub read_config : Bytes → Call W Bytes Bytes
  pub decode : Bytes → ClientConfig R → Option (ClientConfig R)
  pub process_env : ClientConfig R → Call W Bytes (ClientConfig R)

module _ {W R : Type 0} (src : ConfigSource W R) where
  abbrev pub parse_content :
      ClientConfig R → Bool → Go Bytes Bytes × W → Go Bytes (ClientConfig R) × W
  parse_content cfg allow_missing (ok content, w) =
      (or_err (src.decode content cfg) (codes "error parsing config file"), w)
  parse_content cfg true (err e, w) = (ok cfg, w)
  parse_content cfg false (err e, w) = (err (codes "error opening config file"), w)
  parse_content cfg allow_missing (panicked, w) = (panicked, w)

  unfoldable pub parse_config_file : ClientConfig R → Bytes → Bool → Call W Bytes (ClientConfig R)
  parse_config_file cfg file_name allow_missing w =
      parse_content cfg allow_missing (src.read_config file_name w)

  unfoldable pub build_config : R → Bytes → Call W Bytes (ClientConfig R)
  build_config zero_value file_name =
      parse_config_file (new_config zero_value) file_name false >>= λ parsed.
      (src.process_env parsed >>= λ cfg. return (validated cfg))

-- `ConfigCallback.Call`, on callbacks that act on the world.
unfoldable pub call_back : {W T : Type 0} → List (T → W → W) → T → W → W
call_back [] cfg w = w
call_back (f ∷ fs) cfg w = call_back fs cfg (f cfg w)

unfoldable pub add_callback : {W T : Type 0} → List (T → W → W) → (T → W → W) → List (T → W → W)
add_callback fs f = fs ++ (f ∷ [])

-- The context that the clients are made from.
pub record ClientContext (R D : Type 0) : Type 0 where
  pub config : ClientConfig R
  pub db : D

-- `BuildContext`, where `connect` is `database.Connect` and the file name comes from the flags.
unfoldable pub build_context :
    {W R D : Type 0}
    → ConfigSource W R
    → List (ClientConfig R → W → W)
    → (ClientConfig R → Call W Bytes D)
    → R
    → Bytes
    → Call W Bytes (ClientContext R D)
build_context src callbacks connect zero_value file_name =
    build_config src zero_value file_name >>= λ cfg.
    ((λ w. (ok tt, call_back callbacks cfg w))
      >> (connect cfg >>= λ database. return (ok (record { config = cfg; db = database }))))

-- `url.Parse`, `String`, and `Set` on the query of a URL.
pub record UrlLibrary (U : Type 0) : Type 0 where
  pub parse_url : Bytes → Option U
  pub url_text : U → Bytes
  pub set_query : U → Bytes → Bytes → U

-- `getRPCURL`
unfoldable pub get_rpc_url : {U : Type 0} → UrlLibrary U → ChainConfig → Go Bytes Bytes
get_rpc_url urls chain = elim (urls.parse_url chain.eth_rpc_url) [
  | none ↦ err (codes "url.Parse")
  | some u ↦ elim chain.api_key [
    | [] ↦ ok (urls.url_text u)
    | c ∷ key ↦ ok (urls.url_text (urls.set_query u (codes "x-apikey") (c ∷ key)))
  ]
]
