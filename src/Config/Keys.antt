-- ===== src/Config/Keys.antt =====
-- config/config.go: when a private key is read from a file.
use flare_system_client.Config.{
  KeySource, trim_space, private_key_from_hex, read_file_to_string, key_text,
  private_key_from_config,
}
use flare_system_client.Database.{lower}
use flare_system_client.Utils.Hex.{bytes_eq}
use flare_system_client.Prelude.{
  ℕ, ◌+◌, ◌≡◌, ◌≢◌, ◌⊎◌, inl, inr, refl, ap, ◌∙◌, arith, Bool, true, Bool-cases, [], ◌∷◌, map,
  Bytes, codes, Go, ok, err, panicked,
}
use flare_system_client.Prelude.Calls.{return, ◌>>=◌, continue}

continue-return :
    {W E A B : Type 0} (left : Go E A × W) (f : A → Go E B)
    → (continue left (λ a. return (f a))).1 ≡ left.1
unfolding return
continue-return (ok a, w) f = refl
continue-return (err e, w) f = refl
continue-return (panicked, w) f = refl

-- A world that counts the files that are read.
pub record CountsReads {W : Type 0} (src : KeySource W) (reads : W → ℕ) : Type 0 where
  pub getenv-reads : (name : Bytes) (w : W) → reads (src.getenv name w).1 ≡ reads w
  pub read_file-reads : (name : Bytes) (w : W) → reads (src.read_file name w).1 ≡ reads w + 1

module _ {W : Type 0} (src : KeySource W) (reads : W → ℕ) (counts : CountsReads src reads) where
  -- Whether INSECURE_PRIVATE_KEYS is "true", in any case.
  abbrev pub is_allowed : W → Bool
  is_allowed w =
      bytes_eq (map lower (src.getenv (codes "INSECURE_PRIVATE_KEYS") w).0) (codes "true")

  abbrev Guarded : Bytes → Bytes → W → W → Type 0
  Guarded file env w u =
      (reads u ≡ reads w)
      ⊎ ((env ≡ []) × (file ≢ []) × (is_allowed w ≡ true) × (reads u ≡ reads w + 1))

  key_text-Guarded : (file env : Bytes) (w : W) → Guarded file env w (key_text src file env w).1
  unfolding key_text ◌>>=◌ return read_file_to_string
  key_text-Guarded [] (c ∷ env) w = inl refl
  key_text-Guarded (ch ∷ file) (c ∷ env) w = inl refl
  key_text-Guarded [] [] w = inl refl
  key_text-Guarded (ch ∷ file) [] w = elim (Bool-cases (is_allowed w)) [
    | inr forbidden ↦ rw forbidden (inl (counts.getenv-reads _ w))
    | inl allowed ↦
        let w1 = (src.getenv (codes "INSECURE_PRIVATE_KEYS") w).1 in
        rw allowed (
          inr (
            refl,
            λ e. absurd (ground arith),
            refl,
            ap reads (continue-return (src.read_file (ch ∷ file) w1) _)
                ∙ counts.read_file-reads (ch ∷ file) w1
                ∙ ap (λ n. n + 1) (counts.getenv-reads _ w),
          ))
  ]

  -- On every path, `PrivateKeyFromConfig` reads one file at most; and it reads none, unless the key that the
  -- environment gives is blank, a file is named, and INSECURE_PRIVATE_KEYS is "true" in any case.
  pub private_key_from_config-guarded :
      (file_name env_string : Bytes) (w : W)
      → (reads (private_key_from_config src file_name env_string w).1 ≡ reads w)
        ⊎ ((trim_space env_string ≡ [])
            × (trim_space file_name ≢ [])
            × (is_allowed w ≡ true)
            × (reads (private_key_from_config src file_name env_string w).1 ≡ reads w + 1))
  unfolding private_key_from_config ◌>>=◌
  private_key_from_config-guarded file_name env_string w =
      rw
        (continue-return (key_text src (trim_space file_name) (trim_space env_string) w)
          (λ text. private_key_from_hex src text))
        (key_text-Guarded (trim_space file_name) (trim_space env_string) w)
