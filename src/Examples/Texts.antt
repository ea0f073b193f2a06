-- ===== src/Examples/Texts.antt =====
-- Texts, encodings and hashes.
use flare_system_client.Prelude.{
  ℕ, ◌≡◌, ◌↔◌, refl, true, [], ◌∷◌, ◌++◌, Bytes, codes, replicate, foldl, ok, Go,
}
use flare_system_client.Shared.{exists_as_substring}
use flare_system_client.Shared.Substring.{OneStandsIn, exists_as_substring-OneStandsIn}
use flare_system_client.Epoch.Signing.{non_fatal_sign_rewards_errors}
use flare_system_client.Epoch.PolicyHash.{
  signing_policy_hash, joined, chained, signing_policy_hash-chunks,
}
use flare_system_client.Examples.Payloads.{toy}

exists_as_substring-OneStandsIn_example :
    (exists_as_substring non_fatal_sign_rewards_errors (codes "reverted: voter already signed")
      ≡ true)
    ↔ OneStandsIn non_fatal_sign_rewards_errors (codes "reverted: voter already signed")
exists_as_substring-OneStandsIn_example =
    exists_as_substring-OneStandsIn non_fatal_sign_rewards_errors
      (codes "reverted: voter already signed")

abbrev piece : ℕ → Bytes
piece b = replicate 32 b

signing_policy_hash-chunks_example :
    ◌≡◌ {A = Go Bytes ℕ}
      (signing_policy_hash toy (joined (piece 1 ∷ piece 2 ∷ piece 3 ∷ [])))
      (ok (foldl (chained toy) (toy.keccak (piece 1 ++ piece 2)) (piece 3 ∷ [])))
signing_policy_hash-chunks_example =
    signing_policy_hash-chunks {E = Bytes} toy (piece 1) (piece 2) (piece 3 ∷ [])
      (refl, (refl, (refl, tt)))
