-- ===== src/Crypto.antt =====
-- What the client takes from go-ethereum's `crypto` and `accounts` packages. A hash is the number that
-- its 32 bytes spell, an address the number that its 20 bytes spell.
use flare_system_client.Prelude.{ℕ, ◌<◌, ◌≡◌, Bytes, Option, some, length, get_or}

pub record Crypto : Type 0 where
  -- `crypto.Keccak256`
  pub keccak : Bytes → ℕ
  -- `accounts.TextHash` of the 32 bytes of a hash
  pub text_hash : ℕ → ℕ
  -- `crypto.SigToPub` on a signature `[R || S || V]`, then `crypto.PubkeyToAddress`
  pub recover : ℕ → Bytes → Option ℕ
  -- `crypto.Sign` by the private key, which is named by a number
  pub sign : ℕ → ℕ → Option Bytes

-- What go-ethereum documents of `Sign`: the signature has 65 bytes in the `[R || S || V]` format where
-- V is 0 or 1, and the signer's address is recovered from it.
pub record SignLaws (c : Crypto) (address_of : ℕ → ℕ) : Type 0 where
  pub sign-length : (hash key : ℕ) (s : Bytes) → c.sign hash key ≡ some s → length s ≡ 65
  pub sign-last : (hash key : ℕ) (s : Bytes) → c.sign hash key ≡ some s → get_or s 64 0 < 2
  pub recover-sign :
      (hash key : ℕ) (s : Bytes)
      → c.sign hash key ≡ some s
      → c.recover hash s ≡ some (address_of key)
