-- ===== src/Protocol/Submitted/Left.antt =====
-- client/protocol/submitter.go: what is left over by a round are some of the protocols that were to be sent.
use flare_system_client.Prelude.{
  List, [], ◌∷◌, ◌++◌, All, Bytes, Go, ok, err, panicked, ℤ, pos, ◌-ℤ◌, ℕ, length, ltb, Bool-cases,
  inl, inr,
}
use flare_system_client.Crypto.{Crypto}
use flare_system_client.Shared.{ExecuteStatus, success, failed}
use flare_system_client.Protocol.Response.{
  Error, SubProtocolResponse, verify_signature_data, get_data_with_retry,
}
use flare_system_client.Protocol.Signatures.{Submitter, SubProtocol, write_payload, collect_signed}
use flare_system_client.Protocol.Submitted.{Round, submitted, round_left}

module _ {W : Type 0} (P : SubProtocol W → Type 0) where
  written-All :
      (p : SubProtocol W) (written : Go Error Bytes) (rest : Round W)
      → P p
      → All P rest.0.1
      → All P
          (elim written as (λ _. Round W) [
            | ok bytes ↦ ((bytes ++ rest.0.0, rest.0.1), rest.1)
            | err _ ↦ ((rest.0.0, p ∷ rest.0.1), rest.1)
            | panicked ↦ ((rest.0.0, p ∷ rest.0.1), rest.1)
          ]).0.1
  written-All p (ok bytes) rest h k = k
  written-All p (err e) rest h k = (h, k)
  written-All p panicked rest h k = (h, k)

  module _ (s : Submitter W) (c : Crypto) (key : ℕ) (epoch : ℤ) where
    asked-All :
        (p : SubProtocol W) (answer : ExecuteStatus SubProtocolResponse) (rest : Round W)
        → P p
        → All P rest.0.1
        → All P
            (elim answer as (λ _. Round W) [
              | failed ↦ ((rest.0.0, p ∷ rest.0.1), rest.1)
              | success r ↦ elim (write_payload c key epoch r p.id) [
                | ok bytes ↦ ((bytes ++ rest.0.0, rest.0.1), rest.1)
                | err _ ↦ ((rest.0.0, p ∷ rest.0.1), rest.1)
                | panicked ↦ ((rest.0.0, p ∷ rest.0.1), rest.1)
              ]
            ]).0.1
    asked-All p failed rest h k = (h, k)
    asked-All p (success r) rest h k = written-All p (write_payload c key epoch r p.id) rest h k

    collect_signed-All :
        (ps : List (SubProtocol W)) (w : W)
        → All P ps
        → All P (collect_signed s c key epoch ps w).0.1
    unfolding collect_signed
    collect_signed-All [] w h = tt
    collect_signed-All (p ∷ ps) w h =
        let asked =
          get_data_with_retry verify_signature_data (p.fetch (epoch -ℤ pos 1)) s.data_fetch_retries
            w in
        asked-All p asked.0 (collect_signed s c key epoch ps asked.1) h.0
          (collect_signed-All ps asked.1 h.1)

    pub round_left-All :
        (ps : List (SubProtocol W)) (w : W) → All P ps → All P (round_left s c key epoch ps w).0
    unfolding round_left
    round_left-All ps w h =
        let collected = collect_signed s c key epoch ps w in
        elim (Bool-cases (ltb (length collected.0.1) (length ps))) [
          | inr many ↦ rw (many, round_left) (collect_signed-All ps w h)
          | inl fewer ↦
              elim (Bool-cases (submitted s (s.selector ++ collected.0.0) collected.1).0) [
                | inl done ↦ rw (fewer, round_left, done) (collect_signed-All ps w h)
                | inr undone ↦ rw (fewer, round_left, undone) h
              ]
        ]
