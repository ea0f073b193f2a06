-- ===== src/Epoch/Future.antt =====
-- client/epoch/epoch_client.go: nothing is registered or signed for an epoch that is not in the future.
use flare_system_client.Shared.{success, failed, ExecuteStatus}
use flare_system_client.Shared.Retry.{after, execute_with_retry-Ends}
use flare_system_client.Shared.Calls.{attempt, retry_call-execute_with_retry}
use flare_system_client.Epoch.Signing.{get_current_reward_epoch_id, sign_new_signing_policy}
use flare_system_client.Epoch.Registry as Registry
use flare_system_client.Epoch.Client.{
  EpochClient, logged, is_future_epoch, register_voter, sign_policy,
}
use flare_system_client.Prelude.{
  ℕ, ◌<◌, ◌≡◌, ◌≢◌, suc, refl, ap, ◌∙◌, true, false, Bytes, Option, none, some, ok, Bool-cases,
  if◌then◌else◌, panicked, ℤ, ltb_ℤ, ◌⊎◌, inl, inr,
}
use flare_system_client.Prelude.Calls.{Call, return, ◌>>=◌}

module _ {W : Type 0} (c : EpochClient W) where
  -- One query of the chain, by its value.
  abbrev pub query : W → Option ℤ × W
  query = attempt c.registry_client.base.contract.get_current_reward_epoch_id

  -- The first answer of at most four queries, and the world that they leave.
  abbrev pub Answers : W → ℤ → W → Type 0
  Answers w current w' =
      (k : ℕ) × (k < 4)
      × ((i : ℕ) → i < k → (query (after query i w)).0 ≡ none)
      × ((query (after query k w)).0 ≡ some current)
      × (w' ≡ after query (suc k) w)

  abbrev pub NoAnswer : W → W → Type 0
  NoAnswer w w' = ((i : ℕ) → i < 4 → (query (after query i w)).0 ≡ none) × (w' ≡ after query 4 w)

  -- What `whole` does from `w` on: if the chain answers with an epoch before `epoch_id`, it acts on the
  -- world that the queries leave; if it answers with another epoch or not at all, it leaves that world.
  abbrev pub ActsOnFuture : ℤ → Call W Bytes (Unit {0}) → Call W Bytes (Unit {0}) → W → Type 0
  ActsOnFuture epoch_id act whole w =
      ((current : ℤ) × (w' : W) × Answers w current w'
        × (ltb_ℤ current epoch_id ≡ true)
        × (whole w ≡ act w'))
      ⊎ ((w' : W) × (((current : ℤ) × Answers w current w' × (ltb_ℤ current epoch_id ≡ false))
            ⊎ NoAnswer w w')
          × (whole w ≡ (ok tt, w')))

module _ {W : Type 0} (c : EpochClient W)
    (calm : (w : W)
      → (c.registry_client.base.contract.get_current_reward_epoch_id w).0 ≢ panicked) where
  status_of :
      (w : W)
      → ((current : ℤ) × (w' : W) × Answers c w current w'
          × (get_current_reward_epoch_id c.registry_client.base w ≡ (ok (success current), w')))
        ⊎ ((w' : W) × NoAnswer c w w'
            × (get_current_reward_epoch_id c.registry_client.base w ≡ (ok failed, w')))
  unfolding get_current_reward_epoch_id
  status_of w =
      let same =
        retry_call-execute_with_retry c.registry_client.base.contract.get_current_reward_epoch_id
          calm 4 w in
      elim (execute_with_retry-Ends (query c) 4 w) [
        | inl (k, a, lt, fails, answer, r) ↦ inl (
          a,
          after (query c) (suc k) w,
          (k, lt, fails, answer, refl),
          same ∙ ap (λ (x : ExecuteStatus ℤ × W). (ok x.0, x.1)) r,
        )
        | inr (fails, r) ↦ inr (
          after (query c) 4 w,
          (fails, refl),
          same ∙ ap (λ (x : ExecuteStatus ℤ × W). (ok x.0, x.1)) r,
        )
      ]

  acts_on_future :
      (epoch_id : ℤ) (act : Call W Bytes (Unit {0})) (w : W)
      → ActsOnFuture c epoch_id act
          (is_future_epoch c epoch_id >>= λ future. if future then act else return (ok tt))
          w
  unfolding is_future_epoch return ◌>>=◌
  acts_on_future epoch_id act w = elim (status_of w) [
    | inl (current, w', answers, r) ↦ elim (Bool-cases (ltb_ℤ current epoch_id)) [
      | inl later ↦ inl (current, w', answers, later, rw (r, later) refl)
      | inr old ↦ inr (w', inl (current, answers, old), rw (r, old) refl)
    ]
    | inr (w', none_at_all, r) ↦ inr (w', inr none_at_all, rw r refl)
  ]

  -- If the query of the current reward epoch does not panic: the client registers for an epoch, and signs
  -- its signing policy, just if one of at most four queries is answered and the first answer is an
  -- earlier epoch; otherwise nothing happens after the queries.
  pub only_future_epochs :
      (epoch_id : ℤ) (policy : Bytes) (w : W)
      → ActsOnFuture c epoch_id
          (logged (Registry.register_voter c.registry_client epoch_id c.identity_address))
          (register_voter c epoch_id)
          w
        × ActsOnFuture c epoch_id
            (logged (sign_new_signing_policy c.registry_client.base epoch_id policy))
            (sign_policy c epoch_id policy)
            w
  unfolding register_voter sign_policy
  only_future_epochs epoch_id policy w = (acts_on_future epoch_id _ w, acts_on_future epoch_id _ w)
