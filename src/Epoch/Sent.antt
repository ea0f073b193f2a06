-- ===== src/Epoch/Sent.antt =====
-- client/epoch: how many transactions the epoch client sends.
use flare_system_client.Chain.{Tx}
use flare_system_client.Chain.Sent.{CountsSent, get_gas_price-Takes, wait_until_mined-Takes}
use flare_system_client.Shared.Calls.{retry_call-Takes}
use flare_system_client.Epoch.Signing.{
  VrsSignature, TransactOpts, Ref, reading, writing, wait_for, send_and_wait,
  send_sign_new_signing_policy, get_uptime_signature, send_sign_uptime_vote, encode_rewards_data,
  send_sign_rewards, sign_new_signing_policy, sign_uptime_vote, sign_rewards,
  get_current_reward_epoch_id,
}
use flare_system_client.Epoch.Registry.{
  RegistryClient, create_signature, registration_price, send_register_voter,
}
use flare_system_client.Epoch.Registry as Registry
use flare_system_client.Epoch.Rewards.{fetch_rewards_hash_bytes, get_rewards_hash}
use flare_system_client.Epoch.Client.{
  EpochClient, Event, vote_power_block_selected, signing_policy_initialized,
  sign_uptime_vote_enabled, uptime_vote_signed, is_future_epoch, logged, register_voter,
  sign_policy, sign_uptime, sign_epoch_rewards, listens, handle_event, run_context,
}
use flare_system_client.Prelude.{
  ℕ, ◌+◌, ◌*◌, ◌≡◌, suc, Bool, true, false, List, [], ◌∷◌, Bytes, Option, none, some, ℤ, arith,
  if◌then◌else◌,
}
use flare_system_client.Prelude.Calls.{
  Call, Takes, ◌>>=◌, ◌>>◌, return-Takes, >>=-Takes, on_err-Takes, if-Takes, Takes_weaken,
}

-- `sent` counts the transactions that the client has sent: a contract call that returns a transaction
-- adds one, one that fails adds one at most, and nothing else adds any.
pub record CountsEpoch {W : Type 0} (c : EpochClient W) (sent : W → ℕ) : Type 0 where
  pub eth : CountsSent c.registry_client.base.eth sent
  pub write_opts :
      (opts : TransactOpts) (w : W)
      → sent (c.registry_client.base.sender_tx_opts.write opts w) ≡ sent w
  pub sign_new_signing_policy :
      (opts : _) (id : ℤ) (hash : ℕ) (s : VrsSignature)
      → Takes sent 1 1 (c.registry_client.base.contract.sign_new_signing_policy opts id hash s)
  pub sign_uptime_vote :
      (opts : _) (id : ℤ) (hash : ℕ) (s : VrsSignature)
      → Takes sent 1 1 (c.registry_client.base.contract.sign_uptime_vote opts id hash s)
  pub sign_rewards :
      (opts : _) (id : ℤ) (claims : List (ℤ × ℤ)) (hash : ℕ) (s : VrsSignature)
      → Takes sent 1 1 (c.registry_client.base.contract.sign_rewards opts id claims hash s)
  pub get_current_reward_epoch_id :
      Takes sent 0 0 c.registry_client.base.contract.get_current_reward_epoch_id
  pub register_voter :
      (opts : _) (address : ℕ) (s : VrsSignature)
      → Takes sent 1 1 (c.registry_client.register_voter opts address s)
  pub http_get : (path : Bytes) → Takes sent 0 0 (c.rewards_source.http_get path)
  pub read_file : (path : Bytes) → Takes sent 0 0 (c.rewards_source.read_file path)

module _ {W : Type 0} (c : EpochClient W) where
  -- The events that the client listens for.
  abbrev pub heard : List Event → ℕ
  heard [] = 0
  heard (e ∷ es) = if listens c e then suc (heard es) else heard es

module _ {W : Type 0} (c : EpochClient W) (sent : W → ℕ) (laws : CountsEpoch c sent) where
  -- A call that sends nothing, and what follows it.
  first-Takes :
      {A B : Type 0} (l h : ℕ) (first : Call W Bytes A) (next : A → Call W Bytes B)
      → Takes sent 0 0 first
      → ((a : A) → Takes sent l h (next a))
      → Takes sent l h (first >>= next)
  first-Takes l h first next t t' =
      Takes_weaken sent (0 + l) l (0 + h) h _ (omega arith) (omega arith)
        (>>=-Takes sent 0 0 l h first next t t')

  reading-Takes :
      {A B : Type 0} (ref : Ref W A) (l h : ℕ) (next : A → Call W Bytes B)
      → ((a : A) → Takes sent l h (next a))
      → Takes sent l h (reading ref next)
  unfolding reading
  reading-Takes ref l h next t = record { grown = λ w. (t (ref.read w)).grown w }

  writing-Takes :
      (f : TransactOpts → TransactOpts)
      → Takes sent 0 0 (writing c.registry_client.base.sender_tx_opts f)
  unfolding writing
  writing-Takes f = record {
    grown = λ w. (omega (arith, laws.write_opts _ w), omega (arith, laws.write_opts _ w));
  }

  wait_for-Takes : (tx : Option Tx) → Takes sent 0 0 (wait_for c.registry_client.base tx)
  unfolding wait_for
  wait_for-Takes none = return-Takes sent _
  wait_for-Takes (some tx) = wait_until_mined-Takes _ sent laws.eth _ _ tx

  send_and_wait-Takes :
      (non_fatal : List Bytes) (call : TransactOpts → Call W Bytes Tx)
      → ((opts : TransactOpts) → Takes sent 1 1 (call opts))
      → Takes sent 0 1 (send_and_wait c.registry_client.base non_fatal call)
  unfolding send_and_wait
  send_and_wait-Takes non_fatal call t =
      Takes_weaken sent 0 0 (1 + 0) 1 _ (omega arith) (omega arith) (
        >>=-Takes sent 0 1 0 0 _ _
          (on_err-Takes sent 0 1 0 _ _
            (Takes_weaken sent 1 0 1 1 _ (omega arith) (omega arith)
              (>>=-Takes sent 1 1 0 0 _ _ (reading-Takes _ 1 1 _ t) (λ tx. return-Takes sent _)))
            (λ e. if-Takes sent _ 0 0 _ _ (return-Takes sent _) (return-Takes sent _)))
          wait_for-Takes)

  send_sign_new_signing_policy-Takes :
      (id : ℤ) (policy : Bytes)
      → Takes sent 0 1 (send_sign_new_signing_policy c.registry_client.base id policy)
  unfolding send_sign_new_signing_policy
  send_sign_new_signing_policy-Takes id policy = first-Takes 0 1 _ _ (return-Takes sent _) (λ hash.
      first-Takes 0 1 _ _ (return-Takes sent _) (λ bytes.
        first-Takes 0 1 _ _ (return-Takes sent _)
          (λ s. send_and_wait-Takes _ _ (λ opts. laws.sign_new_signing_policy opts _ _ _))))

  send_sign_uptime_vote-Takes :
      (id : ℤ) → Takes sent 0 1 (send_sign_uptime_vote c.registry_client.base id)
  unfolding send_sign_uptime_vote get_uptime_signature
  send_sign_uptime_vote-Takes id =
      first-Takes 0 1 _ _
        (first-Takes 0 0 _ _ (return-Takes sent _)
          (λ p. first-Takes 0 0 _ _ (return-Takes sent _) (λ b. return-Takes sent _)))
        (λ s. send_and_wait-Takes _ _ (λ opts. laws.sign_uptime_vote opts _ _ _))

  send_sign_rewards-Takes :
      (id : ℤ) (hash : ℕ) (claims : ℤ)
      → Takes sent 0 1 (send_sign_rewards c.registry_client.base id hash claims)
  unfolding send_sign_rewards encode_rewards_data
  send_sign_rewards-Takes id hash claims =
      first-Takes 0 1 _ _ (first-Takes 0 0 _ _ (return-Takes sent _) (λ b. return-Takes sent _))
        (λ p. first-Takes 0 1 _ _ (return-Takes sent _) (λ b.
          first-Takes 0 1 _ _ (return-Takes sent _)
            (λ s. send_and_wait-Takes _ _ (λ opts. laws.sign_rewards opts _ _ _ _))))

  registration_price-Takes : Takes sent 0 0 (registration_price c.registry_client)
  unfolding registration_price
  registration_price-Takes =
      on_err-Takes sent 0 0 0 _ _ (get_gas_price-Takes _ sent laws.eth _) (λ e. return-Takes sent _)

  -- One attempt to register sends one transaction at most, whatever the node answers; and if it returns
  -- no error, it has sent one.
  pub send_register_voter-Takes :
      (id : ℤ) (address : ℕ) → Takes sent 1 1 (send_register_voter c.registry_client id address)
  unfolding send_register_voter create_signature
  send_register_voter-Takes id address =
      first-Takes 1 1 _ _ (first-Takes 0 0 _ _ (return-Takes sent _) (λ m. return-Takes sent _))
        (λ b. first-Takes 1 1 _ _ (return-Takes sent _) (λ s.
          first-Takes 1 1 _ _ registration_price-Takes (λ p.
            first-Takes 1 1 _ _ (writing-Takes _) (λ u.
              >>=-Takes sent 1 1 0 0 _ _
                (reading-Takes _ 1 1 _ (λ opts. laws.register_voter opts _ _))
                (λ tx. wait_until_mined-Takes _ sent laws.eth _ _ tx)))))

  logged-Takes :
      {A : Type 0} (h : ℕ) (call : Call W Bytes A)
      → Takes sent 0 h call
      → Takes sent 0 h (logged call)
  logged-Takes h call t = Takes_weaken sent 0 0 (h + 0 + 0) h _ (omega arith) (omega arith) (
      on_err-Takes sent 0 (h + 0) 0 _ _ (>>=-Takes sent 0 h 0 0 _ _ t (λ a. return-Takes sent _))
        (λ e. return-Takes sent _))

  is_future_epoch-Takes : (id : ℤ) → Takes sent 0 0 (is_future_epoch c id)
  unfolding is_future_epoch get_current_reward_epoch_id
  is_future_epoch-Takes id =
      first-Takes 0 0 _ _
        (Takes_weaken sent 0 0 (4 * 0) 0 _ (omega arith) (omega arith)
          (retry_call-Takes sent _ 0 0 laws.get_current_reward_epoch_id 4))
        (λ s. return-Takes sent _)

  fetch-Takes : (path : Bytes) → Takes sent 0 0 (fetch_rewards_hash_bytes c.rewards_source path)
  unfolding fetch_rewards_hash_bytes
  fetch-Takes path =
      if-Takes sent _ 0 0 _ _
        (first-Takes 0 0 _ _
          (Takes_weaken sent 0 0 (3 * 0) 0 _ (omega arith) (omega arith)
            (retry_call-Takes sent _ 0 0 (laws.http_get path) 3))
          (λ r. return-Takes sent _))
        (laws.read_file path)

  get_rewards_hash-Takes :
      (id : ℤ) (prefix : Bytes) → Takes sent 0 0 (get_rewards_hash c.rewards_source id prefix)
  unfolding get_rewards_hash
  get_rewards_hash-Takes id [] = return-Takes sent _
  get_rewards_hash-Takes id (p ∷ ps) =
      first-Takes 0 0 _ _ (fetch-Takes _) (λ bytes. return-Takes sent _)

  handle_event-Takes : (e : Event) → Takes sent 0 4 (handle_event c e)
  unfolding handle_event register_voter Registry.register_voter sign_policy sign_new_signing_policy
      sign_uptime sign_uptime_vote sign_epoch_rewards sign_rewards
  handle_event-Takes (vote_power_block_selected id) =
      first-Takes 0 4 _ _ (is_future_epoch-Takes id) (λ future.
        if-Takes sent future 0 4 _ _
          (logged-Takes 4 _ (retry_call-Takes sent _ 1 1 (send_register_voter-Takes id _) 4))
          (Takes_weaken sent 0 0 0 4 _ (omega arith) (omega arith) (return-Takes sent _)))
  handle_event-Takes (signing_policy_initialized id policy) =
      first-Takes 0 4 _ _ (is_future_epoch-Takes id) (λ future.
        if-Takes sent future 0 4 _ _
          (logged-Takes 4 _
            (retry_call-Takes sent _ 0 1 (send_sign_new_signing_policy-Takes id policy) 4))
          (Takes_weaken sent 0 0 0 4 _ (omega arith) (omega arith) (return-Takes sent _)))
  handle_event-Takes (sign_uptime_vote_enabled id) =
      logged-Takes 4 _ (retry_call-Takes sent _ 0 1 (send_sign_uptime_vote-Takes id) 4)
  handle_event-Takes (uptime_vote_signed id) = logged-Takes 4 _ (
      first-Takes 0 4 _ _ (get_rewards_hash-Takes id _)
        (λ hash. retry_call-Takes sent _ 0 1 (send_sign_rewards-Takes id _ _) 4))

  one_event :
      (b : Bool) (e : Event) (n : ℕ) (rest : Call W Bytes (Unit {0}))
      → Takes sent 0 (4 * n) rest
      → Takes sent 0 (4 * (if b then suc n else n)) (if b then (handle_event c e >> rest) else rest)
  one_event true e n rest t =
      Takes_weaken sent 0 0 (4 + 4 * n) (4 * suc n) _ (omega arith) (omega arith)
        (>>=-Takes sent 0 4 0 (4 * n) _ _ (handle_event-Takes e) (λ u. t))
  one_event false e n rest t = t

  -- Over any sequence of events the epoch client sends at most four transactions for each event that it
  -- listens for, and none for the others.
  pub run_context-Takes : (es : List Event) → Takes sent 0 (4 * heard c es) (run_context c es)
  unfolding run_context
  run_context-Takes [] =
      Takes_weaken sent 0 0 0 (4 * 0) _ (omega arith) (omega arith) (return-Takes sent _)
  run_context-Takes (e ∷ es) =
      one_event (listens c e) e (heard c es) (run_context c es) (run_context-Takes es)
