-- ===== src/Finalizer/Running/Fair.antt =====
-- client/finalizer: the policies of the storage have a weight for each voter, and fit the relay message.
use flare_system_client.Prelude.{
  ℕ, ◌≤◌, ◌<◌, ◌≡◌, subst, List, [], ◌∷◌, ◌++◌, All, Option, none, some, ok, >>=-eq-ok,
  ok-injective, arith, length, leb, Bool-cases, inl, inr, ltb_ℤ, ◌-ℤ◌, pos, Option-cases, Go-cases,
  some-injective,
}
use flare_system_client.Utils.Int64.{eq_ℤ}
use flare_system_client.Voters.{VoterSet, word16, count, new_voter_set, index_voters}
use flare_system_client.Voters.Weights.{sum}
use flare_system_client.Finalizer.Policies.{
  SigningPolicy, PolicyData, new_signing_policy, last_of, add, remove_by_voting_round,
}
use flare_system_client.Finalizer.Relay.{
  Log, PolicyResponse, parse_policies, fetch_signing_policies,
}
use flare_system_client.Finalizer.Client.{FinalizerContext, add_existing}
use flare_system_client.Finalizer.Running.{fetch_existing_signing_policies}

-- What the relay contract's event promises of the lists of a policy: there is a weight for each voter,
-- their sum fits 16 bits, and there are at most 65535 voters.
pub record IsFairData (d : PolicyData) : Type 0 where
  pub weighted : length d.voters ≤ length d.weights
  pub small : sum d.weights < word16
  pub few : length d.voters ≤ 65535

pub record IsFair (sp : SigningPolicy) : Type 0 where
  pub weighted : count sp.voters ≤ length sp.voters.weights
  pub small : sum sp.voters.weights < word16
  pub few : count sp.voters ≤ 65535

pub new_signing_policy-IsFair :
    (d : PolicyData) (sp : SigningPolicy) → IsFairData d → new_signing_policy d ≡ ok sp → IsFair sp
unfolding new_signing_policy new_voter_set count
new_signing_policy-IsFair d sp h e =
    let (vs, made, same) = >>=-eq-ok (new_voter_set d.voters d.weights) _ {r = sp} e in
    let (m, indexed, same_set) =
      >>=-eq-ok (index_voters 0 d.voters d.weights (λ _. none)) _ {r = vs} made in
    subst IsFair (ok-injective same) (
      subst
        (λ (v : VoterSet). IsFair (record {
          reward_epoch_id = d.reward_epoch_id;
          start_voting_round_id = d.start_voting_round_id;
          threshold = d.threshold;
          seed = d.seed;
          raw_bytes = d.signing_policy_bytes;
          block_timestamp = d.timestamp;
          voters = v;
        }))
        (ok-injective same_set) (record { weighted = h.weighted; small = h.small; few = h.few }))

module _ (P : SigningPolicy → Type 0) where
  All-last :
      (ps : List SigningPolicy) (sp : SigningPolicy) → All P ps → P sp → All P (ps ++ (sp ∷ []))
  All-last [] sp h k = (k, tt)
  All-last (p ∷ ps) sp h k = (h.0, All-last ps sp h.1 k)

  -- The policies that `Add` accepts, and those that `RemoveByVotingRound` leaves.
  pub add-All :
      (ps ps' : List SigningPolicy) (sp : SigningPolicy)
      → All P ps
      → P sp
      → add ps sp ≡ ok ps'
      → All P ps'
  unfolding add
  add-All [] ps' sp h k e = subst (All P) (ok-injective e) (k, tt)
  add-All (p ∷ ps) ps' sp h k e =
      elim (Bool-cases (eq_ℤ (last_of p ps).reward_epoch_id (sp.reward_epoch_id -ℤ pos 1))) [
        | inr other ↦ absurd (ground (arith, other))
        | inl same ↦
            elim (Bool-cases (leb (last_of p ps).start_voting_round_id sp.start_voting_round_id)) [
              | inr early ↦ absurd (ground (arith, same, early))
              | inl later ↦
                  subst (All P) (ok-injective (rw (same, add, later) at e))
                    (All-last (p ∷ ps) sp h k)
            ]
      ]

  pub remove_by_voting_round-All :
      (ps : List SigningPolicy) (round : ℕ) → All P ps → All P (remove_by_voting_round ps round).1
  unfolding remove_by_voting_round
  remove_by_voting_round-All [] round h = tt
  remove_by_voting_round-All (p ∷ ps) round h =
      elim (Bool-cases (leb p.start_voting_round_id round)) [
        | inl old ↦ rw (old, remove_by_voting_round) (remove_by_voting_round-All ps round h.1)
        | inr recent ↦ rw (recent, remove_by_voting_round) h
      ]

abbrev pub FairParse : (Log → Option PolicyData) → Type 0
FairParse parse = (log : Log) (d : PolicyData) → parse log ≡ some d → IsFairData d

abbrev AllFairData : List PolicyResponse → Type 0
AllFairData rs = All (λ (r : PolicyResponse). IsFairData r.policy_data) rs

module _ (parse : Log → Option PolicyData) (fair : FairParse parse) where
  parse_policies-AllFair :
      (logs : List Log) (rs : List PolicyResponse)
      → parse_policies parse logs ≡ some rs
      → AllFairData rs
  unfolding parse_policies
  parse_policies-AllFair [] rs e = subst AllFairData (some-injective e) tt
  parse_policies-AllFair (log ∷ logs) rs e = elim (Option-cases (parse log)) [
    | inl gone ↦ absurd (ground (arith, gone))
    | inr (d, found) ↦ elim (Option-cases (parse_policies parse logs)) [
      | inl gone ↦ absurd (ground (arith, found, gone))
      | inr (rest, others) ↦
          subst AllFairData (some-injective (rw (found, others, parse_policies) at e))
            (fair log d found, parse_policies-AllFair logs rest others)
    ]
  ]

  module _ (ctx : FinalizerContext) where
    add_existing-AllFair :
        (ps ps' : List SigningPolicy) (rs : List PolicyResponse)
        → AllFairData rs
        → All IsFair ps
        → add_existing ctx ps rs ≡ ok ps'
        → All IsFair ps'
    unfolding add_existing
    add_existing-AllFair ps ps' [] f h e = subst (All IsFair) (ok-injective e) h
    add_existing-AllFair ps ps' (r ∷ rs) f h e =
        elim (Go-cases (new_signing_policy r.policy_data)) [
          | inr (inl (x, failed)) ↦ absurd (ground (arith, failed))
          | inr (inr failed) ↦ absurd (ground (arith, failed))
          | inl (sp, made) ↦
              elim (Bool-cases (ltb_ℤ sp.reward_epoch_id ctx.starting_reward_epoch)) [
                | inl before ↦
                    add_existing-AllFair ps ps' rs f.1 h (rw (made, before, add_existing) at e)
                | inr later ↦
                    let (ps1, joined, rest) =
                      >>=-eq-ok (add ps sp) (λ ps1. add_existing ctx ps1 rs) {r = ps'}
                        (rw (made, later, add_existing) at e) in
                    add_existing-AllFair ps1 ps' rs f.1
                      (add-All IsFair ps ps1 sp h
                        (new_signing_policy-IsFair r.policy_data sp f.0 made) joined)
                      rest
              ]
        ]

    pub fetch_existing_signing_policies-AllFair :
        (logs : Option (List Log)) (start_time from : ℕ) (policies : List SigningPolicy)
        → fetch_existing_signing_policies ctx parse logs start_time ≡ ok (policies, from)
        → All IsFair policies
    unfolding fetch_existing_signing_policies fetch_signing_policies
    fetch_existing_signing_policies-AllFair none start_time from policies e = absurd (ground arith)
    fetch_existing_signing_policies-AllFair (some logs) start_time from policies e =
        elim (Option-cases (parse_policies parse logs)) [
          | inl gone ↦ absurd (ground (arith, gone))
          | inr (rs, parsed) ↦ elim (Go-cases (add_existing ctx [] rs)) [
            | inr (inl (x, failed)) ↦ absurd (ground (arith, parsed, failed))
            | inr (inr failed) ↦ absurd (ground (arith, parsed, failed))
            | inl (ps, joined) ↦
                let same : ps ≡ policies = ground (arith, parsed, joined) in
                subst (All IsFair) same
                  (add_existing-AllFair [] ps rs (parse_policies-AllFair logs rs parsed) tt joined)
          ]
        ]
