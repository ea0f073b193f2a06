-- ===== src/Finalizer/Client/Late.antt =====
-- client/finalizer/finalizer_client.go: the threshold of the last policy, and what the cleanup removes.
use flare_system_client.Prelude.{
  ℕ, suc, ◌+◌, ◌≤◌, ◌<◌, ◌≡◌, Bool-cases, inl, inr, refl, ◌∙◌, Bool, true, false, List, [], ◌∷◌,
  Option, none, some, ok, ℤ, pos, ltb_ℤ, ◌==◌, ◌||◌, if◌then◌else◌,
}
use flare_system_client.Utils.Epochs.{end_time}
use flare_system_client.Utils.Epochs.Located.{end_epoch-first}
use flare_system_client.Voters.{total_weight}
use flare_system_client.Finalizer.Policies.{SigningPolicy, get_for_voting_round}
use flare_system_client.Finalizer.Submissions.{
  SubmissionStorage, get, delete_round, remove_voting_round_ids,
}
use flare_system_client.Finalizer.Client.{
  FinalizerContext, signing_policy_data, lowered_threshold, Error,
}

-- The last policy's own threshold no longer counts once the first reward epoch is over, if its reward
-- epoch id, read as a voting round, lies in that epoch: the end is taken of the reward epoch that contains
-- the voting round with this number. The first reward epoch starts at the voting round `a`, and has
-- `suc n` voting rounds.
pub signing_policy_data-lowered :
    (ctx : FinalizerContext) (now : ℤ) (ps : List SigningPolicy) (round : ℕ) (sp : SigningPolicy)
    (a n id : ℕ)
    → get_for_voting_round ps round ≡ some (sp, true)
    → ctx.reward_epoch.start ≡ pos a
    → ctx.reward_epoch.period ≡ pos (suc n)
    → sp.reward_epoch_id ≡ pos id
    → a ≤ id
    → id < a + suc n
    → ltb_ℤ now (end_time ctx.voting_epoch (pos (a + suc n))) ≡ false
    → signing_policy_data ctx now ps round
      ≡ ok (some (sp, lowered_threshold (total_weight sp.voters)))
unfolding signing_policy_data
signing_policy_data-lowered ctx now ps round sp a n id last start period here low high over =
    rw
      (
        last,
        signing_policy_data,
        end_epoch-first {E = Error} ctx.reward_epoch sp.reward_epoch_id a n id start period here low
            high,
        over,
      )
      refl

-- Whether a voting round is among some numbers.
pub among : List ℕ → ℕ → Bool
among [] r = false
among (id ∷ ids) r = r == id || among ids r

either :
    {A : Type 0} (b c : Bool) (x y : Option A)
    → y ≡ (if b then none else x)
    → (if c then none else y) ≡ (if b || c then none else x)
either true true x y e = refl
either true false x y e = e
either false true x y e = refl
either false false x y e = e

delete_round-get :
    (s : SubmissionStorage) (id r i h : ℕ)
    → get (delete_round s id) r i h ≡ (if r == id then none else get s r i h)
unfolding get delete_round
delete_round-get s id r i h = elim (Bool-cases (r == id)) [
  | inl e ↦ rw (e, get, delete_round) refl
  | inr e ↦ rw (e, get, delete_round) refl
]

-- `RemoveVotingRoundIds` removes the messages of the voting rounds whose ids it is given, and no others.
-- `rewardEpochCleanup` gives it the ids of reward epochs.
pub remove_voting_round_ids-get :
    (ids : List ℕ) (s : SubmissionStorage) (r i h : ℕ)
    → get (remove_voting_round_ids s ids) r i h ≡ (if among ids r then none else get s r i h)
unfolding among remove_voting_round_ids
remove_voting_round_ids-get [] s r i h = refl
remove_voting_round_ids-get (id ∷ ids) s r i h =
    remove_voting_round_ids-get ids (delete_round s id) r i h
    ∙ either (r == id) (among ids r) (get s r i h) _ (delete_round-get s id r i h)
