-- ===== src/Finalizer/Running/Stored.antt =====
-- client/finalizer/submission_storage.go: the policies of the stored messages, and what is left after
-- voting rounds are removed.
use flare_system_client.Prelude.{
  ℕ, ◌≡◌, refl, sym, ap, ◌∙◌, subst, Bool, true, false, List, [], ◌∷◌, Option, none, some, arith,
  Bool-cases, inl, inr, some-injective, ◌==◌, if◌then◌else◌,
}
use flare_system_client.Finalizer.Payload.{SignedPayload}
use flare_system_client.Finalizer.Policies.{SigningPolicy}
use flare_system_client.Finalizer.Submissions.{
  MessageData, VotingRoundItem, SubmissionStorage, new_message_data, put_payload, add, get,
  copy_message, delete_round, remove_voting_round_ids,
}
use flare_system_client.Finalizer.Submissions.Counted.{IsCounted}
use flare_system_client.Finalizer.Submissions.Message.{
  refused, repeated, stored, out_of_range, outcome,
}
use flare_system_client.Finalizer.Submissions.Store.{
  find, has_key, before_add, after_add, find-add, before_add-cases,
}
use flare_system_client.Finalizer.Submissions.Kept.{after_add-kept}

put_payload-policy :
    (m : MessageData) (p : SignedPayload) (i w t : ℕ)
    → (put_payload m i p w t).signing_policy ≡ m.signing_policy
unfolding put_payload
put_payload-policy m p i w t = refl

after_add-policy :
    (s : SubmissionStorage) (p : SignedPayload) (sp : SigningPolicy) (t : ℕ)
    → (after_add s p sp t).signing_policy ≡ (before_add s p sp).signing_policy
after_add-policy s p sp t = elim (outcome (before_add s p sp) p t) [
  | refused k _ r ↦ ap (λ m. m.signing_policy) (after_add-kept s p sp t _ r)
  | repeated i q _ _ r ↦ ap (λ m. m.signing_policy) (after_add-kept s p sp t _ r)
  | out_of_range i _ _ r ↦ ap (λ m. m.signing_policy) (after_add-kept s p sp t _ r)
  | stored i w _ _ _ r ↦
      ap (λ m. m.signing_policy) (after_add-kept s p sp t _ r)
      ∙ put_payload-policy (before_add s p sp) p i w t
]

-- What holds of every stored message.
abbrev pub AllStored : (MessageData → Type 0) → SubmissionStorage → Type 0
AllStored Q s = (r i h : ℕ) (m : MessageData) → find s r i h ≡ some m → Q m

module _ (P : SigningPolicy → Type 0) where
  new_message_data-policy : (sp : SigningPolicy) → (new_message_data sp).signing_policy ≡ sp
  unfolding new_message_data
  new_message_data-policy sp = refl

  abbrev ForPolicy : MessageData → Type 0
  ForPolicy m = P m.signing_policy

  before_add-policy :
      (s : SubmissionStorage) (p : SignedPayload) (sp : SigningPolicy)
      → AllStored ForPolicy s
      → P sp
      → P (before_add s p sp).signing_policy
  before_add-policy s p sp all h = elim (before_add-cases s p sp) [
    | inl found ↦ all p.message.voting_round_id p.message.protocol_id p.message_hash _ found
    | inr fresh ↦ subst P (sym (ap (λ m. m.signing_policy) fresh ∙ new_message_data-policy sp)) h
  ]

  pub add-AllStored :
      (s : SubmissionStorage) (p : SignedPayload) (sp : SigningPolicy) (t : ℕ)
      → AllStored ForPolicy s
      → P sp
      → AllStored ForPolicy (add s p sp t).0
  add-AllStored s p sp t all h r i k m e = elim (Bool-cases (has_key p r i k)) [
    | inr other ↦ all r i k m (ground (arith, other, e, find-add s p sp t r i k))
    | inl key ↦
        let same : after_add s p sp t ≡ m = ground (arith, key, e, find-add s p sp t r i k) in
        subst ForPolicy same
          (subst P (sym (after_add-policy s p sp t)) (before_add-policy s p sp all h))
  ]

abbrev message_of : Option VotingRoundItem → ℕ → ℕ → Option MessageData
message_of found i h = elim found [ none ↦ none | some item ↦ item i h ]

message_of-unless :
    (gone : Bool) (found : Option VotingRoundItem) (i h : ℕ) (m : MessageData)
    → message_of (if gone then none else found) i h ≡ some m
    → message_of found i h ≡ some m
message_of-unless true found i h m e = absurd (ground arith)
message_of-unless false found i h m e = e

module _ (Q : MessageData → Type 0) where
  find-delete_round :
      (s : SubmissionStorage) (id r i h : ℕ) (m : MessageData)
      → find (delete_round s id) r i h ≡ some m
      → find s r i h ≡ some m
  unfolding find delete_round
  find-delete_round s id r i h m e = message_of-unless (r == id) (s r) i h m e

  pub remove_voting_round_ids-AllStored :
      (ids : List ℕ) (s : SubmissionStorage)
      → AllStored Q s
      → AllStored Q (remove_voting_round_ids s ids)
  unfolding remove_voting_round_ids
  remove_voting_round_ids-AllStored [] s all = all
  remove_voting_round_ids-AllStored (id ∷ ids) s all =
      remove_voting_round_ids-AllStored ids (delete_round s id)
        (λ r i h m e. all r i h m (find-delete_round s id r i h m e))

copied :
    (stored : Option MessageData) (m : MessageData)
    → elim stored [ none ↦ none | some m' ↦ some (copy_message m') ] ≡ some m
    → (m' : MessageData) × (stored ≡ some m') × (copy_message m' ≡ m)
copied none m e = absurd (ground arith)
copied (some m') m e = (m', refl, some-injective e)

copied_of :
    (found : Option VotingRoundItem) (i h : ℕ) (m : MessageData)
    → elim found [
      | none ↦ none
      | some item ↦ elim (item i h) [ none ↦ none | some m' ↦ some (copy_message m') ]
    ]
      ≡ some m
    → (m' : MessageData) × (message_of found i h ≡ some m') × (copy_message m' ≡ m)
copied_of none i h m e = absurd (ground arith)
copied_of (some item) i h m e = copied (item i h) m e

-- `Get` returns a copy of the stored message.
pub get-stored :
    (s : SubmissionStorage) (r i h : ℕ) (m : MessageData)
    → get s r i h ≡ some m
    → (m' : MessageData) × (find s r i h ≡ some m') × (copy_message m' ≡ m)
unfolding get find
get-stored s r i h m e = copied_of (s r) i h m e

pub copy_message-IsCounted : (m : MessageData) → IsCounted m → IsCounted (copy_message m)
unfolding copy_message
copy_message-IsCounted m books = record {
  places = books.places;
  counted = books.counted;
  placed = books.placed;
}
