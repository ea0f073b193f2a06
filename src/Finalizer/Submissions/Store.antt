-- ===== src/Finalizer/Submissions/Store.antt =====
-- client/finalizer/submission_storage.go: what an addition changes, and that a message is announced once.
use flare_system_client.Prelude.{
  ℕ, ◌+◌, ◌≤◌, ◌≡◌, ◌⊎◌, refl, Bool, true, false, not, ◌&&◌, List, [], ◌∷◌, arith, ◌==◌,
  if◌then◌else◌, inl, inr, Option, none, some, Bool-cases, ok, err, panicked,
}
use flare_system_client.Finalizer.Payload.{SignedPayload}
use flare_system_client.Finalizer.Policies.{SigningPolicy}
use flare_system_client.Finalizer.Submissions.{
  MessageData, SubmissionStorage, new_message_data, put_payload, add_payload, put_message,
  put_round, round_item, message_data, add,
}
use flare_system_client.Finalizer.Submissions.Message.{
  refused, repeated, stored, out_of_range, outcome,
}

-- The stored message of a round, a protocol and a hash.
unfoldable pub find : SubmissionStorage → ℕ → ℕ → ℕ → Option MessageData
find s r i h = elim (s r) [ none ↦ none | some item ↦ item i h ]

abbrev pub has_key : SignedPayload → ℕ → ℕ → ℕ → Bool
has_key p r i h =
    p.message.voting_round_id == r && (p.message.protocol_id == i && p.message_hash == h)

-- The message that an addition works on.
abbrev pub before_add : SubmissionStorage → SignedPayload → SigningPolicy → MessageData
before_add s p sp =
    message_data (round_item s p.message.voting_round_id) p.message.protocol_id p.message_hash sp

-- The message that it leaves: the old one if the payload is refused.
unfoldable pub after_add : SubmissionStorage → SignedPayload → SigningPolicy → ℕ → MessageData
after_add s p sp t = elim (add_payload (before_add s p sp) p t) [
  | ok m' ↦ m'
  | err e ↦ before_add s p sp
  | panicked ↦ before_add s p sp
]

-- An addition changes the message with the payload's key and no other.
pub find-add :
    (s : SubmissionStorage) (p : SignedPayload) (sp : SigningPolicy) (t r i h : ℕ)
    → find (add s p sp t).0 r i h
      ≡ (if has_key p r i h then some (after_add s p sp t) else find s r i h)
unfolding find add after_add put_round put_message round_item
find-add s p sp t r i h = ground arith

-- The message that an addition works on is the stored one, or a new one.
find-before_add :
    (s : SubmissionStorage) (p : SignedPayload) (sp : SigningPolicy) (m : MessageData)
    → find s p.message.voting_round_id p.message.protocol_id p.message_hash ≡ some m
    → before_add s p sp ≡ m
unfolding find message_data round_item
find-before_add s p sp m e = ground arith

pub before_add-cases :
    (s : SubmissionStorage) (p : SignedPayload) (sp : SigningPolicy)
    → (find s p.message.voting_round_id p.message.protocol_id p.message_hash
        ≡ some (before_add s p sp))
      ⊎ (before_add s p sp ≡ new_message_data sp)
unfolding find message_data round_item
before_add-cases s p sp = ground arith

-- Whether the result of an addition says that the threshold was reached by it.
unfoldable pub announces : SubmissionStorage → SignedPayload → SigningPolicy → ℕ → Bool
announces s p sp t = elim (add s p sp t).1 [
  | ok r ↦ r.threshold_reached
  | err e ↦ false
  | panicked ↦ false
]

pub announces_lem :
    (s : SubmissionStorage) (p : SignedPayload) (sp : SigningPolicy) (t : ℕ)
    → announces s p sp t
      ≡ (not (before_add s p sp).threshold_reached && (after_add s p sp t).threshold_reached)
unfolding announces add after_add
announces_lem s p sp t = ground arith

-- The flag of a message stays set.
put_payload-flag :
    (m : MessageData) (p : SignedPayload) (i w t : ℕ)
    → m.threshold_reached ≡ true
    → (put_payload m i p w t).threshold_reached ≡ true
unfolding put_payload
put_payload-flag m p i w t h = ground arith

after_add-flag :
    (s : SubmissionStorage) (p : SignedPayload) (sp : SigningPolicy) (t : ℕ)
    → (before_add s p sp).threshold_reached ≡ true
    → (after_add s p sp t).threshold_reached ≡ true
unfolding after_add
after_add-flag s p sp t h = elim (outcome (before_add s p sp) p t) [
  | refused k _ r ↦ rw (r, after_add) h
  | repeated i q _ _ r ↦ rw (r, after_add) h
  | stored i w _ _ _ r ↦ rw (r, after_add) (put_payload-flag (before_add s p sp) p i w t h)
  | out_of_range i _ _ r ↦ rw (r, after_add) h
]

-- The stored message with a key has its flag set.
abbrev pub IsReached : SubmissionStorage → ℕ → ℕ → ℕ → Type 0
IsReached s r i h = (m : MessageData) × (find s r i h ≡ some m) × (m.threshold_reached ≡ true)

pub has_key-parts :
    (p : SignedPayload) (r i h : ℕ)
    → has_key p r i h ≡ true
    → (p.message.voting_round_id ≡ r) × (p.message.protocol_id ≡ i) × (p.message_hash ≡ h)
has_key-parts p r i h e = ground arith

module _ (r i h : ℕ) where
  -- A message whose threshold was reached is not announced again, and keeps its flag.
  reached_before :
      (s : SubmissionStorage) (p : SignedPayload) (sp : SigningPolicy)
      → has_key p r i h ≡ true
      → IsReached s r i h
      → (before_add s p sp).threshold_reached ≡ true
  reached_before s p sp key (m, e, flag) =
      let (er, ei, eh) = has_key-parts p r i h key in
      rw (find-before_add s p sp m (rw (er, ei, eh) e)) flag

  add-IsReached :
      (s : SubmissionStorage) (p : SignedPayload) (sp : SigningPolicy) (t : ℕ)
      → IsReached s r i h
      → IsReached (add s p sp t).0 r i h
  add-IsReached s p sp t (m, e, flag) = elim (Bool-cases (has_key p r i h)) [
    | inr other ↦ (m, ground (arith, other, find-add s p sp t r i h), flag)
    | inl key ↦ (
      after_add s p sp t,
      ground (arith, key, find-add s p sp t r i h),
      after_add-flag s p sp t (reached_before s p sp key (m, e, flag)),
    )
  ]

  announces-IsReached :
      (s : SubmissionStorage) (p : SignedPayload) (sp : SigningPolicy) (t : ℕ)
      → has_key p r i h ≡ true
      → announces s p sp t ≡ true
      → IsReached (add s p sp t).0 r i h
  announces-IsReached s p sp t key e = (
    after_add s p sp t,
    ground (arith, key, find-add s p sp t r i h),
    ground (arith, announces_lem s p sp t),
  )

  -- How often the message with this key is announced in the course of some additions.
  pub announcements : SubmissionStorage → List (SignedPayload × SigningPolicy × ℕ) → ℕ
  announcements s [] = 0
  announcements s ((p, sp, t) ∷ ops) =
      (if has_key p r i h && announces s p sp t then 1 else 0) + announcements (add s p sp t).0 ops

  announcements_reached :
      (s : SubmissionStorage) (ops : List (SignedPayload × SigningPolicy × ℕ))
      → IsReached s r i h
      → announcements s ops ≡ 0
  unfolding announcements
  announcements_reached s [] reached = refl
  announcements_reached s ((p, sp, t) ∷ ops) reached =
      let later = announcements_reached (add s p sp t).0 ops (add-IsReached s p sp t reached) in
      elim (Bool-cases (has_key p r i h)) [
        | inr other ↦ ground (arith, other, later)
        | inl key ↦
            ground (arith, key, later, announces_lem s p sp t, reached_before s p sp key reached)
      ]

  -- In any course of additions, on any storage, the threshold of a message is announced once at most.
  pub announcements-le-one :
      (s : SubmissionStorage) (ops : List (SignedPayload × SigningPolicy × ℕ))
      → announcements s ops ≤ 1
  unfolding announcements
  announcements-le-one s [] = omega arith
  announcements-le-one s ((p, sp, t) ∷ ops) =
      elim (Bool-cases (has_key p r i h && announces s p sp t)) [
        | inr quiet ↦ ground (arith, quiet, announcements-le-one (add s p sp t).0 ops)
        | inl loud ↦
            let reached = announces-IsReached s p sp t (ground arith) (ground arith) in
            ground (arith, loud, announcements_reached (add s p sp t).0 ops reached)
      ]
