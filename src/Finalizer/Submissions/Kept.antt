-- ===== src/Finalizer/Submissions/Kept.antt =====
-- client/finalizer/submission_storage.go: what is stored after an addition, and what an announcement means.
use flare_system_client.Prelude.{
  ℕ, ◌<◌, ◌≡◌, refl, sym, true, false, arith, inl, inr, some, Bool-cases, Go, ok, err, panicked,
  subst,
}
use flare_system_client.Finalizer.Payload.{SignedPayload}
use flare_system_client.Finalizer.Policies.{SigningPolicy}
use flare_system_client.Finalizer.Submissions.{
  Error, MessageData, SubmissionStorage, new_message_data, put_payload, add_payload, add,
  copy_message, get,
}
use flare_system_client.Finalizer.Submissions.Counted.{IsCounted, new_message_data-IsCounted}
use flare_system_client.Finalizer.Submissions.Message.{
  refused, repeated, stored, out_of_range, outcome, add_payload-IsCounted,
}
use flare_system_client.Voters.{word16}
use flare_system_client.Voters.Weights.{sum}
use flare_system_client.Finalizer.Submissions.Store.{
  find, has_key, before_add, after_add, find-add, before_add-cases, announces, announces_lem,
}

put_payload-weight :
    (m : MessageData) (p : SignedPayload) (i w t : ℕ)
    → m.threshold_reached ≡ false
    → (put_payload m i p w t).threshold_reached ≡ true
    → t < (put_payload m i p w t).weight
unfolding put_payload
put_payload-weight m p i w t before after = ground arith

get-find :
    (s : SubmissionStorage) (r i h : ℕ) (m : MessageData)
    → find s r i h ≡ some m
    → get s r i h ≡ some (copy_message m)
unfolding get find
get-find s r i h m e = ground arith

-- What an addition leaves, by the way it ends.
pub after_add-kept :
    (s : SubmissionStorage) (p : SignedPayload) (sp : SigningPolicy) (t : ℕ)
    (x : Go Error MessageData)
    → add_payload (before_add s p sp) p t ≡ x
    → after_add s p sp t
      ≡ elim x [ ok m' ↦ m' | err e ↦ before_add s p sp | panicked ↦ before_add s p sp ]
unfolding after_add
after_add-kept s p sp t x e = rw (e, after_add) refl

reached-weight :
    (s : SubmissionStorage) (p : SignedPayload) (sp : SigningPolicy) (t : ℕ)
    → (before_add s p sp).threshold_reached ≡ false
    → (after_add s p sp t).threshold_reached ≡ true
    → t < (after_add s p sp t).weight
reached-weight s p sp t before after = elim (outcome (before_add s p sp) p t) [
  | refused k _ r ↦ absurd (ground (arith, before, after, after_add-kept s p sp t _ r))
  | repeated i q _ _ r ↦ absurd (ground (arith, before, after, after_add-kept s p sp t _ r))
  | out_of_range i _ _ r ↦ absurd (ground (arith, before, after, after_add-kept s p sp t _ r))
  | stored i w _ _ _ r ↦
      let kept = after_add-kept s p sp t _ r in
      rw kept (put_payload-weight (before_add s p sp) p i w t before (rw (sym kept) after))
]

-- When an addition announces a message, its flag was not set before, it now weighs more than the
-- threshold, and `Get` returns a copy of it for the payload's key.
pub announces-weight :
    (s : SubmissionStorage) (p : SignedPayload) (sp : SigningPolicy) (t : ℕ)
    → announces s p sp t ≡ true
    → ((before_add s p sp).threshold_reached ≡ false)
      × (t < (after_add s p sp t).weight)
      × (get (add s p sp t).0 p.message.voting_round_id p.message.protocol_id p.message_hash
          ≡ some (copy_message (after_add s p sp t)))
announces-weight s p sp t e =
    let law = announces_lem s p sp t in
    let before : (before_add s p sp).threshold_reached ≡ false = ground (arith, law, e) in
    let after : (after_add s p sp t).threshold_reached ≡ true = ground (arith, law, e) in
    (
      before,
      reached-weight s p sp t before after,
      get-find (add s p sp t).0 p.message.voting_round_id p.message.protocol_id p.message_hash
          (after_add s p sp t)
          (ground (
            arith,
            find-add s p sp t p.message.voting_round_id p.message.protocol_id p.message_hash,
          )),
    )

-- A message has its books in order, for a policy whose total weight fits 16 bits.
abbrev pub IsKept : MessageData → Type 0
IsKept m = IsCounted m × (sum m.signing_policy.voters.weights < word16)

-- Every stored message has its books in order.
abbrev pub AllKept : SubmissionStorage → Type 0
AllKept s = (r i h : ℕ) (m : MessageData) → find s r i h ≡ some m → IsKept m

new_message_data-IsKept :
    (sp : SigningPolicy) → sum sp.voters.weights < word16 → IsKept (new_message_data sp)
unfolding new_message_data
new_message_data-IsKept sp small = (new_message_data-IsCounted sp, small)

before_add-IsKept :
    (s : SubmissionStorage) (p : SignedPayload) (sp : SigningPolicy)
    → AllKept s
    → sum sp.voters.weights < word16
    → IsKept (before_add s p sp)
before_add-IsKept s p sp all small = elim (before_add-cases s p sp) [
  | inl found ↦ all p.message.voting_round_id p.message.protocol_id p.message_hash _ found
  | inr fresh ↦ subst IsKept (sym fresh) (new_message_data-IsKept sp small)
]

put_payload-policy :
    (m : MessageData) (p : SignedPayload) (i w t : ℕ)
    → (put_payload m i p w t).signing_policy ≡ m.signing_policy
unfolding put_payload
put_payload-policy m p i w t = refl

after_add-IsKept :
    (s : SubmissionStorage) (p : SignedPayload) (sp : SigningPolicy) (t : ℕ)
    → IsKept (before_add s p sp)
    → IsKept (after_add s p sp t)
after_add-IsKept s p sp t (books, small) = elim (outcome (before_add s p sp) p t) [
  | refused k _ r ↦ subst IsKept (sym (after_add-kept s p sp t _ r)) (books, small)
  | repeated i q _ _ r ↦ subst IsKept (sym (after_add-kept s p sp t _ r)) (books, small)
  | out_of_range i _ _ r ↦ subst IsKept (sym (after_add-kept s p sp t _ r)) (books, small)
  | stored i w _ _ _ r ↦ subst IsKept (sym (after_add-kept s p sp t _ r)) (
    add_payload-IsCounted (before_add s p sp) p t _ books small r,
    rw (put_payload-policy (before_add s p sp) p i w t) small,
  )
]

-- An addition for a policy whose total weight fits 16 bits keeps the books of all stored messages in
-- order, whatever the payload is and whether it is accepted or refused.
pub add-AllKept :
    (s : SubmissionStorage) (p : SignedPayload) (sp : SigningPolicy) (t : ℕ)
    → AllKept s
    → sum sp.voters.weights < word16
    → AllKept (add s p sp t).0
add-AllKept s p sp t all small r i h m e = elim (Bool-cases (has_key p r i h)) [
  | inr other ↦ all r i h m (ground (arith, other, e, find-add s p sp t r i h))
  | inl key ↦
      let same : after_add s p sp t ≡ m = ground (arith, key, e, find-add s p sp t r i h) in
      subst IsKept same (after_add-IsKept s p sp t (before_add-IsKept s p sp all small))
]
