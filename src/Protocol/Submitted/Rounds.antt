-- ===== src/Protocol/Submitted/Rounds.antt =====
-- client/protocol/submitter.go: what the signature submitter sends in all its rounds.
use flare_system_client.Prelude.{
  ok, All-append, ℕ, zero, suc, ◌+◌, ◌≤◌, ◌≡◌, refl, ap, sym, ◌∙◌, subst, Bool, true, false, List,
  [], ◌∷◌, ◌++◌, append_assoc, append-nil, map, All, Perm, length-perm, Bytes, ℤ, arith, length,
  length-append, ltb, Bool-cases, inl, inr, if◌then◌else◌,
}
use mathlib.Core.List.Perm
use flare_system_client.Crypto.{Crypto}
use flare_system_client.Protocol.Signatures.{
  Submitter, SubProtocol, collect_signed, signature_rounds,
}
use flare_system_client.Protocol.Submitted.Left.{round_left-All}
use flare_system_client.Protocol.Submitted.{
  submitted, round_left, rounds_left, signature_rounds_lem, ReportLaws, IsQuiet, Batch, members,
  IsWritten, Collected, submitted-reported, collect_signed-KeepsTo,
}

empty_of : {A : Type 0} (xs : List A) → length xs ≡ 0 → xs ≡ []
empty_of [] e = refl
empty_of (x ∷ xs) e = absurd (omega arith)

le_of_ltb : (a b : ℕ) → ltb a b ≡ false → b ≤ a
le_of_ltb a b e = ground arith

module _ {W : Type 0} where
  -- All the protocols of some payloads.
  abbrev pub all_members : List (Batch W) → List (SubProtocol W)
  all_members [] = []
  all_members (t ∷ ts) = members t.0 ++ all_members ts

module _ {W : Type 0} (s : Submitter W) (reported : W → List Bytes) (c : Crypto) (key : ℕ)
    (epoch : ℤ) where
  abbrev pub payload_of : Batch W → Bytes
  payload_of t = s.selector ++ t.1

  -- The payloads that some rounds have reported as sent: each carries written answers, and each protocol is in one of
  -- them, or is left over.
  pub record ReportedOnce (rounds : ℕ) (to_send left : List (SubProtocol W))
      (before after : List Bytes) : Type 0 where
    pub payloads : List (Batch W)
    pub few : length payloads ≤ rounds
    pub are_written : All (IsWritten c key epoch) payloads
    pub each_once : Perm (all_members payloads ++ left) to_send
    pub are_reported : after ≡ before ++ map payload_of payloads

  nothing-ReportedOnce :
      (rounds : ℕ) (to_send : List (SubProtocol W)) (before after : List Bytes)
      → after ≡ before
      → ReportedOnce rounds to_send to_send before after
  nothing-ReportedOnce rounds to_send before after same = record {
    payloads = [];
    few = omega arith;
    are_written = tt;
    each_once = Perm.refl to_send;
    are_reported = same ∙ sym (append-nil before);
  }

  all_members-append :
      (ts us : List (Batch W)) → all_members (ts ++ us) ≡ all_members ts ++ all_members us
  all_members-append [] us = refl
  all_members-append (t ∷ ts) us =
      ap (λ l. members t.0 ++ l) (all_members-append ts us)
      ∙ sym (append_assoc (members t.0) (all_members ts) (all_members us))

  map-append :
      (ts us : List (Batch W)) → map payload_of (ts ++ us) ≡ map payload_of ts ++ map payload_of us
  map-append [] us = refl
  map-append (t ∷ ts) us = ap (λ l. payload_of t ∷ l) (map-append ts us)

  -- Some rounds and then some more.
  then-ReportedOnce :
      (m n : ℕ) (to_send left last : List (SubProtocol W)) (a b d : List Bytes)
      → ReportedOnce m to_send left a b
      → ReportedOnce n left last b d
      → ReportedOnce (m + n) to_send last a d
  then-ReportedOnce m n to_send left last a b d h k = record {
    payloads = h.payloads ++ k.payloads;
    few = omega (arith, h.few, k.few, length-append h.payloads k.payloads);
    are_written = All-append _ h.payloads k.payloads h.are_written k.are_written;
    each_once =
        subst (λ l. Perm (l ++ last) to_send) (sym (all_members-append h.payloads k.payloads))
          (subst (λ l. Perm l to_send)
            (sym (append_assoc (all_members h.payloads) (all_members k.payloads) last))
            (Perm.trans (Perm.append_left (all_members h.payloads) k.each_once) h.each_once));
    are_reported =
        k.are_reported
        ∙ ap (λ l. l ++ map payload_of k.payloads) h.are_reported
        ∙ append_assoc a (map payload_of h.payloads) (map payload_of k.payloads)
        ∙ ap (λ l. a ++ l) (sym (map-append h.payloads k.payloads));
  }

  module _ (laws : ReportLaws s reported) where
    none_written :
        (to_send left : List (SubProtocol W)) (bytes : Bytes)
        → Collected c key epoch to_send left bytes
        → ltb (length left) (length to_send) ≡ false
        → Perm left to_send
    none_written to_send left bytes h many =
        let empty : length (members h.batch) ≡ 0 = omega (
          arith,
          length-perm h.split,
          length-append (members h.batch) left,
          le_of_ltb (length left) (length to_send) many,
        ) in
        subst (λ l. Perm (l ++ left) to_send) (empty_of (members h.batch) empty) h.split

    sent_by :
        (payload : Bytes) (w : W) (before : List Bytes) (done : Bool)
        → (submitted s payload w).0 ≡ done
        → reported w ≡ before
        → reported (submitted s payload w).1 ≡ (if done then before ++ (payload ∷ []) else before)
    sent_by payload w before done e same =
        submitted-reported s reported laws payload w
        ∙ ap (λ b. if b then reported w ++ (payload ∷ []) else reported w) e
        ∙ ap (λ l. if done then l ++ (payload ∷ []) else l) same

    one_sent :
        (to_send left : List (SubProtocol W)) (bytes : Bytes) (before after : List Bytes)
        → Collected c key epoch to_send left bytes
        → after ≡ before ++ ((s.selector ++ bytes) ∷ [])
        → ReportedOnce 1 to_send left before after
    one_sent to_send left bytes before after h e = record {
      payloads = (h.batch, bytes) ∷ [];
      few = omega arith;
      are_written = (h.is_written, tt);
      each_once =
          subst (λ l. Perm (l ++ left) to_send) (sym (append-nil (members h.batch))) h.split;
      are_reported = e;
    }

    round_left-ReportedOnce :
        (to_send : List (SubProtocol W)) (w : W)
        → All (IsQuiet s reported) to_send
        → ReportedOnce 1 to_send
            (round_left s c key epoch to_send w).0
            (reported w)
            (reported (round_left s c key epoch to_send w).1)
    unfolding round_left
    round_left-ReportedOnce to_send w quiet =
        let collected = collect_signed s c key epoch to_send w in
        let kept = collect_signed-KeepsTo s reported laws c key epoch to_send w quiet in
        elim (Bool-cases (ltb (length collected.0.1) (length to_send))) [
          | inr many ↦
              rw (many, round_left)
                (record {
                  payloads = [];
                  few = omega arith;
                  are_written = tt;
                  each_once = none_written to_send collected.0.1 collected.0.0 kept.0 many;
                  are_reported = kept.1 ∙ sym (append-nil (reported w));
                })
          | inl fewer ↦
              elim (Bool-cases (submitted s (s.selector ++ collected.0.0) collected.1).0) [
                | inl done ↦
                    rw (fewer, round_left, done)
                      (one_sent to_send collected.0.1 collected.0.0 (reported w) _ kept.0 (
                        sent_by (s.selector ++ collected.0.0) collected.1 (reported w) true done
                          kept.1))
                | inr undone ↦
                    rw (fewer, round_left, undone)
                      (nothing-ReportedOnce 1 to_send (reported w) _ (
                        sent_by (s.selector ++ collected.0.0) collected.1 (reported w) false undone
                          kept.1))
              ]
        ]

    rounds_left-ReportedOnce :
        (rounds : ℕ) (to_send : List (SubProtocol W)) (w : W)
        → All (IsQuiet s reported) to_send
        → ReportedOnce rounds to_send
            (rounds_left s c key epoch rounds to_send w).0
            (reported w)
            (reported (rounds_left s c key epoch rounds to_send w).1)
    unfolding rounds_left
    rounds_left-ReportedOnce zero to_send w quiet =
        nothing-ReportedOnce 0 to_send (reported w) (reported w) refl
    rounds_left-ReportedOnce (suc rounds) [] w quiet =
        nothing-ReportedOnce (suc rounds) [] (reported w) (reported w) refl
    rounds_left-ReportedOnce (suc rounds) (p ∷ ps) w quiet =
        let next = round_left s c key epoch (p ∷ ps) w in
        subst
          (λ n.
            ReportedOnce n (p ∷ ps) (rounds_left s c key epoch rounds next.0 next.1).0 (reported w)
              (reported (rounds_left s c key epoch rounds next.0 next.1).1))
          (omega arith)
          (then-ReportedOnce 1 rounds (p ∷ ps) next.0 _ (reported w) (reported next.1) _
            (round_left-ReportedOnce (p ∷ ps) w quiet)
            (rounds_left-ReportedOnce rounds next.0 next.1
              (round_left-All (IsQuiet s reported) s c key epoch (p ∷ ps) w quiet)))

    -- `reported` lists the payloads for which an attempt to send returned no error; an attempt with an error
    -- may have sent a transaction too, which is not counted. Where no attempt panics and asking the data
    -- providers sends nothing, `SignatureSubmitter.RunEpoch` returns, and at most one payload for each of its
    -- rounds is reported. Each of them is the selector and what `WritePayload` writes for answers that passed
    -- the check, and each protocol is in exactly one of these payloads, or is still to be sent at the end.
    pub signature_rounds-ReportedOnce :
        (rounds : ℕ) (to_send : List (SubProtocol W)) (w : W)
        → All (IsQuiet s reported) to_send
        → (left : List (SubProtocol W)) × (w' : W) × (signature_rounds s c key epoch rounds to_send
              w
            ≡ (ok left, w'))
          × ReportedOnce rounds to_send left (reported w) (reported w')
    signature_rounds-ReportedOnce rounds to_send w quiet = (
      (rounds_left s c key epoch rounds to_send w).0,
      (rounds_left s c key epoch rounds to_send w).1,
      signature_rounds_lem s c key epoch laws.send-calm rounds to_send w,
      rounds_left-ReportedOnce rounds to_send w quiet,
    )
