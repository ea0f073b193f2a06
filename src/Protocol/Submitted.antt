-- ===== src/Protocol/Submitted.antt =====
-- client/protocol/submitter.go: what a round of the signature submitter collects, and what it sends.
pub mod Left
pub mod Rounds
use flare_system_client.Prelude.{
  ◌≢◌, ℕ, zero, suc, ◌+◌, ◌≤◌, ◌<◌, ◌≡◌, ◌⊎◌, refl, ap, sym, ◌∙◌, subst, Bool, true, false, List,
  [], ◌∷◌, ◌++◌, append_assoc, append-nil, map, All, Perm, perm_middle, length-perm, Bytes, Option,
  none, some, Option-cases, Go, ok, err, panicked, Go-cases, ◌>>=◌, ◌>>◌, >>=-eq-ok, ok-injective,
  some-injective, ℤ, pos, ◌-ℤ◌, arith, length, ltb, Bool-cases, inl, inr, if◌then◌else◌,
}
use mathlib.Core.List.Perm
use flare_system_client.Crypto.{Crypto}
use flare_system_client.Shared.{
  ExecuteStatus, success, failed, is_success, execute_with_retry, retry_call,
}
use flare_system_client.Shared.Calls.{attempt, retry_call-execute_with_retry}
use flare_system_client.Prelude.Calls.{return, >>=-ok}
use flare_system_client.Protocol.Response.{
  SubProtocolResponse, HttpReply, verify_signature_data, checked_data, get_data,
  get_data_with_retry,
}
use flare_system_client.Protocol.Signatures.{
  Submitter, SubProtocol, write_payload, submit, collect_signed, signature_round, signature_rounds,
}
use flare_system_client.Protocol.RoundTrip.{write_payloads}

-- How a retried call ends, for a measure of the world that a failed call leaves alone.
module _ {W A M : Type 0} (f : W → Option A × W) (measure : W → M)
    (quiet : (w : W) → (f w).0 ≡ none → measure (f w).1 ≡ measure w) where
  abbrev pub EndsWith : W → ExecuteStatus A × W → Type 0
  EndsWith w (success a, w') =
      (w1 : W) × (measure w1 ≡ measure w) × ((f w1).0 ≡ some a) × ((f w1).1 ≡ w')
  EndsWith w (failed, w') = measure w' ≡ measure w

  step_back :
      (w w1 : W) (r : ExecuteStatus A × W) → measure w1 ≡ measure w → EndsWith w1 r → EndsWith w r
  step_back w w1 (success a, w') same (w2, e, ok2, end2) = (w2, e ∙ same, ok2, end2)
  step_back w w1 (failed, w') same e = e ∙ same

  pub execute_with_retry-EndsWith : (n : ℕ) (w : W) → EndsWith w (execute_with_retry f n w)
  unfolding execute_with_retry
  execute_with_retry-EndsWith zero w = refl
  execute_with_retry-EndsWith (suc n) w = elim (Option-cases (f w).0) [
    | inr (a, e) ↦ rw (e, execute_with_retry) (w, refl, e, refl)
    | inl e ↦
        rw (e, execute_with_retry)
          (step_back w (f w).1 (execute_with_retry f n (f w).1) (quiet w e)
            (execute_with_retry-EndsWith n (f w).1))
  ]

checked_data-verified :
    (call : Option HttpReply) (r : SubProtocolResponse)
    → checked_data verify_signature_data call ≡ some r
    → verify_signature_data r ≡ ok tt
unfolding checked_data
checked_data-verified call r e = elim (Go-cases (get_data call)) [
  | inr (inl (x, bad)) ↦ absurd (ground (arith, bad))
  | inr (inr bad) ↦ absurd (ground (arith, bad))
  | inl (q, got) ↦ elim (Go-cases (verify_signature_data q)) [
    | inr (inl (x, bad)) ↦ absurd (ground (arith, got, bad))
    | inr (inr bad) ↦ absurd (ground (arith, got, bad))
    | inl (u, fine) ↦
        let same : q ≡ r = some-injective (rw (got, fine, checked_data) at e) in
        subst (λ (x : SubProtocolResponse). verify_signature_data x ≡ ok tt) same fine
  ]
]

-- A transaction of a round: the protocols whose answers it carries, with the answers, and the bytes
-- behind the selector.
abbrev pub Batch : Type 0 → Type 0
Batch W = List (SubProtocol W × SubProtocolResponse) × Bytes

-- A round's bytes, and the protocols that it leaves over, with the world after it.
abbrev pub Round : Type 0 → Type 0
Round W = (Bytes × List (SubProtocol W)) × W

module _ {W : Type 0} where
  abbrev pub entries : List (SubProtocol W × SubProtocolResponse) → List (ℕ × SubProtocolResponse)
  entries batch = map (λ x. (x.0.id, x.1)) batch

  abbrev pub members : List (SubProtocol W × SubProtocolResponse) → List (SubProtocol W)
  members batch = map (λ x. x.0) batch

  module _ (c : Crypto) (key : ℕ) (epoch : ℤ) where
    -- The bytes are the payloads of the answers, in a row, and each answer passed the check.
    abbrev pub IsWritten : Batch W → Type 0
    IsWritten (batch, bytes) =
        (write_payloads c key epoch (entries batch) ≡ ok bytes)
        × All (λ x. verify_signature_data x.1 ≡ ok tt) batch

    -- What a round collects.
    pub record Collected (to_send left : List (SubProtocol W)) (bytes : Bytes) : Type 0 where
      pub batch : List (SubProtocol W × SubProtocolResponse)
      pub is_written : IsWritten (batch, bytes)
      pub split : Perm (members batch ++ left) to_send

    nothing-Collected : Collected [] [] []
    unfolding write_payloads
    nothing-Collected = record { batch = []; is_written = (refl, tt); split = Perm.refl [] }

    kept-Collected :
        (p : SubProtocol W) (ps left : List (SubProtocol W)) (bytes : Bytes)
        → Collected ps left bytes
        → Collected (p ∷ ps) (p ∷ left) bytes
    kept-Collected p ps left bytes h = record {
      batch = h.batch;
      is_written = h.is_written;
      split = Perm.trans (perm_middle p (members h.batch) left) (Perm.cons p h.split);
    }

    written-Collected :
        (p : SubProtocol W) (ps left : List (SubProtocol W)) (r : SubProtocolResponse)
        (bytes rest : Bytes)
        → verify_signature_data r ≡ ok tt
        → write_payload c key epoch r p.id ≡ ok bytes
        → Collected ps left rest
        → Collected (p ∷ ps) left (bytes ++ rest)
    unfolding write_payloads
    written-Collected p ps left r bytes rest fine e h = record {
      batch = (p, r) ∷ h.batch;
      is_written = (rw (e, h.is_written.0) refl, (fine, h.is_written.1));
      split = Perm.cons p h.split;
    }

-- The rounds of the submitter, for attempts to send that do not panic.
module _ {W : Type 0} (s : Submitter W) where
  abbrev pub submitted : Bytes → W → Bool × W
  submitted payload w =
      let r = execute_with_retry (attempt (s.send payload)) s.submit_retries w in
      (is_success r.0, r.1)

  module _ (c : Crypto) (key : ℕ) (epoch : ℤ) where
    unfoldable pub round_left : List (SubProtocol W) → W → List (SubProtocol W) × W
    round_left to_send w =
        let (collected, w') = collect_signed s c key epoch to_send w in
        if ltb (length collected.1) (length to_send)
        then (let (sent, w'') = submitted (s.selector ++ collected.0) w' in
            if sent then (collected.1, w'') else (to_send, w''))
        else (collected.1, w')

    unfoldable pub rounds_left : ℕ → List (SubProtocol W) → W → List (SubProtocol W) × W
    rounds_left zero to_send w = (to_send, w)
    rounds_left (suc rounds) [] w = ([], w)
    rounds_left (suc rounds) (p ∷ ps) w =
        let (to_send, w') = round_left (p ∷ ps) w in rounds_left rounds to_send w'

    module _ (calm : (payload : Bytes) (w : W) → (s.send payload w).0 ≢ panicked) where
      submit_lem :
          (payload : Bytes) (w : W)
          → submit s payload w ≡ (ok (submitted payload w).0, (submitted payload w).1)
      unfolding submit return
      submit_lem payload w =
          let r = execute_with_retry (attempt (s.send payload)) s.submit_retries w in
          let same =
            retry_call-execute_with_retry (s.send payload) (calm payload) s.submit_retries w in
          >>=-ok (retry_call (s.send payload) s.submit_retries)
            (λ status. return (ok (is_success status))) w r.0 (ap (λ x. x.0) same)
          ∙ ap (λ x. (ok (is_success r.0), x.1)) same

      signature_round_lem :
          (to_send : List (SubProtocol W)) (w : W)
          → signature_round s c key epoch to_send w
            ≡ (ok (round_left to_send w).0, (round_left to_send w).1)
      unfolding signature_round round_left return
      signature_round_lem to_send w =
          let (collected, w') = collect_signed s c key epoch to_send w in
          let payload = s.selector ++ collected.0 in
          elim (Bool-cases (ltb (length collected.1) (length to_send))) [
            | inr many ↦ rw (many, signature_round, round_left) refl
            | inl fewer ↦
                let after =
                  >>=-ok (submit s payload)
                    (λ sent. return (ok (if sent then collected.1 else to_send))) w'
                    (submitted payload w').0 (ap (λ x. x.0) (submit_lem payload w'))
                  ∙ ap
                      (λ x.
                        return (ok (if (submitted payload w').0 then collected.1 else to_send)) x.1)
                      (submit_lem payload w') in
                elim (Bool-cases (submitted payload w').0) [
                  | inl done ↦ rw (fewer, signature_round, round_left, done) (after ∙ rw done refl)
                  | inr undone ↦
                      rw (fewer, signature_round, round_left, undone) (after ∙ rw undone refl)
                ]
          ]

      pub signature_rounds_lem :
          (rounds : ℕ) (to_send : List (SubProtocol W)) (w : W)
          → signature_rounds s c key epoch rounds to_send w
            ≡ (ok (rounds_left rounds to_send w).0, (rounds_left rounds to_send w).1)
      unfolding signature_rounds rounds_left return
      signature_rounds_lem zero to_send w = refl
      signature_rounds_lem (suc rounds) [] w = refl
      signature_rounds_lem (suc rounds) (p ∷ ps) w =
          let next = round_left (p ∷ ps) w in
          let same = signature_round_lem (p ∷ ps) w in
          >>=-ok (signature_round s c key epoch (p ∷ ps))
            (λ to_send. signature_rounds s c key epoch rounds to_send) w next.0 (ap (λ x. x.0) same)
          ∙ ap (λ x. signature_rounds s c key epoch rounds next.0 x.1) same
          ∙ signature_rounds_lem rounds next.0 next.1

module _ {W : Type 0} (s : Submitter W) (reported : W → List Bytes) where
  -- `reported` lists the payloads for which an attempt to send returned no error. An attempt with an error
  -- leaves the list alone, whether or not it has reported a transaction; so does asking a data provider.
  pub record ReportLaws : Type 0 where
    pub send-ok :
        (payload : Bytes) (w : W)
        → (s.send payload w).0 ≡ ok tt
        → reported (s.send payload w).1 ≡ reported w ++ (payload ∷ [])
    pub send-err :
        (payload : Bytes) (w : W) (e : Bytes)
        → (s.send payload w).0 ≡ err e
        → reported (s.send payload w).1 ≡ reported w
    pub send-calm : (payload : Bytes) (w : W) → (s.send payload w).0 ≢ panicked

  abbrev pub IsQuiet : SubProtocol W → Type 0
  IsQuiet p = (epoch : ℤ) (w : W) → reported (p.fetch epoch w).1 ≡ reported w

  module _ (laws : ReportLaws) where
    attempt-quiet :
        (payload : Bytes) (w : W)
        → (attempt (s.send payload) w).0 ≡ none
        → reported (attempt (s.send payload) w).1 ≡ reported w
    attempt-quiet payload w e = elim (Go-cases (s.send payload w).0) [
      | inl (u, fine) ↦ absurd (ground (arith, fine))
      | inr (inl (x, bad)) ↦ laws.send-err payload w x bad
      | inr (inr bad) ↦ absurd (laws.send-calm payload w bad)
    ]

    attempt-reported :
        (payload : Bytes) (w : W) (u : Unit {0})
        → (attempt (s.send payload) w).0 ≡ some u
        → reported (attempt (s.send payload) w).1 ≡ reported w ++ (payload ∷ [])
    attempt-reported payload w u e = elim (Go-cases (s.send payload w).0) [
      | inl (v, fine) ↦ laws.send-ok payload w fine
      | inr (inl (x, bad)) ↦ absurd (ground (arith, bad))
      | inr (inr bad) ↦ absurd (ground (arith, bad))
    ]

    ended-reported :
        (payload : Bytes) (w : W) (r : ExecuteStatus (Unit {0}) × W)
        → EndsWith (attempt (s.send payload)) reported (attempt-quiet payload) w r
        → reported r.1 ≡ (if is_success r.0 then reported w ++ (payload ∷ []) else reported w)
    ended-reported payload w (success u, w') (w1, same, done, last) =
        ap reported (sym last)
        ∙ attempt-reported payload w1 u done
        ∙ ap (λ l. l ++ (payload ∷ [])) same
    ended-reported payload w (failed, w') same = same

    pub submitted-reported :
        (payload : Bytes) (w : W)
        → reported (submitted s payload w).1
          ≡ (if (submitted s payload w).0 then reported w ++ (payload ∷ []) else reported w)
    submitted-reported payload w =
        ended-reported payload w (execute_with_retry (attempt (s.send payload)) s.submit_retries w)
          (execute_with_retry-EndsWith (attempt (s.send payload)) reported (attempt-quiet payload)
            s.submit_retries w)

    -- An answer of a data provider is one that passed the check, and asking for it sends nothing.
    abbrev IsAnswer : W → ExecuteStatus SubProtocolResponse × W → Type 0
    IsAnswer w (success r, w') = (verify_signature_data r ≡ ok tt) × (reported w' ≡ reported w)
    IsAnswer w (failed, w') = reported w' ≡ reported w

    module _ (c : Crypto) (key : ℕ) (epoch : ℤ) where
      abbrev fetched : (p : SubProtocol W) → W → Option SubProtocolResponse × W
      fetched p w = (
        checked_data verify_signature_data (p.fetch (epoch -ℤ pos 1) w).0,
        (p.fetch (epoch -ℤ pos 1) w).1,
      )

      ended-IsAnswer :
          (p : SubProtocol W) (quiet : IsQuiet p) (w : W)
          (r : ExecuteStatus SubProtocolResponse × W)
          → EndsWith (fetched p) reported (λ v _. quiet (epoch -ℤ pos 1) v) w r
          → IsAnswer w r
      ended-IsAnswer p quiet w (success r, w') (w1, same, done, last) = (
        checked_data-verified (p.fetch (epoch -ℤ pos 1) w1).0 r done,
        ap reported (sym last) ∙ quiet (epoch -ℤ pos 1) w1 ∙ same,
      )
      ended-IsAnswer p quiet w (failed, w') same = same

      get_data_with_retry-IsAnswer :
          (p : SubProtocol W)
          → IsQuiet p
          → (n : ℕ) (w : W)
          → IsAnswer w (get_data_with_retry verify_signature_data (p.fetch (epoch -ℤ pos 1)) n w)
      unfolding get_data_with_retry
      get_data_with_retry-IsAnswer p quiet n w =
          ended-IsAnswer p quiet w _
            (execute_with_retry-EndsWith (fetched p) reported (λ v _. quiet (epoch -ℤ pos 1) v) n w)

      abbrev pub KeepsTo : List (SubProtocol W) → W → Round W → Type 0
      KeepsTo ps w r = Collected c key epoch ps r.0.1 r.0.0 × (reported r.1 ≡ reported w)

      abbrev kept_round : SubProtocol W → Round W → Round W
      kept_round p rest = ((rest.0.0, p ∷ rest.0.1), rest.1)

      kept-KeepsTo :
          (p : SubProtocol W) (ps : List (SubProtocol W)) (w w' : W) (rest : Round W)
          → reported w' ≡ reported w
          → KeepsTo ps w' rest
          → KeepsTo (p ∷ ps) w (kept_round p rest)
      kept-KeepsTo p ps w w' rest same h =
          (kept-Collected c key epoch p ps rest.0.1 rest.0.0 h.0, h.1 ∙ same)

      answered-KeepsTo :
          (p : SubProtocol W) (ps : List (SubProtocol W)) (w w' : W) (r : SubProtocolResponse)
          (rest : Round W)
          → verify_signature_data r ≡ ok tt
          → reported w' ≡ reported w
          → KeepsTo ps w' rest
          → KeepsTo (p ∷ ps) w (elim (write_payload c key epoch r p.id) [
            | ok bytes ↦ ((bytes ++ rest.0.0, rest.0.1), rest.1)
            | err _ ↦ kept_round p rest
            | panicked ↦ kept_round p rest
          ])
      answered-KeepsTo p ps w w' r rest fine same h =
          elim (Go-cases (write_payload c key epoch r p.id)) [
            | inl (bytes, e) ↦ rw e (
              written-Collected c key epoch p ps rest.0.1 r bytes rest.0.0 fine e h.0,
              h.1 ∙ same,
            )
            | inr (inl (x, e)) ↦ rw e (kept-KeepsTo p ps w w' rest same h)
            | inr (inr e) ↦ rw e (kept-KeepsTo p ps w w' rest same h)
          ]

      asked-KeepsTo :
          (p : SubProtocol W) (ps : List (SubProtocol W)) (w w' : W)
          (answer : ExecuteStatus SubProtocolResponse) (rest : Round W)
          → IsAnswer w (answer, w')
          → KeepsTo ps w' rest
          → KeepsTo (p ∷ ps) w (elim answer [
            | failed ↦ kept_round p rest
            | success r ↦ elim (write_payload c key epoch r p.id) [
              | ok bytes ↦ ((bytes ++ rest.0.0, rest.0.1), rest.1)
              | err _ ↦ kept_round p rest
              | panicked ↦ kept_round p rest
            ]
          ])
      asked-KeepsTo p ps w w' failed rest same h = kept-KeepsTo p ps w w' rest same h
      asked-KeepsTo p ps w w' (success r) rest (fine, same) h =
          answered-KeepsTo p ps w w' r rest fine same h

      pub collect_signed-KeepsTo :
          (ps : List (SubProtocol W)) (w : W)
          → All IsQuiet ps
          → KeepsTo ps w (collect_signed s c key epoch ps w)
      unfolding collect_signed
      collect_signed-KeepsTo [] w quiet = (nothing-Collected c key epoch, refl)
      collect_signed-KeepsTo (p ∷ ps) w quiet =
          let asked =
            get_data_with_retry verify_signature_data (p.fetch (epoch -ℤ pos 1))
              s.data_fetch_retries w in
          asked-KeepsTo p ps w asked.1 asked.0 (collect_signed s c key epoch ps asked.1)
            (get_data_with_retry-IsAnswer p quiet.0 s.data_fetch_retries w)
            (collect_signed-KeepsTo ps asked.1 quiet.1)
