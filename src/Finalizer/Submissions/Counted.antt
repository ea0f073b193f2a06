-- ===== src/Finalizer/Submissions/Counted.antt =====
-- client/finalizer/submission_storage.go: the weight that a message has gathered.
use flare_system_client.Prelude.{
  ℕ, zero, suc, ◌+◌, ◌≤◌, ◌<◌, ◌≡◌, refl, ◌∙◌, ap, sym, List, [], ◌∷◌, arith, length, length-set,
  get_elem?, get_elem?-lt, get_elem?-set_self, get_elem?-set_ne, set, Option, none, some, pos,
  replicate, length-replicate,
}
use native.Mathlib.Decide.{ℕ_discrete}
use flare_system_client.Finalizer.Payload.{SignedPayload}
use flare_system_client.Finalizer.Policies.{SigningPolicy}
use flare_system_client.Finalizer.Submissions.{MessageData, new_message_data, put_payload}
use flare_system_client.Voters.{word16, voter_index, count}
use flare_system_client.Voters.Weights.{sum}

-- The weights of the voters whose payload is there.
unfoldable pub filled_weight : List (Option SignedPayload) → List ℕ → ℕ
filled_weight [] ws = 0
filled_weight (x ∷ xs) [] = 0
filled_weight (none ∷ xs) (w ∷ ws) = filled_weight xs ws
filled_weight (some p ∷ xs) (w ∷ ws) = w + filled_weight xs ws

pub filled_weight-le :
    (xs : List (Option SignedPayload)) (ws : List ℕ) → filled_weight xs ws ≤ sum ws
unfolding filled_weight
filled_weight-le [] ws = omega arith
filled_weight-le (x ∷ xs) [] = omega arith
filled_weight-le (none ∷ xs) (w ∷ ws) = omega (arith, filled_weight-le xs ws)
filled_weight-le (some p ∷ xs) (w ∷ ws) = omega (arith, filled_weight-le xs ws)

filled_weight-set :
    (xs : List (Option SignedPayload)) (ws : List ℕ) (i w : ℕ) (p : SignedPayload)
    → get_elem? xs i ≡ some none
    → get_elem? ws i ≡ some w
    → filled_weight (set xs i (some p)) ws ≡ filled_weight xs ws + w
unfolding filled_weight
filled_weight-set [] ws i w p e f = absurd (ground arith)
filled_weight-set (x ∷ xs) [] i w p e f = absurd (ground arith)
filled_weight-set (none ∷ xs) (u ∷ ws) zero w p e f = ground arith
filled_weight-set (some q ∷ xs) (u ∷ ws) zero w p e f = absurd (ground arith)
filled_weight-set (none ∷ xs) (u ∷ ws) (suc i) w p e f = filled_weight-set xs ws i w p e f
filled_weight-set (some q ∷ xs) (u ∷ ws) (suc i) w p e f =
    omega (arith, filled_weight-set xs ws i w p e f)

filled_weight-none : (n : ℕ) (ws : List ℕ) → filled_weight (replicate n none) ws ≡ 0
unfolding filled_weight
filled_weight-none zero ws = refl
filled_weight-none (suc n) [] = refl
filled_weight-none (suc n) (w ∷ ws) = filled_weight-none n ws

-- There is a place for each voter, the weight is that of the voters whose payload is there, and each
-- payload stands at its signer's place and knows it.
pub record IsCounted (m : MessageData) : Type 0 where
  pub places : length m.payload ≡ count m.signing_policy.voters
  pub counted : m.weight ≡ filled_weight m.payload m.signing_policy.voters.weights
  pub placed :
      (i : ℕ) (p : SignedPayload)
      → get_elem? m.payload i ≡ some (some p)
      → (p.index ≡ pos i) × (voter_index m.signing_policy.voters p.signer ≡ pos i)

pub new_message_data-IsCounted : (sp : SigningPolicy) → IsCounted (new_message_data sp)
unfolding new_message_data
new_message_data-IsCounted sp = record {
  places = length-replicate (count sp.voters) none;
  counted = sym (filled_weight-none (count sp.voters) sp.voters.weights);
  placed = λ i p e. absurd (never (count sp.voters) i p e);
}
  where
    never : (n i : ℕ) (p : SignedPayload) → get_elem? (replicate n none) i ≡ some (some p) → ⊥
    never zero i p e = ground arith
    never (suc n) zero p e = ground arith
    never (suc n) (suc i) p e = never n i p e

pub put_payload-IsCounted :
    (m : MessageData) (p : SignedPayload) (i w threshold : ℕ)
    → IsCounted m
    → sum m.signing_policy.voters.weights < word16
    → voter_index m.signing_policy.voters p.signer ≡ pos i
    → get_elem? m.payload i ≡ some none
    → get_elem? m.signing_policy.voters.weights i ≡ some w
    → IsCounted (put_payload m i p w threshold)
unfolding put_payload
put_payload-IsCounted m p i w threshold h small at empty weight = record {
  places = length-set m.payload i _ ∙ h.places;
  counted = omega (
    arith,
    h.counted,
    filled_weight-set m.payload m.signing_policy.voters.weights i w (record p { index = pos i })
        empty weight,
    filled_weight-le (set m.payload i (some (record p { index = pos i })))
        m.signing_policy.voters.weights,
  );
  placed = λ j q e. elim (ℕ_discrete i j) [
    | yes same ↦ here j q same e
    | no other ↦ h.placed j q (sym (get_elem?-set_ne m.payload _ other) ∙ e)
  ];
}
  where
    put : SignedPayload
    put = record p { index = pos i }

    here :
        (j : ℕ) (q : SignedPayload)
        → i ≡ j
        → get_elem? (set m.payload i (some put)) j ≡ some (some q)
        → (q.index ≡ pos j) × (voter_index m.signing_policy.voters q.signer ≡ pos j)
    here j q same e =
        let at_i = rw (← same) at e in
        let eq : put ≡ q = inner (
          sym (get_elem?-set_self m.payload i (some put) (get_elem?-lt m.payload i empty))
          ∙ at_i) in
        (ap (λ (x : SignedPayload). x.index) (sym eq) ∙ ap pos same, rw (← eq) (at ∙ ap pos same))
      where
        inner : {x y : SignedPayload} → some (some x) ≡ some (some y) → x ≡ y
        inner e' = cc

-- The weight does not wrap around.
pub grows :
    (m : MessageData) (p : SignedPayload) (i w threshold : ℕ)
    → IsCounted m
    → sum m.signing_policy.voters.weights < word16
    → get_elem? m.payload i ≡ some none
    → get_elem? m.signing_policy.voters.weights i ≡ some w
    → m.weight ≤ (put_payload m i p w threshold).weight
unfolding put_payload
grows m p i w threshold h small empty weight = omega (
  arith,
  h.counted,
  filled_weight-set m.payload m.signing_policy.voters.weights i w p empty weight,
  filled_weight-le (set m.payload i (some p)) m.signing_policy.voters.weights,
)
