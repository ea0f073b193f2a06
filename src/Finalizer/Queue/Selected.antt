-- ===== src/Finalizer/Queue/Selected.antt =====
-- client/finalizer/finalizer_queue.go: what `processItem` relays of a message whose books are in order.
use flare_system_client.Prelude.{
  ℕ, suc, ◌+◌, ◌≤◌, ◌<◌, ◌≡◌, refl, ap, sym, ◌∙◌, subst, Bool, true, List, [], ◌∷◌, ◌++◌, Perm,
  ◌==◌, ltb, if◌then◌else◌, Option, none, some, ok, pos, length, get_elem?, get_or, map, all,
  sum_by, occurrences, arith, sum_by-perm, all-perm, sum_by-append, all-append,
}
use mathlib.Core.List.Perm
use flare_system_client.Voters.{VoterSet, word16}
use flare_system_client.Finalizer.Payload.{SignedPayload, encode_for_relay}
use flare_system_client.Finalizer.Submissions.Counted.{filled_weight}
use flare_system_client.Finalizer.Queue.{
  Weighed, select_greedy, Sorter, SortLaws, present, heavier, earlier,
}
use flare_system_client.Finalizer.Queue.Greedy.{
  place, has_place, weight_of, weighed, select_greedy-prefix, select_greedy-Enough,
  encode_for_relay-strict,
}

-- The payloads of a list stand at their places, which are counted from `j` on.
pub Placed : ℕ → List (Option SignedPayload) → Type 0
Placed j [] = Unit {0}
Placed j (none ∷ xs) = Placed (suc j) xs
Placed j (some p ∷ xs) = (p.index ≡ pos j) × Placed (suc j) xs

pub Placed-at :
    (j : ℕ) (xs : List (Option SignedPayload))
    → ((i : ℕ) (p : SignedPayload) → get_elem? xs i ≡ some (some p) → p.index ≡ pos (j + i))
    → Placed j xs
unfolding Placed
Placed-at j [] h = tt
Placed-at j (none ∷ xs) h =
    Placed-at (suc j) xs (λ i p e. subst (λ n. p.index ≡ pos n) (omega arith) (h (suc i) p e))
Placed-at j (some p ∷ xs) h = (
  subst (λ n. p.index ≡ pos n) (omega arith) (h 0 p refl),
  Placed-at (suc j) xs (λ i q e. subst (λ n. q.index ≡ pos n) (omega arith) (h (suc i) q e)),
)

pub present-occurrences :
    (j k : ℕ) (xs : List (Option SignedPayload))
    → Placed j xs
    → (occurrences place k (present xs) ≤ 1) × (k < j → occurrences place k (present xs) ≡ 0)
unfolding Placed present
present-occurrences j k [] h = (omega arith, λ lt. refl)
present-occurrences j k (none ∷ xs) h = ground (arith, present-occurrences (suc j) k xs h)
present-occurrences j k (some p ∷ xs) h = ground (arith, h.0, present-occurrences (suc j) k xs h.1)

abbrev pub payloads : List Weighed → List SignedPayload
payloads xs = map (λ p. p.1) xs

module _ (vs : VoterSet) where
  pub present-has_place :
      (j : ℕ) (xs : List (Option SignedPayload))
      → Placed j xs
      → j + length xs ≤ length vs.weights
      → all (has_place vs) (present xs) ≡ true
  unfolding Placed present
  present-has_place j [] h fits = refl
  present-has_place j (none ∷ xs) h fits = present-has_place (suc j) xs h (omega arith)
  present-has_place j (some p ∷ xs) h fits =
      ground (arith, h.0, present-has_place (suc j) xs h.1 (omega arith))

  shifted :
      (j w : ℕ) (ws : List ℕ)
      → ((i : ℕ) → get_or (w ∷ ws) i 0 ≡ get_or vs.weights (j + i) 0)
      → (i : ℕ) → get_or ws i 0 ≡ get_or vs.weights (suc j + i) 0
  shifted j w ws same i =
      subst (λ n. get_or ws i 0 ≡ get_or vs.weights n 0) (omega arith) (same (suc i))

  pub present-weight :
      (j : ℕ) (xs : List (Option SignedPayload)) (ws : List ℕ)
      → Placed j xs
      → ((i : ℕ) → get_or ws i 0 ≡ get_or vs.weights (j + i) 0)
      → length xs ≤ length ws
      → sum_by (weight_of vs) (present xs) ≡ filled_weight xs ws
  unfolding Placed present filled_weight
  present-weight j [] ws h same fits = refl
  present-weight j (x ∷ xs) [] h same fits = absurd (omega arith)
  present-weight j (none ∷ xs) (w ∷ ws) h same fits =
      present-weight (suc j) xs ws h (shifted j w ws same) (omega arith)
  present-weight j (some p ∷ xs) (w ∷ ws) h same fits =
      let head : w ≡ get_or vs.weights j 0 =
        subst (λ n. w ≡ get_or vs.weights n 0) (omega arith) (same 0) in
      ground
        (arith, h.0, head, present-weight (suc j) xs ws h.1 (shifted j w ws same) (omega arith))

  -- Payloads and their weights.
  pub sum_by-weighed :
      (ps : List SignedPayload) → sum_by (λ x. x.0) (map (weighed vs) ps) ≡ sum_by (weight_of vs) ps
  sum_by-weighed [] = refl
  sum_by-weighed (p ∷ ps) = omega (arith, sum_by-weighed ps)

  payloads-weighed : (ps : List SignedPayload) → payloads (map (weighed vs) ps) ≡ ps
  payloads-weighed [] = refl
  payloads-weighed (p ∷ ps) = ap (λ l. p ∷ l) (payloads-weighed ps)

  payloads-append : (xs ys : List Weighed) → payloads (xs ++ ys) ≡ payloads xs ++ payloads ys
  payloads-append [] ys = refl
  payloads-append (x ∷ xs) ys = ap (λ l. x.1 ∷ l) (payloads-append xs ys)

  abbrev knows_weight : Weighed → Bool
  knows_weight x = x.0 == weight_of vs x.1

  weighed-knows_weight : (ps : List SignedPayload) → all knows_weight (map (weighed vs) ps) ≡ true
  weighed-knows_weight [] = refl
  weighed-knows_weight (p ∷ ps) = ground (arith, weighed-knows_weight ps)

  payloads-weight :
      (xs : List Weighed)
      → all knows_weight xs ≡ true
      → sum_by (weight_of vs) (payloads xs) ≡ sum_by (λ x. x.0) xs
  payloads-weight [] h = refl
  payloads-weight (x ∷ xs) h = ground (arith, payloads-weight xs (ground arith))

sum_by-one : {A : Type 0} (xs : List A) → sum_by (λ _. 1) xs ≡ length xs
sum_by-one [] = refl
sum_by-one (x ∷ xs) = omega (arith, sum_by-one xs)

pub present-length : (xs : List (Option SignedPayload)) → length (present xs) ≤ length xs
unfolding present
present-length [] = omega arith
present-length (none ∷ xs) = omega (arith, present-length xs)
present-length (some p ∷ xs) = omega (arith, present-length xs)

earlier-place :
    (vs : VoterSet) (p q : SignedPayload)
    → has_place vs p ≡ true
    → has_place vs q ≡ true
    → earlier p q ≡ ltb (place p) (place q)
earlier-place vs p q h k = ground arith

abbrev pub sorted : Sorter Weighed → VoterSet → List SignedPayload → List Weighed
sorted by_weight vs ps = by_weight.sort heavier (map (weighed vs) ps)

-- What the greedy choice and the final sorting make of the payloads.
abbrev pub chosen :
    Sorter Weighed → Sorter SignedPayload → VoterSet → ℕ → List SignedPayload → List SignedPayload
chosen by_weight by_index vs t ps =
    by_index.sort earlier (payloads (select_greedy t 0 (sorted by_weight vs ps)))

module _ (by_weight : Sorter Weighed) (by_index : Sorter SignedPayload)
    (weight_laws : SortLaws by_weight) (index_laws : SortLaws by_index) (vs : VoterSet) where
  sorted-payloads : (ps : List SignedPayload) → Perm (payloads (sorted by_weight vs ps)) ps
  sorted-payloads ps =
      subst (λ l. Perm (payloads (sorted by_weight vs ps)) l) (payloads-weighed vs ps)
        (Perm.map (λ p. p.1) (weight_laws.sort-perm heavier (map (weighed vs) ps)))

  pub chosen-perm :
      (t : ℕ) (ps : List SignedPayload)
      → (rest : List SignedPayload) × Perm (chosen by_weight by_index vs t ps ++ rest) ps
  chosen-perm t ps =
      let (rest, same) = select_greedy-prefix t 0 (sorted by_weight vs ps) in
      let parts : payloads (sorted by_weight vs ps)
          ≡ payloads (select_greedy t 0 (sorted by_weight vs ps)) ++ payloads rest =
        ap payloads (sym same)
        ∙ payloads-append vs (select_greedy t 0 (sorted by_weight vs ps)) rest in
      (
        payloads rest,
        Perm.trans (Perm.append_right (payloads rest) (index_laws.sort-perm earlier _))
            (subst (λ l. Perm l ps) parts (sorted-payloads ps)),
      )

  pub chosen-weight :
      (t : ℕ) (ps : List SignedPayload)
      → sum_by (weight_of vs) ps < word16
      → t < sum_by (weight_of vs) ps
      → t < sum_by (weight_of vs) (chosen by_weight by_index vs t ps)
  chosen-weight t ps fits h =
      let sel = select_greedy t 0 (sorted by_weight vs ps) in
      let (rest, same) = select_greedy-prefix t 0 (sorted by_weight vs ps) in
      let total : sum_by (λ x. x.0) (sorted by_weight vs ps) ≡ sum_by (weight_of vs) ps =
        sum_by-perm (λ x. x.0) (weight_laws.sort-perm heavier (map (weighed vs) ps))
        ∙ sum_by-weighed vs ps in
      let known : all (knows_weight vs) (sel ++ rest) ≡ true =
        ap (all (knows_weight vs)) same
        ∙ all-perm (knows_weight vs) (weight_laws.sort-perm heavier (map (weighed vs) ps))
        ∙ weighed-knows_weight vs ps in
      let enough =
        select_greedy-Enough t 0 (sorted by_weight vs ps) (omega (arith, total))
          (omega (arith, total)) in
      omega (
        arith,
        enough,
        payloads-weight vs sel (ground (arith, known, all-append (knows_weight vs) sel rest)),
        sum_by-perm (weight_of vs) (index_laws.sort-perm earlier (payloads sel)),
      )

  pub chosen-encoded :
      (t : ℕ) (ps : List SignedPayload)
      → all (has_place vs) ps ≡ true
      → ((k : ℕ) → occurrences place k ps ≤ 1)
      → length ps ≤ 65535
      → (bytes : List ℕ) × (encode_for_relay (chosen by_weight by_index vs t ps) ≡ ok bytes)
  chosen-encoded t ps h once few =
      let (rest, perm) = chosen-perm t ps in
      let placed : all (has_place vs) (chosen by_weight by_index vs t ps) ≡ true = ground (
        arith,
        all-append (has_place vs) (chosen by_weight by_index vs t ps) rest,
        all-perm (has_place vs) perm,
        h,
      ) in
      let before : all (has_place vs) (payloads (select_greedy t 0 (sorted by_weight vs ps)))
          ≡ true =
        sym (all-perm (has_place vs) (index_laws.sort-perm earlier _)) ∙ placed in
      encode_for_relay-strict vs (chosen by_weight by_index vs t ps) placed
        (index_laws.sort-IsAscending earlier place (has_place vs) _ before (earlier-place vs))
        (λ k. omega (
          arith,
          once k,
          sum_by-append (λ x. if place x == k then 1 else 0) (chosen by_weight by_index vs t ps)
              rest,
          sum_by-perm (λ x. if place x == k then 1 else 0) perm,
        ))
        (omega (
          arith,
          few,
          sum_by-one (chosen by_weight by_index vs t ps),
          sum_by-one ps,
          sum_by-append (λ _. 1) (chosen by_weight by_index vs t ps) rest,
          sum_by-perm (λ _. 1) perm,
        ))
