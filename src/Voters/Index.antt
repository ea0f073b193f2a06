-- ===== src/Voters/Index.antt =====
-- client/shared/voters/voter_set.go: the map from addresses to voters that `NewVoterSet` builds.
use flare_system_client.Prelude.{
  ℕ, zero, suc, ◌+◌, ◌≤◌, ◌<◌, ◌≡◌, ◌≢◌, inl, inr, refl, ap, sym, List, [], ◌∷◌, arith, length,
  get_elem?, get_or, get_elem?-eq-get_or, Option, none, some, ok, ◌==◌, if◌then◌else◌, Bool-cases,
  Option-cases,
}
use flare_system_client.Voters.{Address, VoterData, insert_voter, index_voters}

-- The entry of an address in a list whose first index is `i`.
unfoldable pub first_entry : List ℕ → ℕ → List Address → Address → Option VoterData
first_entry weights i [] a = none
first_entry weights i (v ∷ vs) a =
    if a == v
    then some (record { index = i; weight = get_or weights i 0 })
    else first_entry weights (i + 1) vs a

abbrev pub or_else {ℓ} : {A : Type ℓ} → Option A → Option A → Option A
or_else none o = o
or_else (some a) o = some a

pub index_voters-first_entry :
    (i : ℕ) (vs : List Address) (weights : List ℕ) (m : Address → Option VoterData)
    → i + length vs ≤ length weights
    → (m' : Address → Option VoterData) × (index_voters i vs weights m ≡ ok m')
      × ((a : Address) → m' a ≡ or_else (m a) (first_entry weights i vs a))
unfolding index_voters first_entry insert_voter
index_voters-first_entry i [] weights m h = (m, refl, λ a. none_last (m a))
  where
    none_last : (o : Option VoterData) → o ≡ or_else o none
    none_last none = refl
    none_last (some d) = refl
index_voters-first_entry i (v ∷ vs) weights m h = elim (Option-cases (m v)) [
  | inr (d, e) ↦
      let (m', got, spec) = index_voters-first_entry (i + 1) vs weights m (omega arith) in
      (m', rw (e, index_voters) got, λ a. ground (arith, spec a, e, cong a v))
  | inl e ↦
      let d : VoterData = record { index = i; weight = get_or weights i 0 } in
      let (m', got, spec) =
        index_voters-first_entry (i + 1) vs weights (insert_voter m v d) (omega arith) in
      (
        m',
        rw (e, index_voters, get_elem?-eq-get_or weights i 0 (omega arith)) got,
        λ a. ground (arith, spec a, e, cong a v),
      )
]
  where
    cong : (a b : ℕ) → a ≡ b → m a ≡ m b
    cong a b = ap m

-- The entry is that of the first occurrence, which stands in the list.
pub first_entry_hit :
    (weights : List ℕ) (i : ℕ) (vs : List Address) (a : Address) (k : ℕ)
    → get_elem? vs k ≡ some a
    → ((j : ℕ) → j < k → get_elem? vs j ≢ some a)
    → first_entry weights i vs a
      ≡ some (record { index = i + k; weight = get_or weights (i + k) 0 })
unfolding first_entry
first_entry_hit weights i [] a k e first = absurd (ground arith)
first_entry_hit weights i (v ∷ vs) a zero e first =
    let here : i + 0 ≡ i = omega arith in rw here (ground arith)
first_entry_hit weights i (v ∷ vs) a (suc k) e first =
    let shift : i + suc k ≡ i + 1 + k = omega arith in
    rw shift (
      ground
        (arith, ne, first_entry_hit weights (i + 1) vs a k e (λ j p. first (suc j) (omega arith))))
  where
    ne : a ≢ v
    ne q = first 0 (omega arith) (ap some (sym q))

pub first_entry_miss :
    (weights : List ℕ) (i : ℕ) (vs : List Address) (a : Address)
    → ((j : ℕ) → get_elem? vs j ≢ some a)
    → first_entry weights i vs a ≡ none
unfolding first_entry
first_entry_miss weights i [] a absent = refl
first_entry_miss weights i (v ∷ vs) a absent =
    ground (arith, ne, first_entry_miss weights (i + 1) vs a (λ j. absent (suc j)))
  where
    ne : a ≢ v
    ne q = absent 0 (ap some (sym q))

pub first_entry_sound :
    (weights : List ℕ) (i : ℕ) (vs : List Address) (a : Address) (d : VoterData)
    → first_entry weights i vs a ≡ some d
    → (k : ℕ) × (d.index ≡ i + k)
      × (d.weight ≡ get_or weights d.index 0)
      × (get_elem? vs k ≡ some a)
unfolding first_entry
first_entry_sound weights i [] a d e = absurd (ground arith)
first_entry_sound weights i (v ∷ vs) a d e = elim (Bool-cases (a == v)) [
  | inl same ↦ (0, ground arith, ground arith, ground arith)
  | inr other ↦
      let (k, p, q, r) = first_entry_sound weights (i + 1) vs a d (rw (other, first_entry) at e) in
      (suc k, omega arith, q, r)
]

-- No entry means that the address stands nowhere in the list.
pub first_entry-none :
    (weights : List ℕ) (i : ℕ) (vs : List Address) (a : Address)
    → first_entry weights i vs a ≡ none
    → (j : ℕ) → get_elem? vs j ≢ some a
unfolding first_entry
first_entry-none weights i [] a e j q = ground arith
first_entry-none weights i (v ∷ vs) a e zero q = ground arith
first_entry-none weights i (v ∷ vs) a e (suc j) q = elim (Bool-cases (a == v)) [
  | inl same ↦ ground (arith, same)
  | inr other ↦ first_entry-none weights (i + 1) vs a (rw (other, first_entry) at e) j q
]
