-- ===== src/Finalizer/Queue/Fewest/Split.antt =====
-- client/finalizer/finalizer_queue.go: where the selection stops in a list that is sorted by weight.
use flare_system_client.Prelude.{
  ℕ, ◌+◌, ◌-◌, ◌%◌, ◌≤◌, ◌<◌, ◌≡◌, inl, inr, refl, ap, Bool, true, List, [], ◌∷◌, ◌++◌, Perm, All,
  all, ltb, length, sum_by, sum_by-perm, sum_by-append, arith, Bool-cases,
}
use flare_system_client.Voters.{word16}
use flare_system_client.Finalizer.Queue.{Weighed, IsAscending, heavier, select_greedy}

abbrev pub weight : Weighed → ℕ
weight x = x.0

-- A selection ends with the payload that carries it over the threshold.
pub record Split (t w : ℕ) (xs : List Weighed) : Type 0 where
  pub front : List Weighed
  pub last : Weighed
  pub rest : List Weighed
  pub whole : xs ≡ front ++ (last ∷ rest)
  pub taken : select_greedy t w xs ≡ front ++ (last ∷ [])
  pub under : w + sum_by weight front ≤ t

pub select_greedy-Split :
    (t w : ℕ) (xs : List Weighed)
    → w + sum_by weight xs < word16
    → w ≤ t
    → t < w + sum_by weight xs
    → Split t w xs
unfolding select_greedy
select_greedy-Split t w [] fits low high = absurd (omega arith)
select_greedy-Split t w ((v, p) ∷ xs) fits low high = elim (Bool-cases (ltb t ((w + v) % word16))) [
  | inl over ↦ record {
    front = [];
    last = (v, p);
    rest = xs;
    whole = refl;
    taken = rw (over, select_greedy) refl;
    under = omega arith;
  }
  | inr not_yet ↦
      let small : (w + v) % word16 ≡ w + v = omega arith in
      let below : w + v ≤ t = ground (arith, not_yet, small) in
      let more =
        select_greedy-Split t ((w + v) % word16) xs (rw small (omega arith)) (rw small below)
          (rw small (omega arith)) in
      record {
        front = (v, p) ∷ more.front;
        last = more.last;
        rest = more.rest;
        whole = ap (λ l. (v, p) ∷ l) more.whole;
        taken = rw (not_yet, select_greedy) (ap (λ l. (v, p) ∷ l) more.taken);
        under = omega (arith, more.under, small);
      }
]

-- Weights by how far they are over the weight `p`.
module _ (p : ℕ) where
  abbrev over : Weighed → ℕ
  over x = weight x - p

  abbrev flat : Weighed → ℕ
  flat x = p

  weight-le : (xs : List Weighed) → sum_by weight xs ≤ sum_by flat xs + sum_by over xs
  weight-le [] = omega arith
  weight-le (x ∷ xs) = omega (arith, weight-le xs)

  weight-heavy :
      (xs : List Weighed)
      → All (λ x. p ≤ weight x) xs
      → sum_by flat xs + sum_by over xs ≡ sum_by weight xs
  weight-heavy [] h = refl
  weight-heavy (x ∷ xs) h = omega (arith, h.0, weight-heavy xs h.1)

  over-light : (xs : List Weighed) → All (λ x. weight x ≤ p) xs → sum_by over xs ≡ 0
  over-light [] h = refl
  over-light (x ∷ xs) h = omega (arith, h.0, over-light xs h.1)

  flat_mono : (xs ys : List Weighed) → length xs ≤ length ys → sum_by flat xs ≤ sum_by flat ys
  flat_mono [] ys le = omega arith
  flat_mono (x ∷ xs) [] le = absurd (omega arith)
  flat_mono (x ∷ xs) (y ∷ ys) le = omega (arith, flat_mono xs ys (omega arith))

-- In a list whose front weighs `p` or more each and the rest `p` or less, no more elements than the front
-- has weigh more than the front.
pub front_heaviest :
    (front rest others spare : List Weighed) (last : Weighed)
    → All (λ x. weight last ≤ weight x) front
    → All (λ x. weight x ≤ weight last) rest
    → Perm (others ++ spare) (front ++ (last ∷ rest))
    → length others ≤ length front
    → sum_by weight others ≤ sum_by weight front
front_heaviest front rest others spare last heavy light perm few =
    let p = weight last in
    omega (
      arith,
      weight-le p others,
      flat_mono p others front few,
      sum_by-append (over p) others spare,
      sum_by-perm (over p) perm,
      sum_by-append (over p) front (last ∷ rest),
      over-light p rest light,
      weight-heavy p front heavy,
    )

-- The key that the payloads ascend by when they are sorted by `heavier`.
abbrev pub lightness : Weighed → ℕ
lightness x = word16 - weight x

abbrev pub is_small : Weighed → Bool
is_small x = ltb (weight x) word16

pub all_small : (xs : List Weighed) → sum_by weight xs < word16 → all is_small xs ≡ true
all_small [] h = refl
all_small (x ∷ xs) h = ground (arith, all_small xs (omega arith))

pub heavier-lightness :
    (x y : Weighed)
    → is_small x ≡ true
    → is_small y ≡ true
    → heavier x y ≡ ltb (lightness x) (lightness y)
heavier-lightness x y h k = ground arith

at_last :
    (P : Weighed → Type 0) (front rest : List Weighed) (last : Weighed)
    → All P (front ++ (last ∷ rest))
    → P last
at_last P [] rest last h = h.0
at_last P (x ∷ xs) rest last h = at_last P xs rest last h.1

small_last :
    (front rest : List Weighed) (last : Weighed)
    → all is_small (front ++ (last ∷ rest)) ≡ true
    → is_small last ≡ true
small_last [] rest last h = ground arith
small_last (x ∷ xs) rest last h = small_last xs rest last (ground arith)

pub front_of :
    (front rest : List Weighed) (last : Weighed)
    → IsAscending lightness (front ++ (last ∷ rest))
    → all is_small (front ++ (last ∷ rest)) ≡ true
    → All (λ x. weight last ≤ weight x) front × All (λ x. weight x ≤ weight last) rest
front_of [] rest last asc small = (tt, lighter rest asc.0 (ground arith) (ground arith))
  where
    lighter :
        (xs : List Weighed)
        → All (λ y. lightness last ≤ lightness y) xs
        → is_small last ≡ true
        → all is_small xs ≡ true
        → All (λ x. weight x ≤ weight last) xs
    lighter [] h s k = tt
    lighter (x ∷ xs) h s k = (ground (arith, h.0), lighter xs h.1 s (ground arith))
front_of (x ∷ xs) rest last asc small =
    let (heavy, light) = front_of xs rest last asc.1 (ground arith) in
    let before = at_last (λ y. lightness x ≤ lightness y) xs rest last asc.0 in
    let bound = small_last (x ∷ xs) rest last small in
    let first : is_small x ≡ true = ground arith in
    ((ground (arith, before, bound, first), heavy), light)
