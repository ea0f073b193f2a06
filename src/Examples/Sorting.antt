-- ===== src/Examples/Sorting.antt =====
-- A sorting function by a comparison, which has what is documented of `slices.SortFunc`.
use flare_system_client.Prelude.{
  ℕ, ◌≡◌, ◌≤◌, ◌∙◌, Bool, true, List, [], ◌∷◌, Perm, All, all, all-perm, ltb, if◌then◌else◌, arith,
  Bool-cases, inl, inr,
}
use mathlib.Core.List.Perm
use flare_system_client.Finalizer.Queue.{Sorter, SortLaws, IsAscending}

module _ {A : Type 0} where
  place_by : (A → A → Bool) → A → List A → List A
  place_by less x [] = x ∷ []
  place_by less x (y ∷ ys) = if less y x then y ∷ place_by less x ys else x ∷ y ∷ ys

  sort_by : (A → A → Bool) → List A → List A
  sort_by less [] = []
  sort_by less (x ∷ xs) = place_by less x (sort_by less xs)

  pub sorter : Sorter A
  sorter = record { sort = sort_by }

  place_by-perm : (less : A → A → Bool) (x : A) (ys : List A) → Perm (place_by less x ys) (x ∷ ys)
  unfolding place_by
  place_by-perm less x [] = Perm.refl (x ∷ [])
  place_by-perm less x (y ∷ ys) = elim (Bool-cases (less y x)) [
    | inl e ↦
        rw (e, place_by) (Perm.trans (Perm.cons y (place_by-perm less x ys)) (Perm.swap x y ys))
    | inr e ↦ rw (e, place_by) (Perm.refl (x ∷ y ∷ ys))
  ]

  sort_by-perm : (less : A → A → Bool) (xs : List A) → Perm (sort_by less xs) xs
  unfolding sort_by
  sort_by-perm less [] = Perm.refl []
  sort_by-perm less (x ∷ xs) =
      Perm.trans (place_by-perm less x (sort_by less xs)) (Perm.cons x (sort_by-perm less xs))

  module _ (less : A → A → Bool) (key : A → ℕ) (test : A → Bool)
      (agrees : (x y : A) → test x ≡ true → test y ≡ true → less x y ≡ ltb (key x) (key y)) where
    AtLeast : ℕ → List A → Type 0
    AtLeast k xs = All (λ y. k ≤ key y) xs

    weaken : (k m : ℕ) (xs : List A) → k ≤ m → AtLeast m xs → AtLeast k xs
    unfolding AtLeast
    weaken k m [] h a = tt
    weaken k m (x ∷ xs) h a = (omega (arith, a.0), weaken k m xs h a.1)

    place_by-AtLeast :
        (k : ℕ) (x : A) (ys : List A) → k ≤ key x → AtLeast k ys → AtLeast k (place_by less x ys)
    unfolding AtLeast place_by
    place_by-AtLeast k x [] h a = (h, tt)
    place_by-AtLeast k x (y ∷ ys) h a = elim (Bool-cases (less y x)) [
      | inl e ↦ rw (e, place_by) (a.0, place_by-AtLeast k x ys h a.1)
      | inr e ↦ rw (e, place_by) (h, a)
    ]

    place_by-IsAscending :
        (x : A) (ys : List A)
        → test x ≡ true
        → all test ys ≡ true
        → IsAscending key ys
        → IsAscending key (place_by less x ys)
    unfolding AtLeast place_by
    place_by-IsAscending x [] tx ts a = (tt, tt)
    place_by-IsAscending x (y ∷ ys) tx ts a = elim (Bool-cases (less y x)) [
      | inl e ↦
          rw (e, place_by)
            (
              place_by-AtLeast (key y) x ys (ground (arith, agrees y x)) a.0,
              place_by-IsAscending x ys tx (ground arith) a.1,
            )
      | inr e ↦
          let le : key x ≤ key y = ground (arith, agrees y x) in
          rw (e, place_by) ((le, weaken (key x) (key y) ys le a.0), a)
    ]

    sort_by-IsAscending : (xs : List A) → all test xs ≡ true → IsAscending key (sort_by less xs)
    unfolding sort_by
    sort_by-IsAscending [] ts = tt
    sort_by-IsAscending (x ∷ xs) ts =
        place_by-IsAscending x (sort_by less xs) (ground arith)
          (all-perm test (sort_by-perm less xs) ∙ ground arith)
          (sort_by-IsAscending xs (ground arith))

  pub sorter-laws : SortLaws sorter
  unfolding sorter
  sorter-laws = record {
    sort-perm = sort_by-perm;
    sort-IsAscending = λ less key test xs ts agrees. sort_by-IsAscending less key test agrees xs ts;
  }
