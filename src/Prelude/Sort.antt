-- ===== src/Prelude/Sort.antt =====
-- `sort.Slice` on numbers. The order is total, so every sorting algorithm returns this list.
use Prim.Native.Nat.{ℕ, zero, suc, ◌≤◌, ◌<◌}
use mathlib.Core.Path.{◌≡◌, refl}
use mathlib.Core.Logic.{inl, inr}
use mathlib.Core.List.{List, [], ◌∷◌, Perm}
use mathlib.Core.List.Perm
use native.Mathlib.Omega.{arith}
use flare_system_client.Prelude.Tests.{leb, if◌then◌else◌, Bool-cases}
use flare_system_client.Prelude.Lists.{length, get_or}

insert : ℕ → List ℕ → List ℕ
insert x [] = x ∷ []
insert x (y ∷ ys) = if leb x y then x ∷ y ∷ ys else y ∷ insert x ys

unfoldable pub insertion_sort : List ℕ → List ℕ
unfolding insert
insertion_sort [] = []
insertion_sort (x ∷ xs) = insert x (insertion_sort xs)

abbrev AllGe : ℕ → List ℕ → Type 0
AllGe x [] = Unit {0}
AllGe x (y ∷ ys) = (x ≤ y) × AllGe x ys

abbrev IsAscending : List ℕ → Type 0
IsAscending [] = Unit {0}
IsAscending (x ∷ xs) = AllGe x xs × IsAscending xs

insert-AllGe : (z x : ℕ) (ys : List ℕ) → z ≤ x → AllGe z ys → AllGe z (insert x ys)
unfolding insert
insert-AllGe z x [] h a = (h, tt)
insert-AllGe z x (y ∷ ys) h a = ground (arith, insert-AllGe z x ys)

AllGe-trans : (x y : ℕ) (ys : List ℕ) → x ≤ y → AllGe y ys → AllGe x ys
AllGe-trans x y [] h a = tt
AllGe-trans x y (z ∷ zs) h a = (omega arith, AllGe-trans x y zs h a.1)

insert-IsAscending : (x : ℕ) (ys : List ℕ) → IsAscending ys → IsAscending (insert x ys)
unfolding insert
insert-IsAscending x [] a = (tt, tt)
insert-IsAscending x (y ∷ ys) a = elim (Bool-cases (leb x y)) [
  | inl e ↦ rw (e, insert) ((ground arith, AllGe-trans x y ys (ground arith) a.0), (a.0, a.1))
  | inr e ↦ rw (e, insert) (insert-AllGe y x ys (ground arith) a.0, insert-IsAscending x ys a.1)
]

insertion_sort-IsAscending : (xs : List ℕ) → IsAscending (insertion_sort xs)
unfolding insertion_sort
insertion_sort-IsAscending [] = tt
insertion_sort-IsAscending (x ∷ xs) =
    insert-IsAscending x (insertion_sort xs) (insertion_sort-IsAscending xs)

-- Ascending, read by index.
abbrev pub IsSorted : List ℕ → Type 0
IsSorted xs = (i j : ℕ) → i ≤ j → j < length xs → get_or xs i 0 ≤ get_or xs j 0

AllGe-get_or : (x : ℕ) (ys : List ℕ) (j : ℕ) → AllGe x ys → j < length ys → x ≤ get_or ys j 0
AllGe-get_or x [] j a h = absurd (omega arith)
AllGe-get_or x (y ∷ ys) zero a h = a.0
AllGe-get_or x (y ∷ ys) (suc j) a h = AllGe-get_or x ys j a.1 (omega arith)

IsAscending→IsSorted : (xs : List ℕ) → IsAscending xs → IsSorted xs
IsAscending→IsSorted [] a i j h k = absurd (omega arith)
IsAscending→IsSorted (x ∷ xs) a zero zero h k = omega arith
IsAscending→IsSorted (x ∷ xs) a zero (suc j) h k = AllGe-get_or x xs j a.0 (omega arith)
IsAscending→IsSorted (x ∷ xs) a (suc i) zero h k = absurd (omega arith)
IsAscending→IsSorted (x ∷ xs) a (suc i) (suc j) h k =
    IsAscending→IsSorted xs a.1 i j (omega arith) (omega arith)

pub insertion_sort-IsSorted : (xs : List ℕ) → IsSorted (insertion_sort xs)
insertion_sort-IsSorted xs = IsAscending→IsSorted _ (insertion_sort-IsAscending xs)

insert-perm : (x : ℕ) (ys : List ℕ) → Perm (insert x ys) (x ∷ ys)
unfolding insert
insert-perm x [] = Perm.refl _
insert-perm x (y ∷ ys) = elim (Bool-cases (leb x y)) [
  | inl e ↦ rw (e, insert) (Perm.refl _)
  | inr e ↦ rw (e, insert) (Perm.trans (Perm.cons y (insert-perm x ys)) (Perm.swap x y ys))
]

pub insertion_sort-perm : (xs : List ℕ) → Perm (insertion_sort xs) xs
unfolding insertion_sort
insertion_sort-perm [] = Perm.refl _
insertion_sort-perm (x ∷ xs) =
    Perm.trans (insert-perm x (insertion_sort xs)) (Perm.cons x (insertion_sort-perm xs))

length-insert : (x : ℕ) (ys : List ℕ) → length (insert x ys) ≡ suc (length ys)
unfolding insert
length-insert x [] = refl
length-insert x (y ∷ ys) = ground (arith, length-insert x ys)

pub length-insertion_sort : (xs : List ℕ) → length (insertion_sort xs) ≡ length xs
unfolding insertion_sort
length-insertion_sort [] = refl
length-insertion_sort (x ∷ xs) =
    omega (arith, length-insert x (insertion_sort xs), length-insertion_sort xs)
