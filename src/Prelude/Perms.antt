-- ===== src/Prelude/Perms.antt =====
-- What does not depend on the order of a list: sums, tests of all elements, how often a key occurs.
use Prim.Native.Nat.{ℕ, ◌+◌}
use mathlib.Core.Path.{◌≡◌, refl, ap, ◌∙◌}
use mathlib.Core.Bool.{Bool, true, ◌&&◌}
use mathlib.Core.List.{List, [], ◌∷◌, Perm, ◌++◌}
use mathlib.Core.List.{Permᴰ}
use mathlib.Core.Logic.{∥∥₁_elim}
use mathlib.Core.List.Perm
use native.Mathlib.Omega.{arith}
use flare_system_client.Prelude.Lists.{length}
use flare_system_client.Prelude.Tests.{◌==◌, if◌then◌else◌}

module _ {A : Type 0} where
  abbrev pub sum_by : (A → ℕ) → List A → ℕ
  sum_by f [] = 0
  sum_by f (x ∷ xs) = f x + sum_by f xs

  abbrev pub all : (A → Bool) → List A → Bool
  all test [] = true
  all test (x ∷ xs) = test x && all test xs

  -- How often a key occurs.
  abbrev pub occurrences : (A → ℕ) → ℕ → List A → ℕ
  occurrences key k xs = sum_by (λ x. if key x == k then 1 else 0) xs

module _ {A : Type 0} where
  sum_by-perm_listed : (f : A → ℕ) {xs ys : List A} → Permᴰ xs ys → sum_by f xs ≡ sum_by f ys
  sum_by-perm_listed f Permᴰ.nil = refl
  sum_by-perm_listed f (Permᴰ.cons e d) = omega (arith, ap f e, sum_by-perm_listed f d)
  sum_by-perm_listed f (Permᴰ.swap e e') = omega (arith, ap f e, ap f e')
  sum_by-perm_listed f (Permᴰ.trans d d') = sum_by-perm_listed f d ∙ sum_by-perm_listed f d'

  all-perm_listed : (test : A → Bool) {xs ys : List A} → Permᴰ xs ys → all test xs ≡ all test ys
  all-perm_listed test Permᴰ.nil = refl
  all-perm_listed test (Permᴰ.cons e d) = ground (arith, ap test e, all-perm_listed test d)
  all-perm_listed test (Permᴰ.swap e e') = ground (arith, ap test e, ap test e')
  all-perm_listed test (Permᴰ.trans d d') = all-perm_listed test d ∙ all-perm_listed test d'

  pub sum_by-perm : (f : A → ℕ) {xs ys : List A} → Perm xs ys → sum_by f xs ≡ sum_by f ys
  sum_by-perm f {xs} {ys} p = ∥∥₁_elim p (hlevel) (sum_by-perm_listed f)

  pub all-perm : (test : A → Bool) {xs ys : List A} → Perm xs ys → all test xs ≡ all test ys
  all-perm test {xs} {ys} p = ∥∥₁_elim p (hlevel) (all-perm_listed test)

  pub sum_by-append : (f : A → ℕ) (xs ys : List A) → sum_by f (xs ++ ys) ≡ sum_by f xs + sum_by f ys
  sum_by-append f [] ys = omega arith
  sum_by-append f (x ∷ xs) ys = omega (arith, sum_by-append f xs ys)

  pub all-append :
      (test : A → Bool) (xs ys : List A) → all test (xs ++ ys) ≡ (all test xs && all test ys)
  all-append test [] ys = refl
  all-append test (x ∷ xs) ys = ground (arith, all-append test xs ys)

  -- An element in the middle of a list can stand at its front.
  pub perm_middle : (a : A) (xs ys : List A) → Perm (xs ++ (a ∷ ys)) (a ∷ (xs ++ ys))
  perm_middle a [] ys = Perm.refl (a ∷ ys)
  perm_middle a (x ∷ xs) ys =
      Perm.trans (Perm.cons x (perm_middle a xs ys)) (Perm.swap a x (xs ++ ys))

  sum_by-one : (xs : List A) → sum_by (λ _. 1) xs ≡ length xs
  sum_by-one [] = refl
  sum_by-one (x ∷ xs) = omega (arith, sum_by-one xs)

  pub length-perm : {xs ys : List A} → Perm xs ys → length xs ≡ length ys
  length-perm {xs} {ys} p = omega (arith, sum_by-one xs, sum_by-one ys, sum_by-perm (λ _. 1) p)
