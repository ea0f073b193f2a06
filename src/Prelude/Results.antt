-- ===== src/Prelude/Results.antt =====
-- What a Go function returns: a value, an error value, or a run-time panic (an index out of range, a
-- division by zero, an explicit `panic`).
use mathlib.Core.Path.{◌≡◌, refl}
use mathlib.Core.Logic.{◌⊎◌, inl, inr}
use mathlib.Core.Bool.{Bool, true, false}
use mathlib.Core.Option.{Option, none, some}
use native.Mathlib.Omega.{arith}

pub data Go (E A : Type 0) : Type 0 where
  ok : A → Go E A
  err : E → Go E A
  panicked : Go E A

-- An index expression: no element is a panic.
abbrev pub must : {E A : Type 0} → Option A → Go E A
must none = panicked
must (some a) = ok a

-- An external call that reports an error by `none`.
abbrev pub or_err : {E A : Type 0} → Option A → E → Go E A
or_err none e = err e
or_err (some a) e = ok a

infixl 5 ◌>>=◌ ◌>>◌
-- A call whose value the rest of the function takes.
abbrev pub ◌>>=◌ : {Err V R : Type 0} → Go Err V → (V → Go Err R) → Go Err R
panicked >>= rest = panicked
err failure >>= rest = err failure
ok value >>= rest = rest value

-- `if !test { return failure }`
abbrev pub guard : {Err : Type 0} → Bool → Err → Go Err (Unit {0})
guard false failure = err failure
guard true failure = ok tt

-- A call of which only the error counts.
abbrev pub ◌>>◌ : {Err R : Type 0} → Go Err (Unit {0}) → Go Err R → Go Err R
call >> rest = call >>= λ done. rest

pub >>=-eq-ok :
    {Err V R : Type 0} (call : Go Err V) (rest : V → Go Err R) {r : R}
    → (call >>= rest) ≡ ok r
    → (value : V) × (call ≡ ok value) × (rest value ≡ ok r)
>>=-eq-ok panicked rest e = absurd (ground arith)
>>=-eq-ok (err failure) rest e = absurd (ground arith)
>>=-eq-ok (ok value) rest e = (value, refl, e)

pub ok-injective : {E A : Type 0} {a b : A} → ◌≡◌ {A = Go E A} (ok a) (ok b) → a ≡ b
ok-injective e = cc

pub some-injective : {A : Type 0} {a b : A} → ◌≡◌ {A = Option A} (some a) (some b) → a ≡ b
some-injective e = cc

-- To split on the result of a call and keep the equation.
pub Go-cases :
    {E A : Type 0} (m : Go E A)
    → ((a : A) × (m ≡ ok a)) ⊎ (((e : E) × (m ≡ err e)) ⊎ (m ≡ panicked))
Go-cases (ok a) = inl (a, refl)
Go-cases (err e) = inr (inl (e, refl))
Go-cases panicked = inr (inr refl)
