-- ===== src/Prelude/Calls.antt =====
-- Calls that act on the outside world: the world `W` is passed on, and a call returns what a Go function
-- returns. `Takes` bounds what a call adds to a measure of the world, such as the number of
-- transactions sent.
use Prim.Native.Nat.{ℕ, ◌+◌, ◌≤◌}
use mathlib.Core.Bool.{Bool, true, false}
use mathlib.Core.Path.{◌≡◌, refl, ap}
use native.Mathlib.Omega.{arith}
use flare_system_client.Prelude.Tests.{if◌then◌else◌}
use flare_system_client.Prelude.Results.{Go, ok, err, panicked, ok-injective}

abbrev pub Call : Type 0 → Type 0 → Type 0 → Type 0
Call W E A = W → Go E A × W

-- A result that needs no call.
unfoldable pub return : {W E A : Type 0} → Go E A → Call W E A
return r w = (r, w)

-- What follows a call, on what the call left.
abbrev pub continue : {W E A B : Type 0} → Go E A × W → (A → Call W E B) → Go E B × W
continue (ok a, w) next = next a w
continue (err e, w) next = (err e, w)
continue (panicked, w) next = (panicked, w)

abbrev pub handled : {W E A : Type 0} → Go E A × W → (E → Call W E A) → Go E A × W
handled (ok a, w) handle = (ok a, w)
handled (err e, w) handle = handle e w
handled (panicked, w) handle = (panicked, w)

infixl 5 ◌>>=◌ ◌>>◌
unfoldable pub ◌>>=◌ : {W E A B : Type 0} → Call W E A → (A → Call W E B) → Call W E B
(first >>= next) w = continue (first w) next

abbrev pub ◌>>◌ : {W E B : Type 0} → Call W E (Unit {0}) → Call W E B → Call W E B
first >> next = first >>= λ done. next

-- `if err != nil { … }`: what is done on an error, with its value.
unfoldable pub on_err : {W E A : Type 0} → Call W E A → (E → Call W E A) → Call W E A
on_err first handle w = handled (first w) handle

-- A successful call, and what follows it.
continue_ok :
    {W E A B : Type 0} (left : Go E A × W) (next : A → Call W E B) (a : A)
    → left.0 ≡ ok a
    → continue left next ≡ next a left.1
continue_ok (ok b, w) next a e = ap (λ x. next x w) (ok-injective e)
continue_ok (err x, w) next a e = absurd (ground arith)
continue_ok (panicked, w) next a e = absurd (ground arith)

pub >>=-ok :
    {W E A B : Type 0} (first : Call W E A) (next : A → Call W E B) (w : W) (a : A)
    → (first w).0 ≡ ok a
    → (first >>= next) w ≡ next a (first w).1
unfolding ◌>>=◌
>>=-ok first next w a e = continue_ok (first w) next a e

module _ {W E : Type 0} (measure : W → ℕ) where
  -- What a call does to the measure, where it was `before`: it does not shrink, it grows by `high` at
  -- most, and by `low` at least if the call is successful.
  abbrev pub Grown : {A : Type 0} → ℕ → ℕ → ℕ → Go E A × W → Type 0
  Grown low high before (ok a, w) = (before + low ≤ measure w) × (measure w ≤ before + high)
  Grown low high before (err e, w) = (before ≤ measure w) × (measure w ≤ before + high)
  Grown low high before (panicked, w) = (before ≤ measure w) × (measure w ≤ before + high)

  pub record Takes {A : Type 0} (low high : ℕ) (call : Call W E A) : Type 0 where
    pub grown : (w : W) → Grown low high (measure w) (call w)

  pub return-Takes : {A : Type 0} (r : Go E A) → Takes 0 0 (return r)
  unfolding return
  return-Takes (ok a) = record { grown = λ w. (omega arith, omega arith) }
  return-Takes (err e) = record { grown = λ w. (omega arith, omega arith) }
  return-Takes panicked = record { grown = λ w. (omega arith, omega arith) }

  -- More leeway on both sides.
  Grown-weaken :
      {A : Type 0} (l l' h h' before : ℕ) (left : Go E A × W)
      → l' ≤ l
      → h ≤ h'
      → Grown l h before left
      → Grown l' h' before left
  Grown-weaken l l' h h' before (ok a, w) ll hh g = (omega arith, omega arith)
  Grown-weaken l l' h h' before (err e, w) ll hh g = (omega arith, omega arith)
  Grown-weaken l l' h h' before (panicked, w) ll hh g = (omega arith, omega arith)

  pub Takes_weaken :
      {A : Type 0} (l l' h h' : ℕ) (call : Call W E A)
      → l' ≤ l
      → h ≤ h'
      → Takes l h call
      → Takes l' h' call
  Takes_weaken l l' h h' call ll hh t = record {
    grown = λ w. Grown-weaken l l' h h' (measure w) (call w) ll hh (t.grown w);
  }

  after_more :
      {A : Type 0} (l h l' h' before middle : ℕ) (left : Go E A × W)
      → before + l ≤ middle
      → middle ≤ before + h
      → Grown l' h' middle left
      → Grown (l + l') (h + h') before left
  after_more l h l' h' before middle (ok a, w) p q g = (omega arith, omega arith)
  after_more l h l' h' before middle (err e, w) p q g = (omega arith, omega arith)
  after_more l h l' h' before middle (panicked, w) p q g = (omega arith, omega arith)

  continue-Grown :
      {A B : Type 0} (l h l' h' before : ℕ) (left : Go E A × W) (next : A → Call W E B)
      → Grown l h before left
      → ((a : A) → Takes l' h' (next a))
      → Grown (l + l') (h + h') before (continue left next)
  continue-Grown l h l' h' before (ok a, w) next g t =
      after_more l h l' h' before (measure w) (next a w) g.0 g.1 ((t a).grown w)
  continue-Grown l h l' h' before (err e, w) next g t = (omega arith, omega arith)
  continue-Grown l h l' h' before (panicked, w) next g t = (omega arith, omega arith)

  pub >>=-Takes :
      {A B : Type 0} (l h l' h' : ℕ) (first : Call W E A) (next : A → Call W E B)
      → Takes l h first
      → ((a : A) → Takes l' h' (next a))
      → Takes (l + l') (h + h') (first >>= next)
  unfolding ◌>>=◌
  >>=-Takes l h l' h' first next t t' = record {
    grown = λ w. continue-Grown l h l' h' (measure w) (first w) next (t.grown w) t';
  }

  after_error :
      {A : Type 0} (l h h' before middle : ℕ) (left : Go E A × W)
      → before ≤ middle
      → middle ≤ before + h
      → Grown l h' middle left
      → Grown l (h + h') before left
  after_error l h h' before middle (ok a, w) p q g = (omega arith, omega arith)
  after_error l h h' before middle (err e, w) p q g = (omega arith, omega arith)
  after_error l h h' before middle (panicked, w) p q g = (omega arith, omega arith)

  handled-Grown :
      {A : Type 0} (l h h' before : ℕ) (left : Go E A × W) (handle : E → Call W E A)
      → Grown l h before left
      → ((e : E) → Takes l h' (handle e))
      → Grown l (h + h') before (handled left handle)
  handled-Grown l h h' before (ok a, w) handle g t = (omega arith, omega arith)
  handled-Grown l h h' before (err e, w) handle g t =
      after_error l h h' before (measure w) (handle e w) g.0 g.1 ((t e).grown w)
  handled-Grown l h h' before (panicked, w) handle g t = (omega arith, omega arith)

  pub on_err-Takes :
      {A : Type 0} (l h h' : ℕ) (first : Call W E A) (handle : E → Call W E A)
      → Takes l h first
      → ((e : E) → Takes l h' (handle e))
      → Takes l (h + h') (on_err first handle)
  unfolding on_err
  on_err-Takes l h h' first handle t t' = record {
    grown = λ w. handled-Grown l h h' (measure w) (first w) handle (t.grown w) t';
  }

  -- A test, whose two cases are calls.
  pub if-Takes :
      {A : Type 0} (b : Bool) (l h : ℕ) (x y : Call W E A)
      → Takes l h x
      → Takes l h y
      → Takes l h (if b then x else y)
  if-Takes true l h x y t t' = t
  if-Takes false l h x y t t' = t'

ok_earlier :
    {W E A B : Type 0} (left : Go E A × W) (next : A → Call W E B) {b : B}
    → (continue left next).0 ≡ ok b
    → (a : A) × (left.0 ≡ ok a) × ((next a left.1).0 ≡ ok b)
ok_earlier (ok a, w) next e = (a, refl, e)
ok_earlier (err x, w) next e = absurd (ground arith)
ok_earlier (panicked, w) next e = absurd (ground arith)

-- A chain that succeeds, from the first call on.
pub >>=-eq-ok :
    {W E A B : Type 0} (first : Call W E A) (next : A → Call W E B) (w : W) {b : B}
    → ((first >>= next) w).0 ≡ ok b
    → (a : A) × ((first w).0 ≡ ok a) × ((next a (first w).1).0 ≡ ok b)
unfolding ◌>>=◌
>>=-eq-ok first next w e = ok_earlier (first w) next e
