-- ===== src/Finalizer/Listener/Outcome.antt =====
-- client/finalizer/submission_utils.go: what one tick of the listener does with a list of transactions.
use flare_system_client.Prelude.{
  ℕ, zero, suc, ◌≤◌, ◌≡◌, ◌⊎◌, refl, sym, subst, inl, inr, Bool, true, false, List, [], ◌∷◌, All,
  Go, ok, Go-cases, ℤ, pos, ◌-ℤ◌, ltb_ℤ, arith,
}
use flare_system_client.Crypto.{Crypto}
use flare_system_client.Database.{Transaction}
use flare_system_client.Finalizer.Payload.{SubmitterPayloadItem}
use flare_system_client.Finalizer.Listener.{payload_of, listener_txs}

-- A transaction is later than the start of a range.
abbrev pub is_after : ℤ → Transaction → Bool
is_after n tx = ltb_ℤ n (pos tx.timestamp)

abbrev pub InOrder : List Transaction → Type 0
InOrder [] = Unit {0}
InOrder (tx ∷ txs) = All (λ u. tx.timestamp ≤ u.timestamp) txs × InOrder txs

pub before_or_at : (t u : ℕ) → t ≤ u → ltb_ℤ (pos t -ℤ pos 1) (pos u) ≡ true
unfolding ◌-ℤ◌
before_or_at zero u le = ground arith
before_or_at (suc t) u le = ground arith

is_after-overlap :
    (tx u : Transaction)
    → tx.timestamp ≤ u.timestamp
    → is_after (pos tx.timestamp -ℤ pos 1) u ≡ true
is_after-overlap tx u le = before_or_at tx.timestamp u.timestamp le

list-cases : {A : Type 0} (xs : List A) → (xs ≡ []) ⊎ ((x : A) × (ys : List A) × (xs ≡ x ∷ ys))
list-cases [] = inl refl
list-cases (x ∷ xs) = inr (x, xs, refl)

-- Some transaction is not earlier than a time.
abbrev pub Reaches : ℕ → List Transaction → Type 0
Reaches t [] = ⊥
Reaches t (tx ∷ txs) = (t ≤ tx.timestamp) ⊎ Reaches t txs

module _ {S E : Type 0} (c : Crypto) (process : S → List SubmitterPayloadItem → S × Go E (Unit {0}))
    (Handled : S → List SubmitterPayloadItem → Type 0) where
  -- What is asked of the notion that items are handled: they are when the processor returns no error, they
  -- stay so, and there is nothing to do for no items.
  pub record HandlingLaws : Type 0 where
    pub handled-ok :
        (s : S) (items : List SubmitterPayloadItem) (u : Unit {0})
        → (process s items).1 ≡ ok u
        → Handled (process s items).0 items
    pub handled_still :
        (s : S) (items others : List SubmitterPayloadItem)
        → Handled s items
        → Handled (process s others).0 items
    pub handled-nil : (s : S) → Handled s []

  module _ (laws : HandlingLaws) where
    -- What one transaction makes of the rest of a tick: it goes on, with the transaction handled, or stops.
    data Outcome (s : S) (tx : Transaction) (txs : List Transaction) (n : ℤ) : Type 0 where
      goes_on :
          (s' : S)
          → listener_txs c process s (tx ∷ txs) n
            ≡ listener_txs c process s' txs (pos tx.timestamp -ℤ pos 1)
          → Handled s' (payload_of c tx.input)
          → ((items : List SubmitterPayloadItem) → Handled s items → Handled s' items)
          → Outcome s tx txs n
      stops :
          (s' : S)
          → listener_txs c process s (tx ∷ txs) n ≡ (s', n)
          → ((items : List SubmitterPayloadItem) → Handled s items → Handled s' items)
          → Outcome s tx txs n

    listener_txs-Outcome :
        (s : S) (tx : Transaction) (txs : List Transaction) (n : ℤ) → Outcome s tx txs n
    unfolding listener_txs
    listener_txs-Outcome s tx txs n = elim (list-cases (payload_of c tx.input)) [
      | inl empty ↦
          goes_on s (rw (empty, listener_txs) refl) (rw empty (laws.handled-nil s)) (λ items h. h)
      | inr (item, items, full) ↦ elim (Go-cases (process s (item ∷ items)).1) [
        | inl (u, done) ↦
            goes_on (process s (item ∷ items)).0 (rw (full, listener_txs, done) refl)
              (rw full (laws.handled-ok s (item ∷ items) u done))
              (λ others h. laws.handled_still s others (item ∷ items) h)
        | inr (inl (x, failed)) ↦
            stops (process s (item ∷ items)).0 (rw (full, listener_txs, failed) refl)
              (λ others h. laws.handled_still s others (item ∷ items) h)
        | inr (inr failed) ↦
            stops (process s (item ∷ items)).0 (rw (full, listener_txs, failed) refl)
              (λ others h. laws.handled_still s others (item ∷ items) h)
      ]
    ]

    pub listener_txs-still :
        (s : S) (txs : List Transaction) (n : ℤ) (items : List SubmitterPayloadItem)
        → Handled s items
        → Handled (listener_txs c process s txs n).0 items
    listener_txs-still s [] n items h = unfold listener_txs in h
    listener_txs-still s (tx ∷ txs) n items h = elim (listener_txs-Outcome s tx txs n) [
      | goes_on s' e done still ↦
          rw e (listener_txs-still s' txs (pos tx.timestamp -ℤ pos 1) items (still items h))
      | stops s' e still ↦ rw e (still items h)
    ]

    -- Up to the start of the next range, the transactions are handled.
    abbrev pub DoneTo : S → ℤ → Transaction → Type 0
    DoneTo s n tx = is_after n tx ≡ false → Handled s (payload_of c tx.input)

    nothing_due :
        (s : S) (n : ℤ) (txs : List Transaction)
        → All (λ tx. is_after n tx ≡ true) txs
        → All (DoneTo s n) txs
    nothing_due s n [] h = tt
    nothing_due s n (tx ∷ txs) h = (λ e. absurd (ground (arith, h.0, e)), nothing_due s n txs h.1)

    overlap :
        (tx : Transaction) (txs : List Transaction)
        → All (λ u. tx.timestamp ≤ u.timestamp) txs
        → All (λ u. is_after (pos tx.timestamp -ℤ pos 1) u ≡ true) txs
    overlap tx [] h = tt
    overlap tx (u ∷ us) h = (is_after-overlap tx u h.0, overlap tx us h.1)

    abbrev pub AllDone : S × ℤ → List Transaction → Type 0
    AllDone r txs = All (DoneTo r.0 r.1) txs

    pub listener_txs-AllDone :
        (s : S) (txs : List Transaction) (n : ℤ)
        → InOrder txs
        → All (λ tx. is_after n tx ≡ true) txs
        → AllDone (listener_txs c process s txs n) txs
    listener_txs-AllDone s [] n order later = tt
    listener_txs-AllDone s (tx ∷ txs) n order later = elim (listener_txs-Outcome s tx txs n) [
      | stops s' e still ↦
          subst (λ r. AllDone r (tx ∷ txs)) (sym e) (nothing_due s' n (tx ∷ txs) later)
      | goes_on s' e done still ↦
          subst (λ r. AllDone r (tx ∷ txs)) (sym e)
            (
              λ until.
                  listener_txs-still s' txs (pos tx.timestamp -ℤ pos 1) (payload_of c tx.input)
                    done,
              listener_txs-AllDone s' txs (pos tx.timestamp -ℤ pos 1) order.1
                  (overlap tx txs order.0),
            )
    ]

    -- The new start is the old one, or lies before a transaction of the list.
    abbrev pub Moved : ℤ → ℤ → List Transaction → Type 0
    Moved n n' txs = (n' ≡ n) ⊎ ((t : ℕ) × (n' ≡ pos t -ℤ pos 1) × Reaches t txs)

    pub listener_txs-Moved :
        (s : S) (txs : List Transaction) (n : ℤ) → Moved n (listener_txs c process s txs n).1 txs
    listener_txs-Moved s [] n = unfold listener_txs in inl refl
    listener_txs-Moved s (tx ∷ txs) n = elim (listener_txs-Outcome s tx txs n) [
      | stops s' e still ↦ rw e (inl refl)
      | goes_on s' e done still ↦
          rw e (moved_on tx txs n _ (listener_txs-Moved s' txs (pos tx.timestamp -ℤ pos 1)))
    ]
      where
        moved_on :
            (tx : Transaction) (txs : List Transaction) (n n' : ℤ)
            → Moved (pos tx.timestamp -ℤ pos 1) n' txs
            → Moved n n' (tx ∷ txs)
        moved_on tx txs n n' (inl e) = inr (tx.timestamp, e, inl (omega arith))
        moved_on tx txs n n' (inr (t, e, h)) = inr (t, e, inr h)
