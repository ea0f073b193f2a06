-- ===== src/Finalizer/Listener/Fetched.antt =====
-- database/queries.go for client/finalizer/submission_utils.go: the fetched transactions, in the order of the
-- table.
use flare_system_client.Prelude.{
  ℕ, ◌≤◌, ◌≡◌, inl, inr, true, false, ◌&&◌, Bool-cases, List, [], ◌∷◌, ◌++◌, All, Bytes, ℤ, pos,
  ◌-ℤ◌, ltb_ℤ, arith, All-append_left, All-append_right,
}
use flare_system_client.Database.{Transaction, is_call, in_range, fetch_transactions}
use flare_system_client.Finalizer.Listener.Outcome.{is_after, InOrder, Reaches, before_or_at}

pub InOrder-append_left : (xs ys : List Transaction) → InOrder (xs ++ ys) → InOrder xs
InOrder-append_left [] ys h = tt
InOrder-append_left (x ∷ xs) ys h = (All-append_left _ xs ys h.0, InOrder-append_left xs ys h.1)

at_least :
    (t u : ℕ) (xs : List Transaction)
    → t ≤ u
    → All (λ (x : Transaction). u ≤ x.timestamp) xs
    → All (λ (x : Transaction). t ≤ x.timestamp) xs
at_least t u [] le h = tt
at_least t u (x ∷ xs) le h = (omega (arith, h.0), at_least t u xs le h.1)

pub Reaches-later :
    (t : ℕ) (xs ys : List Transaction)
    → InOrder (xs ++ ys)
    → Reaches t xs
    → All (λ (y : Transaction). t ≤ y.timestamp) ys
Reaches-later t [] ys order h = absurd h
Reaches-later t (x ∷ xs) ys order (inl le) =
    at_least t x.timestamp ys le (All-append_right _ xs ys order.0)
Reaches-later t (x ∷ xs) ys order (inr h) = Reaches-later t xs ys order.1 h

pub Reaches-append : (t : ℕ) (xs ys : List Transaction) → Reaches t xs → Reaches t (xs ++ ys)
Reaches-append t [] ys h = absurd h
Reaches-append t (x ∷ xs) ys (inl le) = inl le
Reaches-append t (x ∷ xs) ys (inr h) = inr (Reaches-append t xs ys h)

pub not_yet : (t u : ℕ) → t ≤ u → ltb_ℤ (pos t -ℤ pos 1) (pos u) ≡ false → ⊥
not_yet t u le e = ground (arith, before_or_at t u le, e)

pub in_time :
    (t u : ℕ) (now : ℤ)
    → ltb_ℤ now (pos t) ≡ false
    → ltb_ℤ (pos t -ℤ pos 1) (pos u) ≡ false
    → ltb_ℤ now (pos u) ≡ false
in_time t u now h e = elim (Bool-cases (ltb_ℤ now (pos u))) [
  | inr fine ↦ fine
  | inl late ↦ absurd (not_yet t u (ground (arith, h, late)) e)
]

module _ (to_address function_sig : Bytes) where
  abbrev pub Wanted : Transaction → Type 0
  Wanted tx = is_call to_address function_sig tx ≡ true

  fetch-All :
      (P : Transaction → Type 0) (table : List Transaction) (from to : ℤ)
      → All P table
      → All P (fetch_transactions table to_address function_sig from to)
  unfolding fetch_transactions
  fetch-All P [] from to h = tt
  fetch-All P (tx ∷ txs) from to h =
      elim (Bool-cases (is_call to_address function_sig tx && in_range from to tx.timestamp)) [
        | inl inside ↦ rw (inside, fetch_transactions) (h.0, fetch-All P txs from to h.1)
        | inr outside ↦ rw (outside, fetch_transactions) (fetch-All P txs from to h.1)
      ]

  pub fetch-InOrder :
      (table : List Transaction) (from to : ℤ)
      → InOrder table
      → InOrder (fetch_transactions table to_address function_sig from to)
  unfolding fetch_transactions
  fetch-InOrder [] from to h = tt
  fetch-InOrder (tx ∷ txs) from to h =
      elim (Bool-cases (is_call to_address function_sig tx && in_range from to tx.timestamp)) [
        | inl inside ↦
            rw (inside, fetch_transactions)
              (
                fetch-All (λ u. tx.timestamp ≤ u.timestamp) txs from to h.0,
                fetch-InOrder txs from to h.1,
              )
        | inr outside ↦ rw (outside, fetch_transactions) (fetch-InOrder txs from to h.1)
      ]

  pub fetch-after :
      (table : List Transaction) (from to : ℤ)
      → All
          (λ tx. is_after from tx ≡ true)
          (fetch_transactions table to_address function_sig from to)
  unfolding fetch_transactions
  fetch-after [] from to = tt
  fetch-after (tx ∷ txs) from to =
      elim (Bool-cases (is_call to_address function_sig tx && in_range from to tx.timestamp)) [
        | inl inside ↦
            rw (inside, fetch_transactions) (ground (arith, inside), fetch-after txs from to)
        | inr outside ↦ rw (outside, fetch_transactions) (fetch-after txs from to)
      ]

  pub fetch-Reaches :
      (t : ℕ) (table : List Transaction) (from to : ℤ)
      → Reaches t (fetch_transactions table to_address function_sig from to)
      → Reaches t table × (ltb_ℤ to (pos t) ≡ false)
  unfolding fetch_transactions
  fetch-Reaches t [] from to h = absurd h
  fetch-Reaches t (tx ∷ txs) from to h =
      elim (Bool-cases (is_call to_address function_sig tx && in_range from to tx.timestamp)) [
        | inr outside ↦
            let (k, u) = fetch-Reaches t txs from to (rw (outside, fetch_transactions) at h) in
            (inr k, u)
        | inl inside ↦ elim (rw (inside, fetch_transactions) at h) [
          | inl le ↦ (inl le, ground (arith, inside))
          | inr more ↦ let (k, u) = fetch-Reaches t txs from to more in (inr k, u)
        ]
      ]

  -- What holds of the fetched transactions holds of the wanted ones of the range.
  pub fetched-All :
      (P : Transaction → Type 0) (table : List Transaction) (from to : ℤ)
      → All P (fetch_transactions table to_address function_sig from to)
      → All (λ tx. Wanted tx → is_after from tx ≡ true → is_after to tx ≡ false → P tx) table
  unfolding fetch_transactions
  fetched-All P [] from to h = tt
  fetched-All P (tx ∷ txs) from to h =
      elim (Bool-cases (is_call to_address function_sig tx && in_range from to tx.timestamp)) [
        | inl inside ↦
            let k = rw (inside, fetch_transactions) at h in
            (λ w f u. k.0, fetched-All P txs from to k.1)
        | inr outside ↦ (
          λ w f u. absurd (ground (arith, outside)),
          fetched-All P txs from to (rw (outside, fetch_transactions) at h),
        )
      ]
