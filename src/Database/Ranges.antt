-- ===== src/Database/Ranges.antt =====
-- database/queries.go: the rows of two ranges of time that follow each other.
use flare_system_client.Database.{LogRow, is_about, in_range, fetch_logs}
use flare_system_client.Prelude.{
  ℕ, ◌≤◌, ◌≡◌, ◌⊎◌, refl, sym, ap, ◌∙◌, arith, Bool, true, false, ◌&&◌, not, Bool-cases, inl, inr,
  List, [], ◌∷◌, ◌++◌, Bytes, All, ℤ, pos, ltb_ℤ, ◌≤ℤ◌,
}

-- The rows stand in the order of their timestamps.
abbrev pub IsChronological : List LogRow → Type 0
IsChronological [] = Unit
IsChronological (row ∷ rows) = All (λ r. row.timestamp ≤ r.timestamp) rows × IsChronological rows

-- The condition of the query by its three parts: the row is wanted, it is behind the start, it is
-- behind the end.
holds : (a f u : Bool) → a ≡ true → f ≡ true → u ≡ false → (a && (f && not u)) ≡ true
holds true true false ha hf hu = refl
holds false f u ha hf hu = absurd (ground arith)
holds true false u ha hf hu = absurd (ground arith)
holds true true true ha hf hu = absurd (ground arith)

unwanted : (a f u : Bool) → a ≡ false → (a && (f && not u)) ≡ false
unwanted false f u h = refl
unwanted true f u h = absurd (ground arith)

early : (a f u : Bool) → f ≡ false → (a && (f && not u)) ≡ false
early false f u h = refl
early true false u h = refl
early true true u h = absurd (ground arith)

late : (a f u : Bool) → u ≡ true → (a && (f && not u)) ≡ false
late false f u h = refl
late true false u h = refl
late true true true h = refl
late true true false h = absurd (ground arith)

pub apart : {b : Bool} → b ≡ true → b ≡ false → ⊥
apart h h' = let e : true ≡ false = sym h ∙ h' in absurd (ground arith)

abbrev pub behind : ℤ → ℕ → Bool
behind n t = ltb_ℤ n (pos t)

pub behind_mono : (m n : ℤ) (t : ℕ) → m ≤ℤ n → behind n t ≡ true → behind m t ≡ true
behind_mono m n t le h = ground arith

behind_later : (n : ℤ) (t u : ℕ) → t ≤ u → behind n t ≡ true → behind n u ≡ true
behind_later n t u le h = ground arith

later_rows :
    (n : ℤ) (t : ℕ) (rows : List LogRow)
    → behind n t ≡ true
    → All (λ r. t ≤ r.timestamp) rows
    → All (λ r. behind n r.timestamp ≡ true) rows
later_rows n t [] h later = tt
later_rows n t (r ∷ rs) h later =
    (behind_later n t r.timestamp later.0 h, later_rows n t rs h later.1)

module _ (address topic0 : Bytes) where
  take_row :
      (row : LogRow) (rows : List LogRow) (from to : ℤ)
      → is_about address topic0 row ≡ true
      → behind from row.timestamp ≡ true
      → behind to row.timestamp ≡ false
      → fetch_logs (row ∷ rows) address topic0 from to
        ≡ row ∷ fetch_logs rows address topic0 from to
  unfolding fetch_logs
  take_row row rows from to a f u = rw (holds (is_about address topic0 row) _ _ a f u) refl

  skip_row :
      (row : LogRow) (rows : List LogRow) (from to : ℤ)
      → (is_about address topic0 row && in_range from to row.timestamp) ≡ false
      → fetch_logs (row ∷ rows) address topic0 from to ≡ fetch_logs rows address topic0 from to
  unfolding fetch_logs
  skip_row row rows from to h = rw h refl

  -- A row is in the range or not.
  pub fetch_logs-cases :
      (row : LogRow) (rows : List LogRow) (from to : ℤ)
      → ((is_about address topic0 row ≡ true)
          × (behind from row.timestamp ≡ true)
          × (behind to row.timestamp ≡ false)
          × (fetch_logs (row ∷ rows) address topic0 from to
              ≡ row ∷ fetch_logs rows address topic0 from to))
        ⊎ ((is_about address topic0 row ≡ true
              → behind from row.timestamp ≡ true
              → behind to row.timestamp ≡ true)
            × (fetch_logs (row ∷ rows) address topic0 from to
                ≡ fetch_logs rows address topic0 from to))
  fetch_logs-cases row rows from to = elim (Bool-cases (is_about address topic0 row)) [
    | inr other ↦
        inr (λ a f. absurd (apart a other), skip_row row rows from to (unwanted _ _ _ other))
    | inl about ↦ elim (Bool-cases (behind from row.timestamp)) [
      | inr f ↦ inr (
        λ a f'. absurd (apart f' f),
        skip_row row rows from to (early (is_about address topic0 row) _ _ f),
      )
      | inl f ↦ elim (Bool-cases (behind to row.timestamp)) [
        | inr until ↦ inl (about, f, until, take_row row rows from to about f until)
        | inl after ↦ inr (
          λ a f'. after,
          skip_row row rows from to (late (is_about address topic0 row) _ _ after),
        )
      ]
    ]
  ]

  -- No row is in a range that ends before all of them.
  fetch_logs-late :
      (rows : List LogRow) (from to : ℤ)
      → All (λ r. behind to r.timestamp ≡ true) rows
      → fetch_logs rows address topic0 from to ≡ []
  fetch_logs-late [] from to h = unfold fetch_logs in refl
  fetch_logs-late (row ∷ rows) from to h =
      skip_row row rows from to (late (is_about address topic0 row) _ _ h.0)
      ∙ fetch_logs-late rows from to h.1

  -- Two starts with no wanted row between them.
  abbrev pub SameStart : ℤ → ℤ → ℤ → LogRow → Type 0
  SameStart from from' to r =
      is_about address topic0 r ≡ true
      → behind to r.timestamp ≡ false
      → behind from r.timestamp ≡ behind from' r.timestamp

  same_row :
      (row : LogRow) (rows : List LogRow) (from from' to : ℤ)
      → SameStart from from' to row
      → fetch_logs rows address topic0 from to ≡ fetch_logs rows address topic0 from' to
      → fetch_logs (row ∷ rows) address topic0 from to
        ≡ fetch_logs (row ∷ rows) address topic0 from' to
  same_row row rows from from' to same rest = elim (Bool-cases (is_about address topic0 row)) [
    | inr other ↦
        skip_row row rows from to (unwanted _ _ _ other)
        ∙ rest
        ∙ sym (skip_row row rows from' to (unwanted _ _ _ other))
    | inl about ↦ elim (Bool-cases (behind to row.timestamp)) [
      | inl after ↦
          skip_row row rows from to (late (is_about address topic0 row) _ _ after)
          ∙ rest
          ∙ sym (skip_row row rows from' to (late (is_about address topic0 row) _ _ after))
      | inr until ↦ elim (Bool-cases (behind from row.timestamp)) [
        | inl f ↦
            take_row row rows from to about f until
            ∙ ap (λ l. row ∷ l) rest
            ∙ sym (take_row row rows from' to about (sym (same about until) ∙ f) until)
        | inr f ↦
            skip_row row rows from to (early (is_about address topic0 row) _ _ f)
            ∙ rest
            ∙ sym (
                skip_row row rows from' to
                  (early (is_about address topic0 row) _ _ (sym (same about until) ∙ f)))
      ]
    ]
  ]

  pub fetch_logs-same :
      (rows : List LogRow) (from from' to : ℤ)
      → All (SameStart from from' to) rows
      → fetch_logs rows address topic0 from to ≡ fetch_logs rows address topic0 from' to
  fetch_logs-same [] from from' to h = unfold fetch_logs in refl
  fetch_logs-same (row ∷ rows) from from' to h =
      same_row row rows from from' to h.0 (fetch_logs-same rows from from' to h.1)

  both_behind :
      (from middle to : ℤ) (rows : List LogRow)
      → from ≤ℤ middle
      → All (λ r. behind middle r.timestamp ≡ true) rows
      → All (SameStart from middle to) rows
  both_behind from middle to [] le h = tt
  both_behind from middle to (r ∷ rs) le h = (
    λ about until. behind_mono from middle r.timestamp le h.0 ∙ sym h.0,
    both_behind from middle to rs le h.1,
  )

  split_row :
      (row : LogRow) (rows : List LogRow) (from middle to : ℤ)
      → IsChronological (row ∷ rows)
      → from ≤ℤ middle
      → middle ≤ℤ to
      → fetch_logs rows address topic0 from to
        ≡ fetch_logs rows address topic0 from middle ++ fetch_logs rows address topic0 middle to
      → fetch_logs (row ∷ rows) address topic0 from to
        ≡ fetch_logs (row ∷ rows) address topic0 from middle
          ++ fetch_logs (row ∷ rows) address topic0 middle to
  split_row row rows from middle to chron le le' rest =
      elim (Bool-cases (behind middle row.timestamp)) [
        | inl after ↦
            (let all_after : All (λ r. behind middle r.timestamp ≡ true) (row ∷ rows) =
                (after, later_rows middle row.timestamp rows after chron.0) in
              fetch_logs-same (row ∷ rows) from middle to
                (both_behind from middle to (row ∷ rows) le all_after)
              ∙ ap (λ l. l ++ fetch_logs (row ∷ rows) address topic0 middle to)
                  (sym (fetch_logs-late (row ∷ rows) from middle all_after)))
        | inr until ↦
            (let not_to : behind to row.timestamp ≡ false =
                not_behind middle to row.timestamp le' until in
              let skip_second =
                skip_row row rows middle to (early (is_about address topic0 row) _ _ until) in
              elim (Bool-cases (is_about address topic0 row)) [
                | inr other ↦
                    skip_row row rows from to (unwanted _ _ _ other)
                    ∙ rest
                    ∙ sym (two (skip_row row rows from middle (unwanted _ _ _ other)) skip_second)
                | inl about ↦ elim (Bool-cases (behind from row.timestamp)) [
                  | inl f ↦
                      take_row row rows from to about f not_to
                      ∙ ap (λ l. row ∷ l) rest
                      ∙ sym (two (take_row row rows from middle about f until) skip_second)
                  | inr f ↦
                      skip_row row rows from to (early (is_about address topic0 row) _ _ f)
                      ∙ rest
                      ∙ sym (
                          two
                            (skip_row row rows from middle
                              (early (is_about address topic0 row) _ _ f))
                            skip_second)
                ]
              ])
      ]
    where
      two : {a b c d : List LogRow} → a ≡ b → c ≡ d → a ++ c ≡ b ++ d
      two e e' = rw (e, e') refl

      not_behind : (m n : ℤ) (t : ℕ) → m ≤ℤ n → behind m t ≡ false → behind n t ≡ false
      not_behind m n t le h = ground arith

  -- The rows of a range are those up to a time inside it, and then those behind it.
  pub fetch_logs-split :
      (rows : List LogRow) (from middle to : ℤ)
      → IsChronological rows
      → from ≤ℤ middle
      → middle ≤ℤ to
      → fetch_logs rows address topic0 from to
        ≡ fetch_logs rows address topic0 from middle ++ fetch_logs rows address topic0 middle to
  fetch_logs-split [] from middle to chron le le' = unfold fetch_logs in refl
  fetch_logs-split (row ∷ rows) from middle to chron le le' =
      split_row row rows from middle to chron le le'
        (fetch_logs-split rows from middle to chron.1 le le')
