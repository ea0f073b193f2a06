-- ===== src/Epoch/Listeners/Next.antt =====
-- client/epoch: the start of a listener's next range.
use flare_system_client.Database.{LogRow, ChainLog, is_about, fetch_logs}
use flare_system_client.Database.Ranges.{IsChronological, behind, apart, fetch_logs-cases}
use flare_system_client.Epoch.Listeners.{EpochEvent, parse_event, all_logs}
use flare_system_client.Prelude.{
  ℕ, ◌≤◌, ◌≡◌, refl, sym, ap, subst, ◌∙◌, arith, Bool, true, false, inl, inr, List, [], ◌∷◌, Bytes,
  All, Option, some, ℤ, pos, ◌≤ℤ◌,
}
use flare_system_client.Epoch.Listeners.Appended.{log_parsed}

module _ (hex_to_hash : Bytes → ℕ) (parse : ChainLog → Option EpochEvent)
    (passes : EpochEvent → Bool) where
  module _ (address topic0 : Bytes) where
    -- The log of a wanted row parses, and its event has the time of the row.
    abbrev pub Parses : LogRow → Type 0
    Parses r =
        is_about address topic0 r ≡ true
        → (e : EpochEvent) × (parse_event hex_to_hash parse r ≡ some e)
          × (e.event_time ≡ r.timestamp)

    -- The start of the next range, from `acc` on.
    unfoldable pub next_start : List LogRow → ℤ → ℤ → ℤ → ℤ
    next_start rows from to acc =
        (all_logs hex_to_hash parse passes (fetch_logs rows address topic0 from to) acc).1

    next_taken :
        (row : LogRow) (rows : List LogRow) (from to acc : ℤ) (e : EpochEvent)
        → parse_event hex_to_hash parse row ≡ some e
        → e.event_time ≡ row.timestamp
        → fetch_logs (row ∷ rows) address topic0 from to
          ≡ row ∷ fetch_logs rows address topic0 from to
        → next_start (row ∷ rows) from to acc ≡ next_start rows from to (pos row.timestamp)
    unfolding next_start
    next_taken row rows from to acc e q t taken =
        ap (λ l. (all_logs hex_to_hash parse passes l acc).1) taken
        ∙ ap (λ r. r.1)
            (log_parsed hex_to_hash parse passes row (fetch_logs rows address topic0 from to) acc e
              q)
        ∙ ap
            (λ n.
              (all_logs hex_to_hash parse passes (fetch_logs rows address topic0 from to)
                (pos n)).1)
            t

    next_skipped :
        (row : LogRow) (rows : List LogRow) (from to acc : ℤ)
        → fetch_logs (row ∷ rows) address topic0 from to ≡ fetch_logs rows address topic0 from to
        → next_start (row ∷ rows) from to acc ≡ next_start rows from to acc
    unfolding next_start
    next_skipped row rows from to acc skipped =
        ap (λ l. (all_logs hex_to_hash parse passes l acc).1) skipped

    next_empty : (from to acc : ℤ) → next_start [] from to acc ≡ acc
    unfolding next_start all_logs fetch_logs
    next_empty from to acc = refl

    pub next_until :
        (rows : List LogRow) (from to acc : ℤ)
        → All Parses rows
        → acc ≤ℤ to
        → next_start rows from to acc ≤ℤ to
    next_until [] from to acc ps le = rw (next_empty from to acc) le
    next_until (row ∷ rows) from to acc ps le =
        elim (fetch_logs-cases address topic0 row rows from to) [
          | inl (about, f, until, taken) ↦
              (let (e, q, t) = ps.0 about in
                rw (next_taken row rows from to acc e q t taken)
                  (next_until rows from to (pos row.timestamp) ps.1 (ground arith)))
          | inr (out, skipped) ↦
              rw (next_skipped row rows from to acc skipped) (next_until rows from to acc ps.1 le)
        ]

    -- The rows behind `from` are not before `acc`.
    abbrev pub NotBefore : ℤ → ℤ → LogRow → Type 0
    NotBefore from acc r = behind from r.timestamp ≡ true → acc ≤ℤ pos r.timestamp

    later_NotBefore :
        (from : ℤ) (t : ℕ) (rows : List LogRow)
        → All (λ r. t ≤ r.timestamp) rows
        → All (NotBefore from (pos t)) rows
    later_NotBefore from t [] h = tt
    later_NotBefore from t (r ∷ rs) h = (λ b. omega (arith, h.0), later_NotBefore from t rs h.1)

    pub next_from :
        (rows : List LogRow) (from to acc : ℤ)
        → IsChronological rows
        → All Parses rows
        → All (NotBefore from acc) rows
        → acc ≤ℤ next_start rows from to acc
    next_from [] from to acc chron ps nb = rw (next_empty from to acc) (omega arith)
    next_from (row ∷ rows) from to acc chron ps nb =
        elim (fetch_logs-cases address topic0 row rows from to) [
          | inl (about, f, until, taken) ↦
              (let (e, q, t) = ps.0 about in
                let low =
                  next_from rows from to (pos row.timestamp) chron.1 ps.1
                    (later_NotBefore from row.timestamp rows chron.0) in
                let step = nb.0 f in
                rw (next_taken row rows from to acc e q t taken) (omega (arith, low, step)))
          | inr (out, skipped) ↦
              rw (next_skipped row rows from to acc skipped)
                (next_from rows from to acc chron.1 ps.1 nb.1)
        ]

    -- The row is not behind the start of the next range, if it is in this range.
    abbrev pub Reached : ℤ → ℤ → ℤ → LogRow → Type 0
    Reached from to next r =
        is_about address topic0 r ≡ true
        → behind from r.timestamp ≡ true
        → behind to r.timestamp ≡ false
        → pos r.timestamp ≤ℤ next

    pub next_reaches :
        (rows : List LogRow) (from to acc : ℤ)
        → IsChronological rows
        → All Parses rows
        → All (NotBefore from acc) rows
        → All (Reached from to (next_start rows from to acc)) rows
    next_reaches [] from to acc chron ps nb = tt
    next_reaches (row ∷ rows) from to acc chron ps nb =
        elim (fetch_logs-cases address topic0 row rows from to) [
          | inl (about, f, until, taken) ↦
              (let (e, q, t) = ps.0 about in
                let nb' = later_NotBefore from row.timestamp rows chron.0 in
                subst (λ n. All (Reached from to n) (row ∷ rows))
                  (sym (next_taken row rows from to acc e q t taken))
                  (
                    λ a g u. next_from rows from to (pos row.timestamp) chron.1 ps.1 nb',
                    next_reaches rows from to (pos row.timestamp) chron.1 ps.1 nb',
                  ))
          | inr (out, skipped) ↦
              subst (λ n. All (Reached from to n) (row ∷ rows))
                (sym (next_skipped row rows from to acc skipped))
                (
                  λ a g u. absurd (apart (out a g) u),
                  next_reaches rows from to acc chron.1 ps.1 nb.1,
                )
        ]

    pub from_NotBefore : (from : ℤ) (rows : List LogRow) → All (NotBefore from from) rows
    from_NotBefore from [] = tt
    from_NotBefore from (r ∷ rs) = (λ b. ground arith, from_NotBefore from rs)
