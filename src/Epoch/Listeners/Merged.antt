-- ===== src/Epoch/Listeners/Merged.antt =====
-- client/epoch: a listener over several ticks.
use flare_system_client.Database.{LogRow, ChainLog, is_about, fetch_logs}
use flare_system_client.Database.Ranges.{
  IsChronological, behind, behind_mono, SameStart, fetch_logs-same, fetch_logs-split,
}
use flare_system_client.Epoch.Listeners.{EpochEvent, all_logs, all_logs_tick, listen, listen_all}
use flare_system_client.Prelude.{
  ℕ, ◌≡◌, sym, ap, ◌∙◌, arith, Bool, true, Bool-cases, inl, inr, List, [], ◌∷◌, ◌++◌, Bytes, All,
  Option, ℤ, ◌≤ℤ◌, append-nil,
}
use flare_system_client.Epoch.Listeners.Appended.{both, all_logs-append}
use flare_system_client.Epoch.Listeners.Next.{
  Parses, Reached, next_start, next_until, next_from, next_reaches, from_NotBefore,
}

abbrev pub IsIncreasing : ℤ → List ℤ → Type 0
IsIncreasing from [] = Unit
IsIncreasing from (now ∷ nows) = (from ≤ℤ now) × IsIncreasing now nows

abbrev pub last_time : ℤ → List ℤ → ℤ
last_time n [] = n
last_time n (m ∷ ms) = last_time m ms

last_late : (n : ℤ) (ms : List ℤ) → IsIncreasing n ms → n ≤ℤ last_time n ms
last_late n [] h = omega arith
last_late n (m ∷ ms) h = omega (arith, h.0, last_late m ms h.1)

module _ (hex_to_hash : Bytes → ℕ) (parse : ChainLog → Option EpochEvent)
    (passes : EpochEvent → Bool) where
  module _ (address topic0 : Bytes) where
    same_behind :
        (from middle next : ℤ) (r : LogRow)
        → from ≤ℤ next
        → next ≤ℤ middle
        → is_about address topic0 r ≡ true
        → Reached hex_to_hash parse passes address topic0 from middle next r
        → behind middle r.timestamp ≡ behind next r.timestamp
    same_behind from middle next r le le' about reached =
        elim (Bool-cases (behind middle r.timestamp)) [
          | inl after ↦ after ∙ sym (behind_mono next middle r.timestamp le' after)
          | inr until ↦ elim (Bool-cases (behind next r.timestamp)) [
            | inr e ↦ until ∙ sym e
            | inl e ↦
                (let low = reached about (behind_mono from next r.timestamp le e) until in
                  absurd (ground arith))
          ]
        ]

    same_next :
        (from middle to next : ℤ) (rows : List LogRow)
        → from ≤ℤ next
        → next ≤ℤ middle
        → All (Reached hex_to_hash parse passes address topic0 from middle next) rows
        → All (SameStart address topic0 middle next to) rows
    same_next from middle to next [] le le' h = tt
    same_next from middle to next (r ∷ rs) le le' h = (
      λ about until. same_behind from middle next r le le' about h.0,
      same_next from middle to next rs le le' h.1,
    )

    -- Two ticks come to what one tick at the time of the second would.
    two_ticks :
        (rows : List LogRow) (from middle to : ℤ)
        → IsChronological rows
        → All (Parses hex_to_hash parse passes address topic0) rows
        → from ≤ℤ middle
        → middle ≤ℤ to
        → listen hex_to_hash parse passes address topic0 rows to from ≡ (
            let first = listen hex_to_hash parse passes address topic0 rows middle from in
            let second = listen hex_to_hash parse passes address topic0 rows to first.1 in
            (first.0 ++ second.0, second.1))
    unfolding listen next_start all_logs_tick all_logs
    two_ticks rows from middle to chron ps le le' =
        let nb = from_NotBefore hex_to_hash parse passes address topic0 from rows in
        let next = next_start hex_to_hash parse passes address topic0 rows from middle from in
        let low : from ≤ℤ next =
          next_from hex_to_hash parse passes address topic0 rows from middle from chron ps nb in
        let high : next ≤ℤ middle =
          next_until hex_to_hash parse passes address topic0 rows from middle from ps le in
        let same = fetch_logs-same address topic0 rows middle next to (
          same_next from middle to next rows low high (
            next_reaches hex_to_hash parse passes address topic0 rows from middle from chron ps
              nb)) in
        ap (λ l. all_logs hex_to_hash parse passes l from)
          (fetch_logs-split address topic0 rows from middle to chron le le')
        ∙ all_logs-append hex_to_hash parse passes (fetch_logs rows address topic0 from middle)
            (fetch_logs rows address topic0 middle to) from
        ∙ ap
            (λ l. both hex_to_hash parse passes (fetch_logs rows address topic0 from middle) l from)
            same

    first_until :
        (rows : List LogRow) (from now : ℤ)
        → All (Parses hex_to_hash parse passes address topic0) rows
        → from ≤ℤ now
        → (listen hex_to_hash parse passes address topic0 rows now from).1 ≤ℤ now
    unfolding listen next_start all_logs_tick all_logs
    first_until rows from now ps le =
        next_until hex_to_hash parse passes address topic0 rows from now from ps le

    one_tick :
        (rows : List LogRow) (from now : ℤ)
        → listen_all hex_to_hash parse passes address topic0 rows (now ∷ []) from
          ≡ listen hex_to_hash parse passes address topic0 rows now from
    unfolding listen_all
    one_tick rows from now =
        ap (λ l. (l, (listen hex_to_hash parse passes address topic0 rows now from).1))
          (append-nil (listen hex_to_hash parse passes address topic0 rows now from).0)

    tick_first :
        (rows : List LogRow) (from now : ℤ) (nows : List ℤ) {rest : List EpochEvent × ℤ}
        → listen_all hex_to_hash parse passes address topic0 rows nows
            (listen hex_to_hash parse passes address topic0 rows now from).1
          ≡ rest
        → listen_all hex_to_hash parse passes address topic0 rows (now ∷ nows) from
          ≡ ((listen hex_to_hash parse passes address topic0 rows now from).0 ++ rest.0, rest.1)
    unfolding listen_all
    tick_first rows from now nows e =
        ap
          (λ (r : List EpochEvent × ℤ).
            ((listen hex_to_hash parse passes address topic0 rows now from).0 ++ r.0, r.1))
          e

    -- If each wanted log parses to an event with the time of its row, and the table has at each tick the
    -- logs up to the time of the tick, in the order of their times: the ticks at increasing times send in
    -- all what one tick at the last of these times would send, in the same order, so no log is passed over
    -- and none is sent twice.
    pub listen_all-listen :
        (rows : List LogRow) (now : ℤ) (nows : List ℤ) (from : ℤ)
        → IsChronological rows
        → All (Parses hex_to_hash parse passes address topic0) rows
        → IsIncreasing from (now ∷ nows)
        → listen_all hex_to_hash parse passes address topic0 rows (now ∷ nows) from
          ≡ listen hex_to_hash parse passes address topic0 rows (last_time now nows) from
    listen_all-listen rows now [] from chron ps inc = one_tick rows from now
    listen_all-listen rows now (m ∷ ms) from chron ps inc =
        tick_first rows from now (m ∷ ms) (
          listen_all-listen rows m ms _ chron ps
            (omega (arith, first_until rows from now ps inc.0, inc.1.0), inc.1.1))
        ∙ sym (
            two_ticks rows from now (last_time m ms) chron ps inc.0
              (omega (arith, inc.1.0, last_late m ms inc.1.1)))
