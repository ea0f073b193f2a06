-- ===== src/Epoch/Listeners/Appended.antt =====
-- client/epoch: the loop of a listener over the logs of two ranges.
use flare_system_client.Database.{LogRow, ChainLog}
use flare_system_client.Epoch.Listeners.{EpochEvent, parse_event, all_logs}
use flare_system_client.Prelude.{
  ℕ, ◌≡◌, refl, sym, ap, ◌∙◌, Bool, true, false, inl, inr, List, [], ◌∷◌, ◌++◌, Bytes, Option, none,
  some, Option-cases, if◌then◌else◌, ℤ, pos,
}

if-append :
    (b : Bool) (ev : EpochEvent) (l l' : List EpochEvent)
    → (if b then ev ∷ (l ++ l') else (l ++ l')) ≡ (if b then ev ∷ l else l) ++ l'
if-append true ev l l' = refl
if-append false ev l l' = refl

module _ (hex_to_hash : Bytes → ℕ) (parse : ChainLog → Option EpochEvent)
    (passes : EpochEvent → Bool) where
  pub log_parsed :
      (x : LogRow) (xs : List LogRow) (s : ℤ) (ev : EpochEvent)
      → parse_event hex_to_hash parse x ≡ some ev
      → all_logs hex_to_hash parse passes (x ∷ xs) s ≡ (
          let rest = all_logs hex_to_hash parse passes xs (pos ev.event_time) in
          ((if passes ev then ev ∷ rest.0 else rest.0), rest.1))
  unfolding all_logs
  log_parsed x xs s ev e = rw (e, all_logs) refl

  pub log_failed :
      (x : LogRow) (xs : List LogRow) (s : ℤ)
      → parse_event hex_to_hash parse x ≡ none
      → all_logs hex_to_hash parse passes (x ∷ xs) s ≡ all_logs hex_to_hash parse passes xs s
  unfolding all_logs
  log_failed x xs s e = rw (e, all_logs) refl

  -- The logs of two lists, one after the other.
  abbrev pub both : List LogRow → List LogRow → ℤ → List EpochEvent × ℤ
  both xs ys s =
      let first = all_logs hex_to_hash parse passes xs s in
      let second = all_logs hex_to_hash parse passes ys first.1 in (first.0 ++ second.0, second.1)

  pub all_logs-append :
      (xs ys : List LogRow) (s : ℤ) → all_logs hex_to_hash parse passes (xs ++ ys) s ≡ both xs ys s
  all_logs-append [] ys s = unfold all_logs in refl
  all_logs-append (x ∷ xs) ys s = elim (Option-cases (parse_event hex_to_hash parse x)) [
    | inl e ↦
        log_failed x (xs ++ ys) s e
        ∙ all_logs-append xs ys s
        ∙ ap
            (λ (f : List EpochEvent × ℤ).
              (let second = all_logs hex_to_hash parse passes ys f.1 in
                (f.0 ++ second.0, second.1)))
            (sym (log_failed x xs s e))
    | inr (ev, e) ↦
        log_parsed x (xs ++ ys) s ev e
        ∙ ap (λ (r : List EpochEvent × ℤ). ((if passes ev then ev ∷ r.0 else r.0), r.1))
            (all_logs-append xs ys (pos ev.event_time))
        ∙ ap (λ l. (l, (both xs ys (pos ev.event_time)).1)) (if-append (passes ev) ev _ _)
        ∙ ap
            (λ (f : List EpochEvent × ℤ).
              (let second = all_logs hex_to_hash parse passes ys f.1 in
                (f.0 ++ second.0, second.1)))
            (sym (log_parsed x xs s ev e))
  ]
