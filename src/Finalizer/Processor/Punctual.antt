-- ===== src/Finalizer/Processor/Punctual.antt =====
-- client/finalizer/finalizer_queue.go: the items that wait for the end of their grace period.
use flare_system_client.Prelude.{
  ◌≡◌, refl, sym, subst, Bool, true, false, List, [], ◌∷◌, ◌++◌, Option, none, some, Bool-cases,
  inl, inr, All, ℤ, if◌then◌else◌, ltb_ℤ,
}
use flare_system_client.Utils.Int64.{eq_ℤ, eq_ℤ→eq}
use flare_system_client.Utils.DelayedQueue.{DelayedQueueManager, waiting, put, add, get, fire}

module _ {T : Type 0} (due : T → ℤ) where
  -- All items wait for their own time.
  abbrev pub AllPunctual : DelayedQueueManager T → Type 0
  AllPunctual q = (t : ℤ) → All (λ x. due x ≡ t) (waiting q t)

  All-last : (P : T → Type 0) (xs : List T) (x : T) → All P xs → P x → All P (xs ++ (x ∷ []))
  All-last P [] x h k = (k, tt)
  All-last P (y ∷ xs) x h k = (h.0, All-last P xs x h.1 k)

  abbrev items_of : Option (List T) → List T
  items_of xs = elim xs [ none ↦ [] | some items ↦ items ]

  All-if :
      (P : T → Type 0) (b : Bool) (x y : Option (List T))
      → (b ≡ true → All P (items_of x))
      → (b ≡ false → All P (items_of y))
      → All P (items_of (if b then x else y))
  All-if P true x y h k = h refl
  All-if P false x y h k = k refl

  put-AllPunctual :
      (q : DelayedQueueManager T) (item : T) → AllPunctual q → AllPunctual (put q (due item) item)
  unfolding put
  put-AllPunctual q item h t =
      All-if (λ x. due x ≡ t) (eq_ℤ t (due item)) (some (waiting q (due item) ++ (item ∷ [])))
        (q.time_map t)
        (λ same.
          subst (λ u. All (λ x. due x ≡ u) (waiting q (due item) ++ (item ∷ [])))
            (sym (eq_ℤ→eq t (due item) same))
            (All-last (λ x. due x ≡ due item) (waiting q (due item)) item (h (due item)) refl))
        (λ other. h t)

  pub add-AllPunctual :
      (q : DelayedQueueManager T) (now : ℤ) (item : T)
      → AllPunctual q
      → AllPunctual (add q now (due item) item)
  unfolding add
  add-AllPunctual q now item h = elim (Bool-cases (ltb_ℤ (due item) now)) [
    | inl late ↦ rw (late, add) h
    | inr early ↦ rw (early, add) (put-AllPunctual q item h)
  ]

  pub fire-AllPunctual :
      (q : DelayedQueueManager T) (t : ℤ) → AllPunctual q → AllPunctual (fire q t).1
  unfolding fire get
  fire-AllPunctual q t h u =
      All-if (λ x. due x ≡ u) (eq_ℤ u t) none (q.time_map u) (λ same. tt) (λ other. h u)
