-- ===== src/Finalizer/Listener/Complete.antt =====
-- client/finalizer/submission_utils.go: the listener passes over no transaction.
use flare_system_client.Prelude.{
  ℕ, ◌≤◌, ◌≡◌, refl, sym, subst, inl, inr, true, false, Bool-cases, List, [], ◌∷◌, ◌++◌, All, Bytes,
  some, Go, ℤ, arith, All-map, All-append, All-at, get_elem?,
}
use flare_system_client.Crypto.{Crypto}
use flare_system_client.Database.{Transaction, is_call, fetch_transactions}
use flare_system_client.Finalizer.Payload.{SubmitterPayloadItem}
use flare_system_client.Finalizer.Listener.{
  payload_of, listener_txs, listener_step, transactions_tick, ListenerStep, indexed, ticked,
  fetch_failed, Listens, begins, listens_on,
}
use flare_system_client.Finalizer.Listener.Outcome.{
  is_after, InOrder, HandlingLaws, Moved, DoneTo, listener_txs-still, listener_txs-AllDone,
  listener_txs-Moved,
}
use flare_system_client.Finalizer.Listener.Fetched.{
  InOrder-append_left, Reaches-later, Reaches-append, not_yet, in_time, fetch-InOrder, fetch-after,
  fetch-Reaches, fetched-All, Wanted,
}

module _ (to_address function_sig : Bytes) where
  module _ {S E : Type 0} (c : Crypto)
      (process : S → List SubmitterPayloadItem → S × Go E (Unit {0}))
      (Handled : S → List SubmitterPayloadItem → Type 0) (laws : HandlingLaws c process Handled)
      (start : ℤ) where
    abbrev Done : S → ℤ → Transaction → Type 0
    Done s n tx =
        Wanted to_address function_sig tx
        → is_after start tx ≡ true
        → DoneTo c process Handled laws s n tx

    -- The wanted transactions from the start on and up to the start of the next range are handled, and that
    -- is the start, or lies before a transaction of the table.
    abbrev IsComplete : List Transaction × S × ℤ → Type 0
    IsComplete (table, s, n) = All (Done s n) table × Moved c process Handled laws start n table

    new_rows :
        (s : S) (n : ℤ) (table more : List Transaction)
        → InOrder (table ++ more)
        → Moved c process Handled laws start n table
        → All (Done s n) more
    new_rows s n table more order (inl same) = from_start more
      where
        from_start : (txs : List Transaction) → All (Done s n) txs
        from_start [] = tt
        from_start (tx ∷ txs) = (
          λ w f u. absurd (ground (arith, f, subst (λ m. is_after m tx ≡ false) same u)),
          from_start txs,
        )
    new_rows s n table more order (inr (t, same, reaches)) =
        later more (Reaches-later t table more order reaches)
      where
        later :
            (txs : List Transaction)
            → All (λ (tx : Transaction). t ≤ tx.timestamp) txs
            → All (Done s n) txs
        later [] h = tt
        later (tx ∷ txs) h = (
          λ w f u. absurd (not_yet t tx.timestamp h.0 (subst (λ m. is_after m tx ≡ false) same u)),
          later txs h.1,
        )

    kept_by_growth :
        (n : ℤ) (table more : List Transaction)
        → Moved c process Handled laws start n table
        → Moved c process Handled laws start n (table ++ more)
    kept_by_growth n table more (inl same) = inl same
    kept_by_growth n table more (inr (t, same, h)) = inr (t, same, Reaches-append t table more h)

    start_of_table :
        (table : List Transaction) (n n' now : ℤ)
        → Moved c process Handled laws n n' (fetch_transactions table to_address function_sig n now)
        → Moved c process Handled laws start n table
        → Moved c process Handled laws start n' table
    start_of_table table n n' now (inl same) h =
        subst (λ m. Moved c process Handled laws start m table) (sym same) h
    start_of_table table n n' now (inr (t, same, reaches)) h =
        inr (t, same, (fetch-Reaches to_address function_sig t table n now reaches).0)

    up_to_now :
        (table : List Transaction) (n n' now : ℤ) (tx : Transaction)
        → Moved c process Handled laws n n' (fetch_transactions table to_address function_sig n now)
        → is_after n tx ≡ true
        → is_after n' tx ≡ false
        → is_after now tx ≡ false
    up_to_now table n n' now tx (inl same) f u =
        absurd (ground (arith, f, subst (λ m. is_after m tx ≡ false) same u))
    up_to_now table n n' now tx (inr (t, same, reaches)) f u =
        in_time t tx.timestamp now (fetch-Reaches to_address function_sig t table n now reaches).1
          (subst (λ m. is_after m tx ≡ false) same u)

    tick-IsComplete :
        (table : List Transaction) (s : S) (n now : ℤ)
        → InOrder table
        → IsComplete (table, s, n)
        → IsComplete (
          table,
          (listener_txs c process s (fetch_transactions table to_address function_sig n now) n).0,
          (listener_txs c process s (fetch_transactions table to_address function_sig n now) n).1,
        )
    tick-IsComplete table s n now order (done, moved) =
        let fetched = fetch_transactions table to_address function_sig n now in
        let next = listener_txs c process s fetched n in
        let moves = listener_txs-Moved c process Handled laws s fetched n in
        (
          All-map (Done s n) _ (Done next.0 next.1) table done
              (fetched-All to_address function_sig (DoneTo c process Handled laws next.0 next.1)
                table n now
                (listener_txs-AllDone c process Handled laws s fetched n
                  (fetch-InOrder to_address function_sig table n now order)
                  (fetch-after to_address function_sig table n now)))
              (λ tx before here w f u. elim (Bool-cases (is_after n tx)) [
                | inr old ↦
                    listener_txs-still c process Handled laws s fetched n (payload_of c tx.input)
                      (before w f old)
                | inl new ↦ here w new (up_to_now table n next.1 now tx moves new u) u
              ]),
          start_of_table table n next.1 now moves moved,
        )

    step-IsComplete :
        (a b : List Transaction × S × ℤ)
        → ListenerStep c process to_address function_sig a b
        → InOrder b.0
        → IsComplete a
        → IsComplete b
    unfolding transactions_tick listener_step
    step-IsComplete _ _ (indexed table more s n) order (done, moved) = (
      All-append (Done s n) table more done (new_rows s n table more order moved),
      kept_by_growth n table more moved,
    )
    step-IsComplete _ _ (ticked table s n now) order h = tick-IsComplete table s n now order h
    step-IsComplete _ _ (fetch_failed table s n) order h = h

    order_before :
        (a b : List Transaction × S × ℤ)
        → ListenerStep c process to_address function_sig a b
        → InOrder b.0
        → InOrder a.0
    order_before _ _ (indexed table more s n) order = InOrder-append_left table more order
    order_before _ _ (ticked table s n now) order = order
    order_before _ _ (fetch_failed table s n) order = order

    at_start : (table : List Transaction) (s : S) → All (Done s start) table
    at_start [] s = tt
    at_start (tx ∷ txs) s = (λ w f u. absurd (ground (arith, f, u)), at_start txs s)

    Listens-IsComplete :
        (table : List Transaction) (s : S) (r : List Transaction × S × ℤ)
        → Listens c process to_address function_sig (table, s, start) r
        → InOrder r.0
        → IsComplete r
    Listens-IsComplete table s _ begins order = (at_start table s, inl refl)
    Listens-IsComplete table s _ (listens_on a b before step) order =
        step-IsComplete a b step order
          (Listens-IsComplete table s a before (order_before a b step order))

    -- If items count as handled once the processor returns no error for them, from then on, and no items are
    -- handled at once: while the listener runs, if the indexer only adds transactions that are not earlier
    -- than those it has, then every `submitSignatures` transaction of the table behind the first start and
    -- not behind the start of the next range has its items handled, whatever fails in between.
    pub listener-complete :
        (table table' : List Transaction) (s s' : S) (range_start : ℤ) (i : ℕ) (tx : Transaction)
        → InOrder table'
        → Listens c process to_address function_sig (table, s, start) (table', s', range_start)
        → get_elem? table' i ≡ some tx
        → is_call to_address function_sig tx ≡ true
        → is_after start tx ≡ true
        → is_after range_start tx ≡ false
        → Handled s' (payload_of c tx.input)
    listener-complete table table' s s' range_start i tx order run there wanted behind until =
        All-at (Done s' range_start) table' i tx
          (Listens-IsComplete table s (table', s', range_start) run order).0 there wanted behind
          until
