-- ===== src/Database/Atomic.antt =====
-- database/utils.go: operations in a transaction of the database.
use flare_system_client.Prelude.{
  Bool, false, ◌≢◌, arith, ◌≡◌, refl, ◌∙◌, ◌⊎◌, inl, inr, List, [], ◌∷◌, Bytes, Go, ok, err,
  panicked,
}
use flare_system_client.Prelude.Calls.{Call, continue, handled, on_err, ◌>>◌, ◌>>=◌}

-- A gorm connection: `Begin`, and `Rollback` and `Commit` of the transaction that it opens.
pub record TxDb (W : Type 0) : Type 0 where
  pub begin : W → W
  pub rollback : W → W
  pub commit : Call W Bytes (Unit {0})

module _ {W : Type 0} (db : TxDb W) where
  -- The loop of `DoInTransaction`, and the commit behind it.
  unfoldable pub run_operations : List (Call W Bytes (Unit {0})) → Call W Bytes (Unit {0})
  run_operations [] = db.commit
  run_operations (f ∷ fs) = on_err f (λ e w. (err e, db.rollback w)) >> run_operations fs

  -- The deferred function: what is recovered from is rolled back, and the result is nil.
  abbrev pub recovered : Go Bytes (Unit {0}) × W → Go Bytes (Unit {0}) × W
  recovered (ok a, w) = (ok a, w)
  recovered (err e, w) = (err e, w)
  recovered (panicked, w) = (ok tt, db.rollback w)

  unfoldable pub do_in_transaction : List (Call W Bytes (Unit {0})) → Call W Bytes (Unit {0})
  do_in_transaction operations w = recovered (run_operations operations (db.begin w))

-- What a commit does to the tables, by its result.
abbrev pub CommitStores : {W D : Type 0} → (W → D) → (W → D) → W → Go Bytes (Unit {0}) × W → Type 0
CommitStores stored pending w (ok a, u) = stored u ≡ pending w
CommitStores stored pending w (err e, u) = stored u ≡ stored w
CommitStores stored pending w (panicked, u) = stored u ≡ stored w

-- A transaction of a database with tables `stored`, whose changes are `pending` until the commit.
-- A commit that returns an error has stored nothing; it ends the transaction, as a rollback does.
pub record TxLaws {W D : Type 0} (db : TxDb W) (stored pending : W → D) (is_open : W → Bool)
    : Type 0 where
  pub begin-stored : (w : W) → stored (db.begin w) ≡ stored w
  pub rollback-stored : (w : W) → stored (db.rollback w) ≡ stored w
  pub rollback-ends : (w : W) → is_open (db.rollback w) ≡ false
  pub commit-ends : (w : W) → (db.commit w).0 ≢ panicked → is_open (db.commit w).1 ≡ false
  pub commit-stored : (w : W) → CommitStores stored pending w (db.commit w)

-- Each operation returned nil, one after the other.
abbrev pub AllDone : {W : Type 0} → List (Call W Bytes (Unit {0})) → W → W → Type 0
AllDone [] w u = w ≡ u
AllDone {W} (f ∷ fs) w u = (v : W) × (f w ≡ (ok tt, v)) × AllDone fs v u

-- The operations write through the transaction only.
abbrev pub AllWithin : {W D : Type 0} → (W → D) → List (Call W Bytes (Unit {0})) → Type 0
AllWithin stored [] = Unit {0}
AllWithin {W} stored (f ∷ fs) = ((w : W) → stored (f w).1 ≡ stored w) × AllWithin stored fs

module _ {W D : Type 0} (db : TxDb W) (stored pending : W → D) (is_open : W → Bool)
    (laws : TxLaws db stored pending is_open) where
  abbrev Ran : List (Call W Bytes (Unit {0})) → W → Go Bytes (Unit {0}) × W → Type 0
  Ran fs w (ok a, u) = (is_open u ≡ false) × (v : W) × AllDone fs w v × (stored u ≡ pending v)
  Ran fs w (err e, u) = (is_open u ≡ false) × (stored u ≡ stored w)
  Ran fs w (panicked, u) = stored u ≡ stored w

  committed-Ran :
      (w : W) (left : Go Bytes (Unit {0}) × W)
      → CommitStores stored pending w left
      → (left.0 ≢ panicked → is_open left.1 ≡ false)
      → Ran [] w left
  committed-Ran w (ok a, u) h end = (end (λ p. absurd (ground arith)), w, refl, h)
  committed-Ran w (err e, u) h end = (end (λ p. absurd (ground arith)), h)
  committed-Ran w (panicked, u) h end = h

  more-Ran :
      (f : Call W Bytes (Unit {0})) (fs : List (Call W Bytes (Unit {0}))) (w v : W)
      (left : Go Bytes (Unit {0}) × W)
      → f w ≡ (ok tt, v)
      → stored v ≡ stored w
      → Ran fs v left
      → Ran (f ∷ fs) w left
  more-Ran f fs w v (ok a, u) e same h = (h.0, h.1, (v, e, h.2), h.3)
  more-Ran f fs w v (err x, u) e same h = (h.0, h.1 ∙ same)
  more-Ran f fs w v (panicked, u) e same h = h ∙ same

  first-Ran :
      (f : Call W Bytes (Unit {0})) (fs : List (Call W Bytes (Unit {0}))) (w : W)
      (left : Go Bytes (Unit {0}) × W)
      → f w ≡ left
      → stored left.1 ≡ stored w
      → ((v : W) → Ran fs v (run_operations db fs v))
      → Ran
          (f ∷ fs)
          w
          (continue (handled left (λ e u. (err e, db.rollback u))) (λ x. run_operations db fs))
  first-Ran f fs w (ok a, v) e same rest =
      more-Ran f fs w v (run_operations db fs v) e same (rest v)
  first-Ran f fs w (err x, v) e same rest = (laws.rollback-ends v, laws.rollback-stored v ∙ same)
  first-Ran f fs w (panicked, v) e same rest = same

  run_operations-Ran :
      (fs : List (Call W Bytes (Unit {0})))
      → AllWithin stored fs
      → (w : W) → Ran fs w (run_operations db fs w)
  unfolding run_operations ◌>>=◌ on_err
  run_operations-Ran [] within w =
      committed-Ran w (db.commit w) (laws.commit-stored w) (laws.commit-ends w)
  run_operations-Ran (f ∷ fs) within w =
      first-Ran f fs w (f w) refl (within.0 w) (run_operations-Ran fs within.1)

  recovered-cases :
      (fs : List (Call W Bytes (Unit {0}))) (w before : W) (left : Go Bytes (Unit {0}) × W)
      → stored w ≡ stored before
      → Ran fs w left
      → (is_open (recovered db left).1 ≡ false)
        × (((v : W) × ((recovered db left).0 ≡ ok tt)
              × AllDone fs w v
              × (stored (recovered db left).1 ≡ pending v))
            ⊎ ((stored (recovered db left).1 ≡ stored before)
                × (((e : Bytes) × ((recovered db left).0 ≡ err e))
                    ⊎ (((recovered db left).0 ≡ ok tt) × (left.0 ≡ panicked)))))
  recovered-cases fs w before (ok a, u) same h = (h.0, inl (h.1, refl, h.2, h.3))
  recovered-cases fs w before (err e, u) same h = (h.0, inr (h.1 ∙ same, inl (e, refl)))
  recovered-cases fs w before (panicked, u) same h =
      (laws.rollback-ends u, inr (laws.rollback-stored u ∙ h ∙ same, inr (refl, refl)))

  -- For operations that write through the transaction only, on a database where a commit with an error
  -- stores nothing: no transaction is left open, on any path. Either each operation returned nil, the result
  -- is nil and the tables hold what was pending after the last of them; or the tables are as they were, and
  -- the result is an error, or it is nil although an operation or the commit panicked.
  pub do_in_transaction-atomic :
      (operations : List (Call W Bytes (Unit {0})))
      → AllWithin stored operations
      → (w : W)
      → (is_open (do_in_transaction db operations w).1 ≡ false)
        × (((v : W) × ((do_in_transaction db operations w).0 ≡ ok tt)
              × AllDone operations (db.begin w) v
              × (stored (do_in_transaction db operations w).1 ≡ pending v))
            ⊎ ((stored (do_in_transaction db operations w).1 ≡ stored w)
                × (((e : Bytes) × ((do_in_transaction db operations w).0 ≡ err e))
                    ⊎ (((do_in_transaction db operations w).0 ≡ ok tt)
                        × ((run_operations db operations (db.begin w)).0 ≡ panicked)))))
  unfolding do_in_transaction
  do_in_transaction-atomic operations within w =
      recovered-cases operations (db.begin w) w (run_operations db operations (db.begin w))
        (laws.begin-stored w) (run_operations-Ran operations within (db.begin w))
