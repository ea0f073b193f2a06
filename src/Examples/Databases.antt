-- ===== src/Examples/Databases.antt =====
-- A table that holds a number, and two operations of a transaction, the second of which fails.
use flare_system_client.Prelude.{
  Bool, true, false, ℕ, ◌≡◌, ◌⊎◌, refl, [], ◌∷◌, Bytes, codes, ok, err, panicked,
}
use flare_system_client.Prelude.Calls.{Call}
use flare_system_client.Database.Atomic.{
  TxDb, TxLaws, AllDone, run_operations, do_in_transaction, do_in_transaction-atomic,
}

record Tables : Type 0 where
  table : ℕ
  in_transaction : ℕ
  open_transaction : Bool

abbrev small_db : TxDb Tables
small_db = record {
  begin = λ w. record w { in_transaction = w.table; open_transaction = true };
  rollback = λ w. record w { open_transaction = false };
  commit = λ w. (ok tt, record w { table = w.in_transaction; open_transaction = false });
}

small_db-laws : TxLaws small_db (λ w. w.table) (λ w. w.in_transaction) (λ w. w.open_transaction)
small_db-laws = record {
  begin-stored = λ w. refl;
  rollback-stored = λ w. refl;
  rollback-ends = λ w. refl;
  commit-ends = λ w h. refl;
  commit-stored = λ w. refl;
}

abbrev write_five : Call Tables Bytes (Unit {0})
write_five w = (ok tt, record w { in_transaction = 5 })

abbrev fail : Call Tables Bytes (Unit {0})
fail w = (err (codes "no connection"), w)

abbrev empty : Tables
empty = record { table = 0; in_transaction = 0; open_transaction = false }

do_in_transaction-atomic_example :
    ((do_in_transaction small_db (write_five ∷ fail ∷ []) empty).1.open_transaction ≡ false)
    × (((v : Tables) × ((do_in_transaction small_db (write_five ∷ fail ∷ []) empty).0 ≡ ok tt)
          × AllDone (write_five ∷ fail ∷ []) (small_db.begin empty) v
          × ((do_in_transaction small_db (write_five ∷ fail ∷ []) empty).1.table
              ≡ v.in_transaction))
        ⊎ (((do_in_transaction small_db (write_five ∷ fail ∷ []) empty).1.table ≡ empty.table)
            × (((e : Bytes) × ((do_in_transaction small_db (write_five ∷ fail ∷ []) empty).0
                    ≡ err e))
                ⊎ (((do_in_transaction small_db (write_five ∷ fail ∷ []) empty).0 ≡ ok tt)
                    × ((run_operations small_db (write_five ∷ fail ∷ []) (small_db.begin empty)).0
                        ≡ panicked)))))
do_in_transaction-atomic_example =
    do_in_transaction-atomic small_db (λ w. w.table) (λ w. w.in_transaction)
      (λ w. w.open_transaction) small_db-laws (write_five ∷ fail ∷ []) (λ w. refl, (λ w. refl, tt))
      empty
