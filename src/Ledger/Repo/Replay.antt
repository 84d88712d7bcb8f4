-- ===== src/Ledger/Repo/Replay.antt =====
-- A batch that is written again, after a worker stopped between the write and the commit of its
-- offsets, adds nothing.
use call_it.Prelude.{
  ℕ, Str, str_eq, str_eq_iff, List, [], ◌∷◌, true, false, ◌||◌, ◌≡◌, refl, arith, All, ok,
  Bool-cases, inl, inr, ◌⊎◌, Result-cases,
}
use call_it.Ledger.{Transaction}
use call_it.Ledger.Repo.{
  LedgerDb, has_key, insert_transaction, write_all, write_batch, all_balanced,
}

insert_transaction-keys :
    (t : Transaction) (db db' : LedgerDb) (k : Str)
    → insert_transaction t db ≡ ok db'
    → has_key k db'.transactions ≡ (str_eq t.idempotency_key k || has_key k db.transactions)
unfolding insert_transaction has_key
insert_transaction-keys t db db' k h = ground arith

-- How a batch that is written begins: with a known transaction, or with one that is inserted.
abbrev pub Begins : Transaction → List Transaction → LedgerDb → List Str × LedgerDb → Type 0
Begins t ts db (keys, last) =
    ((has_key t.idempotency_key db.transactions ≡ true) × (write_all ts db ≡ ok (keys, last)))
    ⊎ ((has_key t.idempotency_key db.transactions ≡ false)
        × ((next : LedgerDb) × (rest : List Str) × (insert_transaction t db ≡ ok next)
            × (write_all ts next ≡ ok (rest, last))
            × (keys ≡ t.idempotency_key ∷ rest)))

pub write_all-∷ :
    (t : Transaction) (ts : List Transaction) (db last : LedgerDb) (keys : List Str)
    → write_all (t ∷ ts) db ≡ ok (keys, last)
    → Begins t ts db (keys, last)
unfolding write_all
write_all-∷ t ts db last keys h = elim (Bool-cases (has_key t.idempotency_key db.transactions)) [
  | inl known ↦ inl (known, ground arith)
  | inr new ↦ elim (Result-cases (insert_transaction t db)) [
    | inr (e, failed) ↦ absurd (ground arith)
    | inl (next, inserted) ↦ elim (Result-cases (write_all ts next)) [
      | inr (e, failed) ↦ absurd (ground arith)
      | inl ((rest, end), written) ↦ inr (new, (next, rest, inserted, ground arith, ground arith))
    ]
  ]
]

-- A key stays once it is there.
write_all-keeps :
    (ts : List Transaction) (db db' : LedgerDb) (keys : List Str) (k : Str)
    → write_all ts db ≡ ok (keys, db')
    → has_key k db.transactions ≡ true
    → has_key k db'.transactions ≡ true
unfolding write_all
write_all-keeps [] db db' keys k h e = ground arith
write_all-keeps (t ∷ ts) db db' keys k h e = elim (write_all-∷ t ts db db' keys h) [
  | inl (known, rest) ↦ write_all-keeps ts db db' keys k rest e
  | inr (new, (next, ks, inserted, rest, _)) ↦
      write_all-keeps ts next db' ks k rest
        (ground (arith, insert_transaction-keys t db next k inserted))
]

-- Every key of the batch is there afterwards.
write_all-All :
    (ts : List Transaction) (db db' : LedgerDb) (keys : List Str)
    → write_all ts db ≡ ok (keys, db')
    → All (λ t. has_key t.idempotency_key db'.transactions ≡ true) ts
unfolding write_all
write_all-All [] db db' keys h = tt
write_all-All (t ∷ ts) db db' keys h = elim (write_all-∷ t ts db db' keys h) [
  | inl (known, rest) ↦ (
    write_all-keeps ts db db' keys t.idempotency_key rest known,
    write_all-All ts db db' keys rest,
  )
  | inr (new, (next, ks, inserted, rest, _)) ↦ (
    write_all-keeps ts next db' ks t.idempotency_key rest (
        ground (
          arith,
          insert_transaction-keys t db next t.idempotency_key inserted,
          str_eq_iff t.idempotency_key t.idempotency_key,
        )),
    write_all-All ts next db' ks rest,
  )
]

write_all-known :
    (ts : List Transaction) (db : LedgerDb)
    → All (λ t. has_key t.idempotency_key db.transactions ≡ true) ts
    → write_all ts db ≡ ok ([], db)
unfolding write_all
write_all-known [] db h = refl
write_all-known (t ∷ ts) db h = rw h.0 (write_all-known ts db h.1)

-- After a batch is written, writing it again writes no transaction and changes no table.
pub write_batch-replay :
    (ts : List Transaction) (db : LedgerDb) (n : ℕ)
    → (write_batch ts db).0 ≡ ok n
    → write_batch ts (write_batch ts db).1 ≡ (ok 0, (write_batch ts db).1)
unfolding write_batch all_balanced
write_batch-replay ts db n h = elim (Result-cases (write_all ts db)) [
  | inr (e, failed) ↦ absurd (ground arith)
  | inl ((keys, last), written) ↦
      let known = write_all-known ts last (write_all-All ts db last keys written) in
      ground (arith, known)
]
