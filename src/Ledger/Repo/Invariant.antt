-- ===== src/Ledger/Repo/Invariant.antt =====
-- The tables of the ledger balance after every batch.
use call_it.Prelude.{
  pos, eqb_ℤ_iff, Str, str_eq, str_eq_iff, List, [], ◌∷◌, ◌++◌, Bool, true, false, ◌||◌, ◌≡◌, refl,
  arith, ok, err, Bool-cases, inl, inr, Result-cases,
}
use call_it.Ledger.{LedgerEntry, Transaction}
use call_it.Ledger.Repo.{
  LedgerDb, EntryRow, DbError, insert_entries, insert_transaction, write_all, write_batch,
  all_balanced, net_of,
}
use call_it.Ledger.Repo.Replay.{write_all-∷}

-- Every transaction nets to nothing.
abbrev pub IsBalanced : List EntryRow → Type 0
IsBalanced rows = (k : Str) → net_of k rows ≡ pos 0

net_of-++ :
    (k : Str) (r : EntryRow) (rows : List EntryRow)
    → str_eq r.key k ≡ false
    → net_of k (rows ++ (r ∷ [])) ≡ net_of k rows
unfolding net_of
net_of-++ k r [] h = rw h refl
net_of-++ k r (s ∷ rows) h = rw (net_of-++ k r rows h) refl

insert_entries-net_of :
    (key k : Str) (es : List LedgerEntry) (rows rows' : List EntryRow)
    → str_eq key k ≡ false
    → insert_entries key es rows ≡ ok rows'
    → net_of k rows' ≡ net_of k rows
unfolding insert_entries
insert_entries-net_of key k [] rows rows' h e = ground arith
insert_entries-net_of key k (x ∷ es) rows rows' h e =
    let row : EntryRow = record {
      key = key;
      account = x.account;
      direction = x.direction;
      amount = x.amount;
    } in
    ground
      (arith, net_of-++ k row rows h, insert_entries-net_of key k es (rows ++ (row ∷ [])) rows' h)

insert_transaction-net_of :
    (t : Transaction) (k : Str) (db db' : LedgerDb)
    → str_eq t.idempotency_key k ≡ false
    → insert_transaction t db ≡ ok db'
    → net_of k db'.entries ≡ net_of k db.entries
unfolding insert_transaction
insert_transaction-net_of t k db db' h e =
    elim (Result-cases (insert_entries t.idempotency_key t.entries db.entries)) [
      | inr (f, failed) ↦ absurd (ground arith)
      | inl (rows, inserted) ↦ ground (
        arith,
        inserted,
        insert_entries-net_of t.idempotency_key k t.entries db.entries rows h inserted,
      )
    ]

abbrev has : Str → List Str → Bool
has k [] = false
has k (x ∷ xs) = str_eq x k || has k xs

-- A transaction whose key is not among the inserted ones keeps its net.
write_all-net_of :
    (ts : List Transaction) (db last : LedgerDb) (keys : List Str) (k : Str)
    → write_all ts db ≡ ok (keys, last)
    → has k keys ≡ false
    → net_of k last.entries ≡ net_of k db.entries
unfolding write_all
write_all-net_of [] db last keys k h n = ground arith
write_all-net_of (t ∷ ts) db last keys k h n = elim (write_all-∷ t ts db last keys h) [
  | inl (known, rest) ↦ write_all-net_of ts db last keys k rest n
  | inr (new, (next, ks, inserted, rest, e)) ↦ ground (
    arith,
    write_all-net_of ts next last ks k rest,
    insert_transaction-net_of t k db next,
    inserted,
    e,
  )
]

all_balanced-has :
    (keys : List Str) (k : Str) (rows : List EntryRow)
    → all_balanced keys rows ≡ true
    → has k keys ≡ true
    → net_of k rows ≡ pos 0
unfolding all_balanced
all_balanced-has [] k rows h e = absurd (ground arith)
all_balanced-has (x ∷ keys) k rows h e =
    ground (arith, str_eq_iff x k, eqb_ℤ_iff (net_of x rows) (pos 0), all_balanced-has keys k rows)

-- If every transaction in the tables nets to nothing, then so it does after any batch, whether the
-- batch is written or refused.
pub write_batch-IsBalanced :
    (ts : List Transaction) (db : LedgerDb)
    → IsBalanced db.entries
    → IsBalanced (write_batch ts db).1.entries
unfolding write_batch
write_batch-IsBalanced ts db h k = elim (Result-cases (write_all ts db)) [
  | inr (e, failed) ↦ ground (arith, h k)
  | inl ((keys, last), written) ↦ elim (Bool-cases (all_balanced keys last.entries)) [
    | inr wrong ↦ ground (arith, h k)
    | inl right ↦ ground (
      arith,
      h k,
      Bool-cases (has k keys),
      all_balanced-has keys k last.entries right,
      write_all-net_of ts db last keys k written,
    )
  ]
]

-- A batch that is refused leaves the tables as they were.
pub write_batch-refused :
    (ts : List Transaction) (db : LedgerDb) (e : DbError)
    → (write_batch ts db).0 ≡ err e
    → (write_batch ts db).1 ≡ db
unfolding write_batch
write_batch-refused ts db e h = elim (Result-cases (write_all ts db)) [
  | inr (f, failed) ↦ ground arith
  | inl ((keys, last), written) ↦ elim (Bool-cases (all_balanced keys last.entries)) [
    | inr wrong ↦ ground arith
    | inl right ↦ absurd (ground arith)
  ]
]
