-- ===== src/Ledger/Repo.antt =====
-- ledger/repo.go: the tables of the ledger, the batch that a worker writes, and the balances read
-- from them. The tables' constraints are those of the migrations.
pub mod Replay
pub mod Invariant
use call_it.Prelude.{
  ℕ, ◌+◌, ℤ, pos, leb_ℤ, eqb_ℤ, ◌+ℤ◌, ◌-ℤ◌, Str, bytes, str_eq, List, [], ◌∷◌, ◌++◌, Bool, true,
  false, ◌&&◌, ◌||◌, ◌≡◌, Result, ok, err, if◌then◌else◌, length,
}
use call_it.Ledger.{
  AccountKind, user_wallet, room_escrow, round_pool, system_mint, system_dust, Direction, debit,
  credit, AccountRef, LedgerEntry, Transaction,
}

-- A row of `transactions`, found by its idempotency key, which is unique.
pub record TransactionRow : Type 0 where
  pub key : Str
  pub kind : Str
  pub room_id : Str
  pub round_id : Str

-- A row of `ledger_entries`: the transaction by its key, and the account that `account_id` names.
pub record EntryRow : Type 0 where
  pub key : Str
  pub account : AccountRef
  pub direction : Direction
  pub amount : ℤ

pub record LedgerDb : Type 0 where
  pub transactions : List TransactionRow
  pub accounts : List AccountRef
  pub entries : List EntryRow

-- A constraint that Postgres enforces failed: the amount's, or the one on the balance, which is
-- deferred to the commit.
pub data DbError : Type 0 where
  not_positive not_balanced : DbError

unfoldable pub has_key : Str → List TransactionRow → Bool
has_key key [] = false
has_key key (t ∷ ts) = str_eq t.key key || has_key key ts

unfoldable pub kind_eq : AccountKind → AccountKind → Bool
kind_eq user_wallet user_wallet = true
kind_eq room_escrow room_escrow = true
kind_eq round_pool round_pool = true
kind_eq system_mint system_mint = true
kind_eq system_dust system_dust = true
kind_eq _ _ = false

unfoldable pub account_eq : AccountRef → AccountRef → Bool
unfolding kind_eq
account_eq a b = kind_eq a.kind b.kind && str_eq a.user_id b.user_id && str_eq a.room_id b.room_id

unfoldable pub has_account : AccountRef → List AccountRef → Bool
unfolding account_eq
has_account a [] = false
has_account a (b ∷ bs) = account_eq b a || has_account a bs

-- The first loop: INSERT ... ON CONFLICT (id) DO NOTHING.
unfoldable pub insert_accounts : List LedgerEntry → List AccountRef → List AccountRef
unfolding has_account
insert_accounts [] accounts = accounts
insert_accounts (e ∷ es) accounts =
    insert_accounts es
      (if has_account e.account accounts then accounts else accounts ++ (e.account ∷ []))

-- The second loop.
unfoldable pub insert_entries :
    Str → List LedgerEntry → List EntryRow → Result DbError (List EntryRow)
insert_entries key [] rows = ok rows
insert_entries key (e ∷ es) rows =
    let rest = insert_entries key es (
      rows
      ++ (record { key = key; account = e.account; direction = e.direction; amount = e.amount }
          ∷ [])) in
    if leb_ℤ e.amount (pos 0) then err not_positive else rest

unfoldable pub insert_transaction : Transaction → LedgerDb → Result DbError LedgerDb
unfolding insert_accounts insert_entries
insert_transaction t db = elim (insert_entries t.idempotency_key t.entries db.entries) [
  | err e ↦ err e
  | ok rows ↦ ok (record {
    transactions =
        record {
          key = t.idempotency_key;
          kind = t.kind;
          room_id = t.room_id;
          round_id = t.round_id;
        }
        ∷ db.transactions;
    accounts = insert_accounts t.entries db.accounts;
    entries = rows;
  })
]

-- The loop of `WriteBatch`, with the keys of the transactions that it inserts.
unfoldable pub write_all : List Transaction → LedgerDb → Result DbError (List Str × LedgerDb)
unfolding has_key insert_transaction
write_all [] db = ok ([], db)
write_all (t ∷ ts) db =
    if has_key t.idempotency_key db.transactions
    then write_all ts db
    else elim (insert_transaction t db) [
      | err e ↦ err e
      | ok db' ↦ elim (write_all ts db') [
        | err e ↦ err e
        | ok (keys, last) ↦ ok (t.idempotency_key ∷ keys, last)
      ]
    ]

unfoldable pub signed_row : EntryRow → ℤ
signed_row r = elim r.direction [ debit ↦ r.amount | credit ↦ pos 0 -ℤ r.amount ]

-- The net of a transaction's entries in `assert_transaction_balanced`.
unfoldable pub net_of : Str → List EntryRow → ℤ
unfolding signed_row
net_of key [] = pos 0
net_of key (r ∷ rs) = if str_eq r.key key then signed_row r +ℤ net_of key rs else net_of key rs

unfoldable pub all_balanced : List Str → List EntryRow → Bool
unfolding net_of
all_balanced [] rows = true
all_balanced (k ∷ ks) rows = eqb_ℤ (net_of k rows) (pos 0) && all_balanced ks rows

-- `WriteBatch`: the number of transactions written; an error, the deferred constraint's included,
-- rolls everything back.
unfoldable pub write_batch : List Transaction → LedgerDb → Result DbError ℕ × LedgerDb
unfolding write_all all_balanced
write_batch ts db = elim (write_all ts db) [
  | err e ↦ (err e, db)
  | ok (keys, db') ↦
      if all_balanced keys db'.entries then (ok (length keys), db') else (err not_balanced, db)
]

unfoldable pub room_of : Str → List TransactionRow → Str
room_of key [] = []
room_of key (t ∷ ts) = if str_eq t.key key then t.room_id else room_of key ts

-- `SUM(CASE WHEN direction = 'credit' THEN amount ELSE -amount END)` over the rows that are kept.
unfoldable pub sum_rows : (EntryRow → Bool) → List EntryRow → ℤ
unfolding signed_row
sum_rows keep [] = pos 0
sum_rows keep (r ∷ rs) =
    if keep r then (pos 0 -ℤ signed_row r) +ℤ sum_rows keep rs else sum_rows keep rs

-- One user's sum in `WalletBalancesForRoom`.
unfoldable pub wallet_balance : Str → Str → LedgerDb → ℤ
unfolding sum_rows room_of kind_eq
wallet_balance room user db =
    sum_rows
      (λ r.
        kind_eq r.account.kind user_wallet
        && str_eq r.account.user_id user
        && str_eq (room_of r.key db.transactions) room)
      db.entries

unfoldable pub pool_balance : Str → LedgerDb → ℤ
unfolding sum_rows kind_eq
pool_balance room db =
    sum_rows (λ r. kind_eq r.account.kind round_pool && str_eq r.account.room_id room) db.entries

-- `DustForRoom`: it adds the amounts whatever their direction.
unfoldable pub dust_for_room : Str → LedgerDb → List EntryRow → ℤ
unfolding room_of kind_eq
dust_for_room room db [] = pos 0
dust_for_room room db (r ∷ rs) =
    if kind_eq r.account.kind system_dust && str_eq (room_of r.key db.transactions) room
    then r.amount +ℤ dust_for_room room db rs
    else dust_for_room room db rs

unfoldable pub transaction_count : Str → List TransactionRow → ℕ
transaction_count room [] = 0
transaction_count room (t ∷ ts) =
    if str_eq t.room_id room then 1 + transaction_count room ts else transaction_count room ts
