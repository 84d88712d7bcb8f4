-- ===== src/Ledger.antt =====
-- ledger/account.go and ledger/mapping.go: the accounts and the double-entry transaction that an
-- event stands for.
pub mod Balance
pub mod Repo
pub mod Settled
pub mod Worker
use call_it.Prelude.{
  ℤ, pos, ltb_ℤ, eqb_ℤ, add64, Str, bytes, List, [], ◌∷◌, ◌++◌, Bool, true, false, ◌≡◌, not, Result,
  Done, ok, err, ◌>>=◌, ◌>>◌, if◌then◌else◌, fail_if,
}
use call_it.Events.{EventPayout, WagerPlaced, RoundSettled, Event, wager_placed, round_settled}

pub data AccountKind : Type 0 where
  user_wallet room_escrow round_pool system_mint system_dust : AccountKind

pub data Direction : Type 0 where
  debit credit : Direction

-- `user_id` and `room_id` are empty where the kind is not scoped by them.
pub record AccountRef : Type 0 where
  pub kind : AccountKind
  pub user_id : Str
  pub room_id : Str

unfoldable pub kind_text : AccountKind → Str
kind_text user_wallet = bytes "user_wallet"
kind_text room_escrow = bytes "room_escrow"
kind_text round_pool = bytes "round_pool"
kind_text system_mint = bytes "system_mint"
kind_text system_dust = bytes "system_dust"

-- `AccountRef.ID`, where `new_sha1` is the UUID of a name in the namespace of the accounts.
module _ {ℓ} {Uuid : Type ℓ} (new_sha1 : Str → Uuid) where
  unfoldable pub account_id : AccountRef → Uuid
  unfolding kind_text
  account_id a = new_sha1 (kind_text a.kind ++ bytes ":" ++ a.user_id ++ bytes ":" ++ a.room_id)

pub record LedgerEntry : Type 0 where
  pub account : AccountRef
  pub direction : Direction
  pub amount : ℤ

pub record Transaction : Type 0 where
  pub idempotency_key : Str
  pub kind : Str
  pub room_id : Str
  pub round_id : Str
  pub entries : List LedgerEntry

-- `ErrUnbalanced`
pub data MappingError : Type 0 where
  unbalanced : MappingError

abbrev pub wallet_account : Str → AccountRef
wallet_account user = record { kind = user_wallet; user_id = user; room_id = [] }

abbrev pub pool_account : Str → AccountRef
pool_account room = record { kind = round_pool; user_id = []; room_id = room }

abbrev pub dust_account : AccountRef
dust_account = record { kind = system_dust; user_id = []; room_id = [] }

unfoldable pub transaction_for_wager : WagerPlaced → Transaction
transaction_for_wager e = record {
  idempotency_key = e.idempotency_key;
  kind = bytes "wager";
  room_id = e.room_id;
  round_id = e.round_id;
  entries =
      record { account = wallet_account e.user_id; direction = debit; amount = e.amount }
      ∷ record { account = pool_account e.room_id; direction = credit; amount = e.amount }
      ∷ [];
}

-- `sum += p.Amount`
unfoldable pub add_payouts : List EventPayout → ℤ → ℤ
add_payouts [] sum = sum
add_payouts (p ∷ ps) sum = add_payouts ps (add64 sum p.amount)

unfoldable pub payout_entries : List EventPayout → List LedgerEntry
payout_entries [] = []
payout_entries (p ∷ ps) =
    record { account = wallet_account p.user_id; direction = credit; amount = p.amount }
    ∷ payout_entries ps

unfoldable pub settlement_entries : RoundSettled → List LedgerEntry
unfolding payout_entries
settlement_entries e =
    (if ltb_ℤ (pos 0) e.total
      then record { account = pool_account e.room_id; direction = debit; amount = e.total } ∷ []
      else [])
    ++ payout_entries e.payouts
    ++ (if ltb_ℤ (pos 0) e.dust
        then record { account = dust_account; direction = credit; amount = e.dust } ∷ []
        else [])

unfoldable pub transaction_for_settlement : RoundSettled → Result MappingError Transaction
unfolding add_payouts settlement_entries
transaction_for_settlement e =
    if not (eqb_ℤ (add_payouts e.payouts e.dust) e.total)
    then err unbalanced
    else ok (record {
      idempotency_key = e.idempotency_key;
      kind = if e.refunded then bytes "refund" else bytes "settlement";
      room_id = e.room_id;
      round_id = e.round_id;
      entries = settlement_entries e;
    })

-- `TransactionFor`
unfoldable pub transaction_for : Event → Result MappingError Transaction
unfolding transaction_for_wager transaction_for_settlement
transaction_for (wager_placed e) = ok (transaction_for_wager e)
transaction_for (round_settled e) = transaction_for_settlement e
