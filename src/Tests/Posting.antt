-- ===== src/Tests/Posting.antt =====
-- The ledger's tables and the event of a wager at concrete inputs.
use call_it.Prelude.{arith, pos, ◌+ℤ◌, ◌-ℤ◌, Str, bytes, str_eq, List, [], ◌∷◌, ◌≡◌, refl, ok, err}
use call_it.Redis.Keys.{Text, str}
use call_it.Redis.Reference.{reference}
use call_it.Store.PlaceWager.{WagerRequest, wager_entry}
use call_it.Events.{wager_placed, decode}
use call_it.Events.Outbox.{decode-wager_entry}
use call_it.Ledger.{Transaction, transaction_for_wager}
use call_it.Ledger.Repo.{
  LedgerDb, not_positive, write_batch, write_all, insert_transaction, insert_entries, all_balanced,
  net_of, signed_row, has_key,
}
use call_it.Ledger.Repo.Replay.{write_batch-replay}
use call_it.Ledger.Repo.Invariant.{IsBalanced, write_batch-IsBalanced}

abbrev empty_ledger : LedgerDb
empty_ledger = record { transactions = []; accounts = []; entries = [] }

abbrev one_wager : List Transaction
one_wager =
    transaction_for_wager (record {
      room_id = bytes "r";
      round_id = bytes "q";
      user_id = bytes "ann";
      idempotency_key = bytes "k1";
      outcome = pos 1;
      amount = pos 40;
      balance = pos 60;
    })
    ∷ []

one_written : (write_batch one_wager empty_ledger).0 ≡ ok 1
unfolding write_batch write_all insert_transaction insert_entries all_balanced net_of signed_row
    has_key transaction_for_wager str_eq ◌+ℤ◌ ◌-ℤ◌
one_written = refl

write_batch-replay_example :
    write_batch one_wager (write_batch one_wager empty_ledger).1
    ≡ (ok 0, (write_batch one_wager empty_ledger).1)
write_batch-replay_example = write_batch-replay one_wager empty_ledger 1 one_written

empty-IsBalanced : IsBalanced empty_ledger.entries
unfolding net_of
empty-IsBalanced k = refl

write_batch-IsBalanced_example : IsBalanced (write_batch one_wager empty_ledger).1.entries
write_batch-IsBalanced_example = write_batch-IsBalanced one_wager empty_ledger empty-IsBalanced

abbrev bad_wager : List Transaction
bad_wager =
    transaction_for_wager (record {
      room_id = bytes "r";
      round_id = bytes "q";
      user_id = bytes "ann";
      idempotency_key = bytes "k2";
      outcome = pos 1;
      amount = pos 0;
      balance = pos 60;
    })
    ∷ []

bad_refused : (write_batch bad_wager empty_ledger).0 ≡ err not_positive
unfolding write_batch write_all insert_transaction insert_entries has_key transaction_for_wager
bad_refused = refl

abbrev plain : Text → Str
plain (str s) = s
plain _ = []

abbrev placed : WagerRequest
placed = record {
  room_id = bytes "r";
  round_id = bytes "q";
  user_id = bytes "ann";
  outcome = pos 1;
  amount = pos 40;
  idempotency_key = bytes "k1";
}

decode-wager_entry_example :
    decode plain (wager_entry reference placed (pos 60))
    ≡ ok (
        wager_placed (record {
          room_id = bytes "r";
          round_id = bytes "q";
          user_id = bytes "ann";
          idempotency_key = bytes "k1";
          outcome = pos 1;
          amount = pos 40;
          balance = pos 60;
        }))
decode-wager_entry_example =
    decode-wager_entry reference plain placed (pos 60) (λ s. refl) (omega arith) (omega arith) refl
