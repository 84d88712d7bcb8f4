-- ===== src/Tests/Delivering.antt =====
-- The ledger's worker at a concrete input.
use call_it.Prelude.{
  ◌+ℤ◌, ◌-ℤ◌, pos, Str, bytes, str_eq, [], ◌∷◌, length, take, Option, some, none, true, false, ◌≡◌,
  refl, ok, err,
}
use call_it.Events.{WagerPlaced, RoundSettled, topic_wagers_placed}
use call_it.Events.Message.{decode_message}
use call_it.Ledger.{transaction_for}
use call_it.Ledger.Repo.{
  write_batch, write_all, insert_transaction, insert_entries, all_balanced, net_of, signed_row,
  has_key,
}
use call_it.Ledger.Worker.{Pipeline, once, batch_size, commit_failed}
use call_it.Ledger.Worker.Delivery.{once-again}

-- A decoder that reads any text as one wager, and one that reads no settlement.
abbrev one_wager : Str → Option WagerPlaced
one_wager value = some (record {
  room_id = bytes "r";
  round_id = bytes "q";
  user_id = bytes "ann";
  idempotency_key = bytes "k1";
  outcome = pos 1;
  amount = pos 40;
  balance = pos 60;
})

abbrev no_settlement : Str → Option RoundSettled
no_settlement value = none

abbrev one_pending : Pipeline
one_pending = record {
  pending = record { topic = topic_wagers_placed; value = bytes "{}" } ∷ [];
  db = record { transactions = []; accounts = []; entries = [] };
}

lost_commit : (once one_wager no_settlement 3 false one_pending).0 ≡ err commit_failed
unfolding once decode_message transaction_for write_batch write_all insert_transaction
    insert_entries all_balanced net_of signed_row has_key str_eq ◌+ℤ◌ ◌-ℤ◌
lost_commit = refl

once-again_example :
    once one_wager no_settlement 3 true (once one_wager no_settlement 3 false one_pending).1 ≡ (
      ok (length (take (batch_size one_wager no_settlement 3) one_pending.pending)),
      (once one_wager no_settlement 3 true one_pending).1,
    )
once-again_example = once-again one_wager no_settlement 3 one_pending lost_commit
