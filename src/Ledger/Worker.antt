-- ===== src/Ledger/Worker.antt =====
-- ledger/worker.go: one batch of messages from the topics to the ledger. The consumer is a parameter:
-- what it has not committed yet, in the order in which it hands the messages out.
pub mod Delivery
use call_it.Prelude.{
  ℕ, suc, ◌+◌, ltb, take, drop, Str, List, [], ◌∷◌, length, Bool, true, false, Option, Result, ok,
  err, map_err, if◌then◌else◌,
}
use call_it.Events.{WagerPlaced, RoundSettled, EventError}
use call_it.Events.Message.{decode_message}
use call_it.Ledger.{Transaction, MappingError, transaction_for}
use call_it.Ledger.Repo.{LedgerDb, DbError, write_batch}

abbrev pub max_batch : ℕ
max_batch = 100

pub record KafkaMessage : Type 0 where
  pub topic : Str
  pub value : Str

pub data WorkerError : Type 0 where
  decoding : EventError → WorkerError
  mapping : MappingError → WorkerError
  writing : DbError → WorkerError
  commit_failed : WorkerError

-- The messages that are not committed, and the ledger.
pub record Pipeline : Type 0 where
  pub pending : List KafkaMessage
  pub db : LedgerDb

module _ (json_wager : Str → Option WagerPlaced) (json_settled : Str → Option RoundSettled) where
  -- The loop that decodes and maps the messages.
  unfoldable pub map_messages : List KafkaMessage → Result WorkerError (List Transaction)
  map_messages [] = ok []
  map_messages (msg ∷ msgs) =
      let rest = map_messages msgs in
      elim (decode_message json_wager json_settled msg.topic msg.value) [
        | err e ↦ err (decoding e)
        | ok ev ↦ elim (transaction_for ev) [
          | err e ↦ err (mapping e)
          | ok txn ↦ elim rest [ ok txns ↦ ok (txn ∷ txns) | err e ↦ err e ]
        ]
      ]

  -- From the write on: `rest` is what stays once the offsets are committed.
  unfoldable pub write_messages :
      Result WorkerError (List Transaction)
      → ℕ
      → List KafkaMessage
      → Bool
      → Pipeline
      → Result WorkerError ℕ × Pipeline
  write_messages (err e) count rest commits p = (err e, p)
  write_messages (ok txns) count rest commits p =
      let (r, db') = write_batch txns p.db in
      elim r [
        | err e ↦ (err (writing e), record p { db = db' })
        | ok n ↦
            if commits
            then (ok count, record p { pending = rest; db = db' })
            else (err commit_failed, record p { db = db' })
      ]

  -- The batch that was fetched. With no message the fetch ends when the caller is cancelled.
  unfoldable pub process :
      List KafkaMessage → List KafkaMessage → Bool → Pipeline → Result WorkerError ℕ × Pipeline
  unfolding write_messages map_messages
  process [] rest commits p = (ok 0, p)
  process (msg ∷ msgs) rest commits p =
      write_messages (map_messages (msg ∷ msgs)) (length (msg ∷ msgs)) rest commits p

  unfoldable pub batch_size : ℕ → ℕ
  batch_size arrived = if ltb (suc arrived) max_batch then suc arrived else max_batch

  -- `Once`, where `arrived` messages beyond the first arrive within the window, and `commits` says
  -- whether the commit of the offsets succeeds.
  unfoldable pub once : ℕ → Bool → Pipeline → Result WorkerError ℕ × Pipeline
  unfolding process batch_size
  once arrived commits p =
      process (take (batch_size arrived) p.pending) (drop (batch_size arrived) p.pending) commits p
