-- ===== src/Ledger/Worker/Delivery.antt =====
-- A lost commit is harmless: the messages come again and change nothing.
use call_it.Prelude.{
  ℕ, Str, List, [], ◌∷◌, length, true, false, Option, ◌≡◌, ◌≢◌, refl, arith, ok, err, Result, take,
  drop, Result-cases, inl, inr,
}
use call_it.Events.{WagerPlaced, RoundSettled}
use call_it.Ledger.{Transaction}
use call_it.Ledger.Repo.{write_batch}
use call_it.Ledger.Repo.Replay.{write_batch-replay}
use call_it.Ledger.Worker.{
  Pipeline, KafkaMessage, WorkerError, commit_failed, once, process, write_messages, batch_size,
  map_messages,
}

module _ (json_wager : Str → Option WagerPlaced) (json_settled : Str → Option RoundSettled) where
  map_messages-not_commit :
      (msgs : List KafkaMessage) (e : WorkerError)
      → map_messages json_wager json_settled msgs ≡ err e
      → e ≢ commit_failed
  unfolding map_messages
  map_messages-not_commit [] e h = ground arith
  map_messages-not_commit (msg ∷ msgs) e h = ground (arith, map_messages-not_commit msgs e)

  -- The tables after the batch, whatever becomes of the commit.
  write_messages-again :
      (r : Result WorkerError (List Transaction)) (count : ℕ) (rest : List KafkaMessage)
      (p : Pipeline)
      → ((e : WorkerError) → r ≡ err e → e ≢ commit_failed)
      → (write_messages json_wager json_settled r count rest false p).0 ≡ err commit_failed
      → ((write_messages json_wager json_settled r count rest false p).1.pending ≡ p.pending)
        × (write_messages json_wager json_settled r count rest true
              (write_messages json_wager json_settled r count rest false p).1
            ≡ (ok count, (write_messages json_wager json_settled r count rest true p).1))
  unfolding write_messages
  write_messages-again (err e) count rest p other h = absurd (other e refl (ground arith))
  write_messages-again (ok txns) count rest p other h =
      elim (Result-cases (write_batch txns p.db).0) [
        | inr (e, failed) ↦ absurd (ground arith)
        | inl (n, written) ↦
            let again = write_batch-replay txns p.db n written in
            (ground arith, ground (arith, again))
      ]

  process-again :
      (msgs rest : List KafkaMessage) (p : Pipeline)
      → (process json_wager json_settled msgs rest false p).0 ≡ err commit_failed
      → ((process json_wager json_settled msgs rest false p).1.pending ≡ p.pending)
        × (process json_wager json_settled msgs rest true
              (process json_wager json_settled msgs rest false p).1
            ≡ (ok (length msgs), (process json_wager json_settled msgs rest true p).1))
  unfolding process
  process-again [] rest p h = absurd (ground arith)
  process-again (msg ∷ msgs) rest p h =
      write_messages-again (map_messages json_wager json_settled (msg ∷ msgs)) (length (msg ∷ msgs))
        rest p (map_messages-not_commit (msg ∷ msgs)) h

  -- When the commit of a batch is lost after the batch was written, the messages are handed out again,
  -- and the next run on them comes to the same tables and the same rest of the messages as if the first
  -- run had never been, and counts them all.
  pub once-again :
      (arrived : ℕ) (p : Pipeline)
      → (once json_wager json_settled arrived false p).0 ≡ err commit_failed
      → once json_wager json_settled arrived true (once json_wager json_settled arrived false p).1
        ≡ (
          ok (length (take (batch_size json_wager json_settled arrived) p.pending)),
          (once json_wager json_settled arrived true p).1,
        )
  unfolding once
  once-again arrived p h =
      let size = batch_size json_wager json_settled arrived in
      let (same, again) = process-again (take size p.pending) (drop size p.pending) p h in
      rw same again
