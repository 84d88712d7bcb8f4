-- ===== src/Relay/Runs.antt =====
-- relay/relay.go, `Run`, as the steps of a relay that may die at any time and be started again, beside
-- the API that adds entries to the stream.
use call_it.Prelude.{ℕ, ◌<◌, ◌==◌, Str, All, some, Result, ok, err, ◌≡◌, if◌then◌else◌}
use call_it.Redis.Keys.{Text}
use call_it.Relay.{RelayError, Replies, Bridge, once, recover, ensure_group, claim_orphans}
use call_it.Relay.Streams.{StreamMessage, Group, Producer}
use call_it.Relay.Pending.{message_ids}

-- Where `Run` is: not running, in the loop that drains the backlog, or in the loop over `Once`.
pub data Phase : Type 0 where
  down : Phase
  draining running : Str → Phase

-- An error ends `Run`, and a round that finds nothing ends the first loop.
abbrev pub after_recover : Str → Result RelayError ℕ → Phase
after_recover consumer (err e) = down
after_recover consumer (ok n) = if n == 0 then running consumer else draining consumer

abbrev pub after_once : Str → Result RelayError ℕ → Phase
after_once consumer (err e) = down
after_once consumer (ok n) = running consumer

module _ (text : Text → Str) (group : Group) (producer : Producer) where
  pub data Run (first : Bridge text group producer)
      : Phase → Bridge text group producer → Type 0 where
    begun : Run first down (ensure_group text group producer first)
    -- A script of the API appends an entry, whose ID is above the others.
    added :
        {p : Phase} {b : Bridge text group producer} (m : StreamMessage)
        → 0 < m.id
        → All (λ j. j < m.id) (message_ids (group.view b.source).entries)
        → Run first p b
        → Run first p (record b { source = group.xadd m b.source })
    died : {p : Phase} {b : Bridge text group producer} → Run first p b → Run first down b
    -- A start that fails while it claims, after any number of rounds.
    stopped :
        {b : Bridge text group producer} (fuel : ℕ) (consumer : Str)
        → Run first down b
        → Run first down
            (claim_orphans text group producer fuel consumer 100
              (ensure_group text group producer b)).1
    started :
        {b : Bridge text group producer} (fuel n : ℕ) (consumer : Str)
        → (claim_orphans text group producer fuel consumer 100
            (ensure_group text group producer b)).0
          ≡ some n
        → Run first down b
        → Run first
            (draining consumer)
            (claim_orphans text group producer fuel consumer 100
              (ensure_group text group producer b)).1
    recovered :
        {b : Bridge text group producer} (consumer : Str) (replies : Replies)
        → Run first (draining consumer) b
        → Run first
            (after_recover consumer (recover text group producer consumer 100 replies b).0)
            (recover text group producer consumer 100 replies b).1
    relayed :
        {b : Bridge text group producer} (consumer : Str) (replies : Replies)
        → Run first (running consumer) b
        → Run first
            (after_once consumer (once text group producer consumer 100 replies b).0)
            (once text group producer consumer 100 replies b).1
