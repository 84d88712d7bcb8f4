-- ===== src/Relay.antt =====
-- relay/relay.go: from the outbox stream to the topics. The server and the producer are the interfaces of
-- Relay/Streams.antt; an error of a command is a value that the caller of a step chooses.
pub mod Streams
pub mod Sent
pub mod Pending
pub mod Invariant
pub mod Cycle
pub mod Claims
pub mod Orphans
pub mod Runs
pub mod Order
pub mod CatchingUp
pub mod Complete
pub mod Reference
use call_it.Prelude.{
  ℕ, zero, suc, ◌+◌, ◌==◌, Str, List, [], ◌∷◌, length, Bool, true, false, Option, none, some,
  Result, Done, ok, err, if◌then◌else◌,
}
use call_it.Redis.Keys.{Text}
use call_it.Events.{Event, EventError, decode}
use call_it.Relay.Streams.{StreamMessage, Group, Producer}

pub data RelayError : Type 0 where
  reading : RelayError
  decoding : ℕ → EventError → RelayError
  producing : ℕ → RelayError
  acking : ℕ → RelayError
  claiming : RelayError

-- Which replies of the server arrive. A command is carried out whether its reply arrives or not, but
-- for the XACK of a relay that dies before it.
pub record Replies : Type 0 where
  pub read : Bool
  pub ack : Bool

module _ (text : Text → Str) where
  -- The loop over the messages: their events and their IDs.
  unfoldable pub decode_messages : List StreamMessage → Result RelayError (List Event × List ℕ)
  decode_messages [] = ok ([], [])
  decode_messages (msg ∷ msgs) =
      let rest = decode_messages msgs in
      elim (decode text msg.fields) [
        | err e ↦ err (decoding msg.id e)
        | ok ev ↦ elim rest [ err e ↦ err e | ok (evs, ids) ↦ ok (ev ∷ evs, msg.id ∷ ids) ]
      ]

  module _ (group : Group) (producer : Producer) where
    -- The server's group and the producer.
    pub record Bridge : Type 0 where
      pub source : group.T
      pub sink : producer.T

    unfoldable pub acknowledge : List Event → List ℕ → Bool → Bridge → Result RelayError ℕ × Bridge
    acknowledge evs ids acked b =
        if acked
        then (ok (length evs), record b { source = group.xack ids b.source })
        else (err (acking (length ids)), b)

    unfoldable pub produce_ack :
        Result RelayError (List Event × List ℕ) → Bool → Bridge → Result RelayError ℕ × Bridge
    unfolding acknowledge
    produce_ack (err e) acked b = (err e, b)
    produce_ack (ok (evs, ids)) acked b =
        let (done, sink') = producer.produce evs b.sink in
        let b' : Bridge = record b { sink = sink' } in
        if done then acknowledge evs ids acked b' else (err (producing (length evs)), b')

    -- From the reply of XREADGROUP on.
    unfoldable pub relay_messages :
        Replies → List StreamMessage → Bridge → Result RelayError ℕ × Bridge
    unfolding produce_ack decode_messages
    relay_messages replies [] b = if replies.read then (ok 0, b) else (err reading, b)
    relay_messages replies (msg ∷ msgs) b =
        if replies.read
        then produce_ack (decode_messages (msg ∷ msgs)) replies.ack b
        else (err reading, b)

    -- `Once` and `Recover`, which read with the IDs > and 0.
    unfoldable pub once : Str → ℕ → Replies → Bridge → Result RelayError ℕ × Bridge
    unfolding relay_messages
    once consumer count replies b =
        let (messages, source') = group.xreadgroup_new consumer count b.source in
        relay_messages replies messages (record b { source = source' })

    unfoldable pub recover : Str → ℕ → Replies → Bridge → Result RelayError ℕ × Bridge
    unfolding relay_messages
    recover consumer count replies b =
        relay_messages replies (group.xreadgroup_own consumer count b.source) b

    -- BUSYGROUP is not an error here.
    unfoldable pub ensure_group : Bridge → Bridge
    ensure_group b = record b { source = (group.xgroup_create b.source).1 }

    -- The loop of `ClaimOrphans`; `none` means that the fuel ran out.
    unfoldable pub claim_from : ℕ → Str → ℕ → ℕ → ℕ → group.T → Option ℕ × group.T
    claim_from zero consumer count start claimed t = (none, t)
    claim_from (suc fuel) consumer count start claimed t =
        let (msgs, next, t') = group.xautoclaim consumer start count t in
        let rest = claim_from fuel consumer count next (claimed + length msgs) t' in
        if next == 0 then (some (claimed + length msgs), t') else rest

    unfoldable pub claim_orphans : ℕ → Str → ℕ → Bridge → Option ℕ × Bridge
    unfolding claim_from
    claim_orphans fuel consumer count b =
        let (claimed, source') = claim_from fuel consumer count 0 0 b.source in
        (claimed, record b { source = source' })

    -- The loop of `Run` that drains the backlog, by the replies of each round; `none` means that they
    -- ran out before a round found nothing.
    unfoldable pub drain : Str → List Replies → Bridge → Option (Result RelayError Done) × Bridge
    drain consumer [] b = (none, b)
    drain consumer (replies ∷ later) b =
        let (r, b') = recover consumer 100 replies b in
        let rest = drain consumer later b' in
        elim r [ err e ↦ (some (err e), b') | ok n ↦ if n == 0 then (some (ok tt), b') else rest ]

    -- The loop of `Run` over `Once`, by the replies of each round. At their end the caller cancels it,
    -- which is no error.
    unfoldable pub run_loop : Str → List Replies → Bridge → Result RelayError Done × Bridge
    run_loop consumer [] b = (ok tt, b)
    run_loop consumer (replies ∷ later) b =
        let (r, b') = once consumer 100 replies b in
        let rest = run_loop consumer later b' in elim r [ err e ↦ (err e, b') | ok n ↦ rest ]

    unfoldable pub then_loop :
        Str
        → List Replies
        → Option (Result RelayError Done) × Bridge
        → Option (Result RelayError Done) × Bridge
    unfolding run_loop
    then_loop consumer rounds (none, b) = (none, b)
    then_loop consumer rounds (some (err e), b) = (some (err e), b)
    then_loop consumer rounds (some (ok _), b) =
        let (r, b') = run_loop consumer rounds b in (some r, b')

    unfoldable pub drain_loop :
        Str
        → List Replies
        → List Replies
        → Option ℕ × Bridge
        → Option (Result RelayError Done) × Bridge
    unfolding drain then_loop
    drain_loop consumer backlog rounds (none, b) = (none, b)
    drain_loop consumer backlog rounds (some _, b) =
        then_loop consumer rounds (drain consumer backlog b)

    -- `Run`, with the fuel of its claims and the replies of the rounds of its two loops.
    unfoldable pub run :
        ℕ → Str → List Replies → List Replies → Bridge → Option (Result RelayError Done) × Bridge
    unfolding claim_orphans ensure_group drain_loop
    run fuel consumer backlog rounds b =
        drain_loop consumer backlog rounds (claim_orphans fuel consumer 100 (ensure_group b))
