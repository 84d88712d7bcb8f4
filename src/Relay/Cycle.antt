-- ===== src/Relay/Cycle.antt =====
-- One cycle of the relay keeps the invariant, whatever fails.
use mathlib.Core.Path.{subst}
use mathlib.Core.List.{append_assoc, append-nil}
use call_it.Prelude.{
  ℕ, Str, List, [], ◌∷◌, ◌++◌, take, drop, take-drop, length, Bool, Bool-cases, Result, ok,
  Result-cases, ◌≡◌, sym, ap, ◌∙◌, arith, inl, inr,
}
use call_it.Redis.Keys.{Text}
use call_it.Events.{Event}
use call_it.Relay.{
  decode_messages, RelayError, Replies, Bridge, acknowledge, produce_ack, relay_messages, once,
  recover,
}
use call_it.Relay.Streams.{
  StreamMessage, Group, Producer, Lane, in_lane, Attempts, messages_of, drop_ids, Delivered,
  deliver,
}
use call_it.Relay.Pending.{
  message_ids, messages_of-append, messages_of-deliver, IsOwned, own-IsOwned, messages_of-take,
  length-messages_of, Rising,
}
use call_it.Relay.Sent.{Reached, Reached-extend}
use call_it.Relay.Invariant.{
  Inv, lane_of, lane_of-append, decode_messages_lem, attempted-Inv, acked-Inv,
}

module _ (text : Text → Str) (group : Group) (producer : Producer) where
  abbrev pub BridgeInv : Bridge text group producer → Type 0
  BridgeInv b = Inv text (group.view b.source) (λ lane. producer.written lane b.sink)

  -- The bridge keeps the invariant, and after `count` relayed messages `rest` is pending.
  abbrev pub Cycled : ℕ → List Delivered → Result RelayError ℕ × Bridge text group producer → Type 0
  Cycled count rest (r, b) =
      BridgeInv b × ((n : ℕ) → r ≡ ok n → (n ≡ count) × ((group.view b.source).pending ≡ rest))

  produce_ack-Cycled :
      (msgs : List StreamMessage) (evs : List Event) (ids : List ℕ) (acked : Bool)
      (b : Bridge text group producer) (p q : List Delivered)
      → BridgeInv b
      → (group.view b.source).pending ≡ p ++ q
      → messages_of p ≡ msgs
      → decode_messages text msgs ≡ ok (evs, ids)
      → Cycled (length msgs) q (produce_ack text group producer (ok (evs, ids)) acked b)
  unfolding produce_ack acknowledge
  produce_ack-Cycled msgs evs ids acked b p q inv split same decodes =
      let (e, i, n) = decode_messages_lem text msgs evs ids decodes in
      let lanes : (lane : Lane) → in_lane lane evs ≡ lane_of text lane (messages_of p) =
        λ lane. ap (in_lane lane) e ∙ ap (lane_of text lane) (sym same) in
      let tried =
        attempted-Inv text (group.view b.source) (λ lane. producer.written lane b.sink)
          (λ lane. producer.written lane (producer.produce evs b.sink).1) p q inv split
          (λ lane.
            let (l, some_of, more) = producer.produce-Attempts lane evs b.sink in
            (l, subst (λ k. Attempts k l) (lanes lane) some_of, more)) in
      elim (Bool-cases (producer.produce evs b.sink).0) [
        | inr failed ↦ rw failed (tried, λ k h. absurd (ground arith))
        | inl done ↦ elim (Bool-cases acked) [
          | inr lost ↦ rw (done, lost) (tried, λ k h. absurd (ground arith))
          | inl arrived ↦
              let (left, kept) =
                acked-Inv text (group.view b.source) (λ lane. producer.written lane b.sink)
                  (λ lane. producer.written lane (producer.produce evs b.sink).1) p q inv split
                  (λ lane.
                    let (l, some_of, more) = producer.produce-written lane evs b.sink done in
                    (
                      l,
                      subst (λ k. Attempts k l) (lanes lane) some_of,
                      more ∙ ap (λ k. producer.written lane b.sink ++ (l ++ k)) (lanes lane),
                    )) in
              let ids_of : ids ≡ message_ids (messages_of p) = i ∙ ap message_ids (sym same) in
              let pending : drop_ids ids (group.view b.source).pending ≡ q =
                ap (λ k. drop_ids k (group.view b.source).pending) ids_of ∙ left in
              let view : group.view (group.xack ids b.source)
                  ≡ record (group.view b.source) { pending = q } =
                group.view-xack ids b.source
                ∙ ap (λ k. record (group.view b.source) { pending = k }) pending in
              rw (done, arrived)
                (
                  subst
                      (λ v.
                        Inv text v (λ lane. producer.written lane (producer.produce evs b.sink).1))
                      (sym view) kept,
                  λ k h. (ground (arith, n), ap (λ v. v.pending) view),
                )
        ]
      ]

  relay_messages-Cycled :
      (replies : Replies) (msgs : List StreamMessage) (b : Bridge text group producer)
      (p q : List Delivered)
      → BridgeInv b
      → (group.view b.source).pending ≡ p ++ q
      → messages_of p ≡ msgs
      → Cycled (length msgs) q (relay_messages text group producer replies msgs b)
  unfolding relay_messages
  relay_messages-Cycled replies [] b (d ∷ p) q inv split same = absurd (ground arith)
  relay_messages-Cycled replies [] b [] q inv split same = elim (Bool-cases replies.read) [
    | inl arrived ↦ rw arrived (inv, λ n h. (ground arith, split))
    | inr lost ↦ rw lost (inv, λ n h. absurd (ground arith))
  ]
  relay_messages-Cycled replies (m ∷ msgs) b p q inv split same = elim (Bool-cases replies.read) [
    | inr lost ↦ rw lost (inv, λ n h. absurd (ground arith))
    | inl arrived ↦ rw arrived (elim (Result-cases (decode_messages text (m ∷ msgs))) [
      | inl ((evs, ids), decodes) ↦
          rw decodes
            (produce_ack-Cycled (m ∷ msgs) evs ids replies.ack b p q inv split same decodes)
      | inr (e, failed) ↦ rw (failed, produce_ack) (inv, λ n h. absurd (ground arith))
    ])
  ]

  pub recover-Cycled :
      (consumer : Str) (count : ℕ) (replies : Replies) (b : Bridge text group producer)
      → BridgeInv b
      → IsOwned consumer (group.view b.source).pending
      → Cycled
          (length (take count (group.view b.source).pending))
          (drop count (group.view b.source).pending)
          (recover text group producer consumer count replies b)
  unfolding recover
  recover-Cycled consumer count replies b inv owned =
      let pending = (group.view b.source).pending in
      let read : messages_of (take count pending) ≡ group.xreadgroup_own consumer count b.source =
        messages_of-take count pending
        ∙ sym (
            group.xreadgroup_own-take consumer count b.source
            ∙ ap (take count) (own-IsOwned consumer pending owned)) in
      let lengths : length (group.xreadgroup_own consumer count b.source)
          ≡ length (take count pending) =
        ap length (sym read) ∙ length-messages_of (take count pending) in
      subst
        (λ k. Cycled k (drop count pending) (
          relay_messages text group producer replies (group.xreadgroup_own consumer count b.source)
            b))
        lengths
        (relay_messages-Cycled replies (group.xreadgroup_own consumer count b.source) b
          (take count pending) (drop count pending) inv (sym (take-drop count pending)) read)

  read_new-Inv :
      (consumer : Str) (count : ℕ) (b : Bridge text group producer)
      → BridgeInv b
      → BridgeInv (record b { source = (group.xreadgroup_new consumer count b.source).1 })
  read_new-Inv consumer count b inv =
      let v = group.view b.source in
      let read = take count v.waiting in
      let pending : messages_of (v.pending ++ deliver consumer read)
          ≡ messages_of v.pending ++ read =
        messages_of-append v.pending (deliver consumer read)
        ∙ ap (◌++◌ (messages_of v.pending)) (messages_of-deliver consumer read) in
      let same : messages_of v.pending ++ v.waiting
          ≡ messages_of (v.pending ++ deliver consumer read) ++ drop count v.waiting =
        sym (
          ap (λ l. l ++ drop count v.waiting) pending
          ∙ (append_assoc (messages_of v.pending) read (drop count v.waiting)
              ∙ ap (◌++◌ (messages_of v.pending)) (take-drop count v.waiting))) in
      subst (λ u. Inv text u (λ lane. producer.written lane b.sink))
        (sym (group.view-xreadgroup_new consumer count b.source))
        (record {
          acked = inv.acked;
          created = inv.created;
          whole = inv.whole ∙ ap (◌++◌ inv.acked) same;
          rising = subst (λ l. Rising (0 ∷ message_ids l)) same inv.rising;
          sent = λ lane.
              subst (λ c. Reached (lane_of text lane inv.acked) c (producer.written lane b.sink))
                (sym (
                  ap (lane_of text lane) pending
                  ∙ lane_of-append text lane (messages_of v.pending) read))
                (Reached-extend _ (lane_of text lane (messages_of v.pending))
                  (lane_of text lane read) _ (inv.sent lane));
        })

  pub once-Cycled :
      (consumer : Str) (count : ℕ) (replies : Replies) (b : Bridge text group producer)
      → BridgeInv b
      → (group.view b.source).pending ≡ []
      → Cycled
          (length (take count (group.view b.source).waiting))
          []
          (once text group producer consumer count replies b)
  unfolding once
  once-Cycled consumer count replies b inv idle =
      let read = take count (group.view b.source).waiting in
      let source' = (group.xreadgroup_new consumer count b.source).1 in
      let got : (group.xreadgroup_new consumer count b.source).0 ≡ read =
        group.xreadgroup_new-take consumer count b.source in
      let pending : (group.view source').pending ≡ deliver consumer read ++ [] =
        ap (λ v. v.pending) (group.view-xreadgroup_new consumer count b.source)
        ∙ (ap (λ l. l ++ deliver consumer read) idle ∙ sym (append-nil (deliver consumer read))) in
      rw got (
        relay_messages-Cycled replies read (record b { source = source' }) (deliver consumer read)
          [] (read_new-Inv consumer count b inv) pending (messages_of-deliver consumer read))
