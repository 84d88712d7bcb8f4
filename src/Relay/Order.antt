-- ===== src/Relay/Order.antt =====
-- The relay loses nothing and keeps the order, however often it dies.
use mathlib.Core.Path.{subst}
use mathlib.Core.List.{append_assoc}
use call_it.Prelude.{
  ℕ, ◌<◌, ◌==◌, Str, List, [], ◌∷◌, ◌++◌, All, take, drop, length, true, false, Bool-cases, some,
  Result, ok, err, ◌≡◌, refl, sym, ap, ◌∙◌, arith, inl, inr,
}
use call_it.Redis.Keys.{Text}
use call_it.Events.{Event}
use call_it.Relay.{RelayError, Bridge, ensure_group, claim_orphans}
use call_it.Relay.Streams.{StreamMessage, Group, GroupView, Producer, Lane, messages_of, Delivered}
use call_it.Relay.Sent.{Sent, nothing, Reached}
use call_it.Relay.Pending.{
  message_ids, message_ids-append, All-append, All-split, IsOwned, IsOwned-drop, Rising,
  Rising-split, Rising-snoc,
}
use call_it.Relay.Invariant.{Inv, lane_of, lane_of-append}
use call_it.Relay.Cycle.{BridgeInv, recover-Cycled, once-Cycled}
use call_it.Relay.Claims.{Kept}
use call_it.Relay.Orphans.{claim_orphans-Kept}
use call_it.Relay.Runs.{
  Phase, down, draining, running, after_recover, after_once, Run, begun, added, died, stopped,
  started, recovered, relayed,
}

module _ (text : Text → Str) (group : Group) (producer : Producer) where
  -- A group that is not there yet, on a stream from which nothing was sent.
  pub record IsNew (b : Bridge text group producer) : Type 0 where
    pub absent : (group.view b.source).created ≡ false
    pub rising : Rising (0 ∷ message_ids (group.view b.source).entries)
    pub unsent : (lane : Lane) → producer.written lane b.sink ≡ []

  -- What the loops of `Run` rely on: in the first one every pending message is the consumer's, in the
  -- second one nothing is pending.
  abbrev InPhase : Phase → List Delivered → Type 0
  InPhase down pending = Unit
  InPhase (draining c) pending = IsOwned c pending
  InPhase (running c) pending = pending ≡ []

  ensure_group-new :
      (b : Bridge text group producer)
      → IsNew b
      → BridgeInv text group producer (ensure_group text group producer b)
  unfolding ensure_group
  ensure_group-new b new =
      let v = group.view b.source in
      let seen : group.view (group.xgroup_create b.source).1
          ≡ record v { created = true; waiting = v.entries; pending = [] } =
        group.view-xgroup_create b.source ∙ rw new.absent in
      subst (λ u. Inv text u (λ lane. producer.written lane b.sink)) (sym seen)
        (record {
          acked = [];
          created = refl;
          whole = refl;
          rising = new.rising;
          sent = λ lane. ([], [], subst (Sent []) (sym (new.unsent lane)) nothing, refl);
        })

  -- A group that is there stays as it is.
  pub ensure_group-again :
      (b : Bridge text group producer)
      → BridgeInv text group producer b
      → group.view (ensure_group text group producer b).source ≡ group.view b.source
  unfolding ensure_group
  ensure_group-again b inv = group.view-xgroup_create b.source ∙ rw inv.created

  pub outstanding-Rising :
      (v : GroupView) (w : Lane → List Event)
      → Inv text v w
      → Rising (0 ∷ message_ids (messages_of v.pending))
  outstanding-Rising v w inv =
      let e = message_ids-append (messages_of v.pending) v.waiting in
      (
        (All-split (λ j. 0 < j) (message_ids (messages_of v.pending)) (message_ids v.waiting)
            (subst (All (λ j. 0 < j)) e inv.rising.0)).0,
        (Rising-split (message_ids (messages_of v.pending)) (message_ids v.waiting)
            (subst Rising e inv.rising.1)).0,
      )

  Kept-Inv :
      (v u : GroupView) (w : Lane → List Event)
      → Kept text group producer v u
      → Inv text v w
      → Inv text u w
  Kept-Inv v u w kept inv =
      let same : messages_of u.pending ++ u.waiting ≡ messages_of v.pending ++ v.waiting =
        ap (λ l. l ++ u.waiting) kept.messages ∙ ap (◌++◌ (messages_of v.pending)) kept.waiting in
      record {
        acked = inv.acked;
        created = kept.created ∙ inv.created;
        whole = kept.entries ∙ (inv.whole ∙ ap (◌++◌ inv.acked) (sym same));
        rising = subst (λ l. Rising (0 ∷ message_ids l)) (sym same) inv.rising;
        sent = λ lane.
            subst (λ l. Reached (lane_of text lane inv.acked) (lane_of text lane l) (w lane))
              (sym kept.messages) (inv.sent lane);
      }

  pub claim-Inv :
      (fuel : ℕ) (c : Str) (b : Bridge text group producer)
      → BridgeInv text group producer b
      → BridgeInv text group producer
          (claim_orphans text group producer fuel c 100 (ensure_group text group producer b)).1
        × ((n : ℕ)
            → (claim_orphans text group producer fuel c 100 (ensure_group text group producer b)).0
              ≡ some n
            → IsOwned c
                (group.view
                  (claim_orphans text group producer fuel c 100
                    (ensure_group text group producer b)).1.source).pending)
  unfolding claim_orphans ensure_group
  claim-Inv fuel c b inv =
      let b' = ensure_group text group producer b in
      let inv' =
        subst (λ u. Inv text u (λ lane. producer.written lane b.sink))
          (sym (ensure_group-again b inv)) inv in
      let (kept, owned) =
        claim_orphans-Kept text group producer fuel c 100 b'
          (outstanding-Rising (group.view b'.source) (λ lane. producer.written lane b.sink) inv') in
      (Kept-Inv (group.view b'.source) _ (λ lane. producer.written lane b.sink) kept inv', owned)

  xadd-Inv :
      (m : StreamMessage) (b : Bridge text group producer)
      → 0 < m.id
      → All (λ j. j < m.id) (message_ids (group.view b.source).entries)
      → BridgeInv text group producer b
      → BridgeInv text group producer (record b { source = group.xadd m b.source })
  xadd-Inv m b pos above inv =
      let v = group.view b.source in
      let rest = messages_of v.pending ++ v.waiting in
      let snoc : message_ids (rest ++ (m ∷ [])) ≡ message_ids rest ++ (m.id ∷ []) =
        message_ids-append rest (m ∷ []) in
      let larger =
        (All-split (λ j. j < m.id) (message_ids inv.acked) (message_ids rest)
          (subst (All (λ j. j < m.id))
            (ap message_ids inv.whole ∙ message_ids-append inv.acked rest) above)).1 in
      let moved : rest ++ (m ∷ []) ≡ messages_of v.pending ++ (v.waiting ++ (m ∷ [])) =
        append_assoc (messages_of v.pending) v.waiting (m ∷ []) in
      let ids = sym snoc ∙ ap message_ids moved in
      subst (λ u. Inv text u (λ lane. producer.written lane b.sink))
        (sym (group.view-xadd m b.source))
        (record {
          acked = inv.acked;
          created = inv.created;
          whole =
              ap (λ l. l ++ (m ∷ [])) inv.whole
              ∙ (append_assoc inv.acked rest (m ∷ []) ∙ ap (◌++◌ inv.acked) moved);
          rising = (
            subst (All (λ j. 0 < j)) ids
                (All-append (λ j. 0 < j) (message_ids rest) (m.id ∷ []) inv.rising.0 (pos, tt)),
            subst Rising ids (Rising-snoc (message_ids rest) m.id inv.rising.1 larger),
          );
          sent = inv.sent;
        })

  -- The phase after a round of the first loop.
  recovered-InPhase :
      (c : Str) (r : Result RelayError ℕ) (pending rest : List Delivered)
      → IsOwned c pending
      → ((n : ℕ) → r ≡ ok n → (n ≡ length (take 100 pending)) × (rest ≡ drop 100 pending))
      → InPhase (after_recover c r) rest
  recovered-InPhase c (err e) pending rest owned h = tt
  recovered-InPhase c (ok n) pending rest owned h = elim (Bool-cases (n == 0)) [
    | inr more ↦ rw more (subst (IsOwned c) (sym (h n refl).1) (IsOwned-drop c 100 pending owned))
    | inl done ↦ rw done (none_left pending (h n refl).1 (ground (arith, (h n refl).0)))
  ]
    where
      none_left : (l : List Delivered) → rest ≡ drop 100 l → 0 ≡ length (take 100 l) → rest ≡ []
      none_left [] e z = e
      none_left (d ∷ l) e z = absurd (ground arith)

  relayed-InPhase :
      (c : Str) (r : Result RelayError ℕ) (rest : List Delivered)
      → ((n : ℕ) → r ≡ ok n → rest ≡ [])
      → InPhase (after_once c r) rest
  relayed-InPhase c (err e) rest h = tt
  relayed-InPhase c (ok n) rest h = h n refl

  added-InPhase :
      (p : Phase) (m : StreamMessage) (b : Bridge text group producer)
      → InPhase p (group.view b.source).pending
      → InPhase p (group.view (group.xadd m b.source)).pending
  added-InPhase p m b = subst (InPhase p) (sym (ap (λ v. v.pending) (group.view-xadd m b.source)))

  pub Run-Inv :
      {first : Bridge text group producer} {p : Phase} {b : Bridge text group producer}
      → IsNew first
      → Run text group producer first p b
      → BridgeInv text group producer b × InPhase p (group.view b.source).pending
  Run-Inv {first} new begun = (ensure_group-new first new, tt)
  Run-Inv new (added {p} {b} m pos above run) =
      let (inv, at) = Run-Inv new run in (xadd-Inv m b pos above inv, added-InPhase p m b at)
  Run-Inv new (died run) = ((Run-Inv new run).0, tt)
  Run-Inv new (stopped {b} fuel c run) = ((claim-Inv fuel c b (Run-Inv new run).0).0, tt)
  Run-Inv new (started {b} fuel n c done run) =
      let (inv, owned) = claim-Inv fuel c b (Run-Inv new run).0 in (inv, owned n done)
  Run-Inv new (recovered {b} c replies run) =
      let (inv, owned) = Run-Inv new run in
      let (inv', counted) = recover-Cycled text group producer c 100 replies b inv owned in
      (inv', recovered-InPhase c _ (group.view b.source).pending _ owned counted)
  Run-Inv new (relayed {b} c replies run) =
      let (inv, idle) = Run-Inv new run in
      let (inv', counted) = once-Cycled text group producer c 100 replies b inv idle in
      (inv', relayed-InPhase c _ _ (λ n h. (counted n h).1))

  -- From a new group on a stream, in every state that runs of the relay come to, with crashes,
  -- restarts, failing commands and partial writes at any time: in each topic and partition key the
  -- events of a beginning of the stream stand in the stream's order, but for events that are sent again,
  -- and each event that does not stand there is still pending or waiting in the group.
  pub relay_ordered :
      (first b : Bridge text group producer) (p : Phase) (lane : Lane)
      → IsNew first
      → Run text group producer first p b
      → (sent unsent : List Event) × (again : List Event) × (lane_of text lane
            (group.view b.source).entries
          ≡ sent ++ unsent)
        × Sent sent (producer.written lane b.sink)
        × (lane_of text lane
              (messages_of (group.view b.source).pending ++ (group.view b.source).waiting)
            ≡ again ++ unsent)
  relay_ordered first b p lane new run =
      let inv = (Run-Inv new run).0 in
      let v = group.view b.source in
      let (m, r, s, e) = inv.sent lane in
      let a = lane_of text lane inv.acked in
      let w = lane_of text lane v.waiting in
      let rest : lane_of text lane (messages_of v.pending ++ v.waiting) ≡ m ++ (r ++ w) =
        lane_of-append text lane (messages_of v.pending) v.waiting
        ∙ (ap (λ l. l ++ w) (sym e) ∙ append_assoc m r w) in
      (
        a ++ m,
        r ++ w,
        m,
        ap (lane_of text lane) inv.whole
            ∙ (lane_of-append text lane inv.acked (messages_of v.pending ++ v.waiting)
                ∙ (ap (◌++◌ a) rest ∙ sym (append_assoc a m (r ++ w)))),
        s,
        rest,
      )
