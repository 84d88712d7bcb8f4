-- ===== src/Relay/Complete.antt =====
-- `Run` as a whole, when nothing fails any more.
use mathlib.Core.Path.{subst}
use mathlib.Core.List.{append-nil, append-eq-nil_iff}
use call_it.Prelude.{
  ℕ, ◌<◌, ◌≤◌, Str, List, [], ◌++◌, length, some, ok, ◌≡◌, sym, ap, ◌∙◌, ◌∷◌, arith,
}
use call_it.Redis.Keys.{Text}
use call_it.Events.{Event}
use call_it.Relay.{Bridge, ensure_group, claim_orphans, drain, run_loop, drain_loop, then_loop, run}
use call_it.Relay.Streams.{Group, GroupView, Producer, Lane, messages_of}
use call_it.Relay.Sent.{Sent}
use call_it.Relay.Pending.{length-messages_of, All-split, IsOwned, Rising, message_ids}
use call_it.Relay.Invariant.{Inv, lane_of}
use call_it.Relay.Cycle.{BridgeInv}
use call_it.Relay.Orphans.{claim_orphans-IsOwned}
use call_it.Relay.Runs.{Run, down}
use call_it.Relay.Order.{IsNew, Run-Inv, ensure_group-again, claim-Inv, outstanding-Rising}
use call_it.Relay.CatchingUp.{Works, Decodes, all_arrive, drain-Leaves, run_loop-Leaves}

module _ (text : Text → Str) (group : Group) (producer : Producer) where
  -- With nothing pending and nothing waiting, a lane has all of the stream.
  nothing_left :
      (v : GroupView) (w : Lane → List Event) (lane : Lane)
      → Inv text v w
      → v.pending ≡ []
      → v.waiting ≡ []
      → Sent (lane_of text lane v.entries) (w lane)
  nothing_left v w lane inv idle empty =
      let (m, r, s, e) = inv.sent lane in
      let none_pending : m ++ r ≡ [] = e ∙ ap (λ l. lane_of text lane (messages_of l)) idle in
      let none_more : m ≡ [] = (append-eq-nil_iff.0 none_pending).0 in
      let all : v.entries ≡ inv.acked =
        inv.whole
        ∙ (ap (λ l. inv.acked ++ (messages_of l ++ v.waiting)) idle
            ∙ (ap (λ l. inv.acked ++ l) empty ∙ append-nil inv.acked)) in
      subst (λ l. Sent l (w lane))
        (ap (λ l. lane_of text lane inv.acked ++ l) none_more
          ∙ (append-nil (lane_of text lane inv.acked) ∙ sym (ap (lane_of text lane) all)))
        s

  drain_loop-Sent :
      (c : Str) (backlog rounds : ℕ) (b : Bridge text group producer) (n : ℕ) (lane : Lane)
      → BridgeInv text group producer b
      → Works text group producer
      → IsOwned c (group.view b.source).pending
      → Decodes text (messages_of (group.view b.source).pending)
      → Decodes text (group.view b.source).waiting
      → length (group.view b.source).pending < backlog
      → length (group.view b.source).waiting ≤ rounds
      → ((drain_loop text group producer c (all_arrive backlog) (all_arrive rounds) (some n, b)).0
          ≡ some (ok tt))
        × Sent (lane_of text lane (group.view b.source).entries) (
            producer.written lane
              (drain_loop text group producer c
                (all_arrive backlog)
                (all_arrive rounds)
                (some n, b)).1.sink)
  unfolding drain_loop then_loop
  drain_loop-Sent c backlog rounds b n lane inv works owned decodes decodes' enough enough' =
      let (drained, (inv1, idle1, waiting1, entries1)) =
        drain-Leaves text group producer c backlog b inv works owned decodes enough in
      let b1 = (drain text group producer c (all_arrive backlog) b).1 in
      let (looped, (inv2, idle2, waiting2, entries2)) =
        run_loop-Leaves text group producer c rounds b1 inv1 works idle1
          (subst (Decodes text) (sym waiting1) decodes')
          (subst (λ l. length l ≤ rounds) (sym waiting1) enough') in
      let b2 = (run_loop text group producer c (all_arrive rounds) b1).1 in
      let all =
        nothing_left (group.view b2.source) (λ k. producer.written k b2.sink) lane inv2 idle2
          waiting2 in
      rw (drained, then_loop, drain_loop)
        (
          ap some looped,
          subst (λ l. Sent (lane_of text lane l) (producer.written lane b2.sink))
              (entries2 ∙ entries1) all,
        )

  -- In any state that the relay was left in by runs from a new group, `Run` under a fresh consumer, with
  -- a producer that takes every batch and all replies arriving, and with as many rounds as there are
  -- messages, ends without an error, and then each topic and partition key has the events of the whole
  -- stream, in the stream's order but for events that are sent again. The entries that are pending or
  -- waiting must be ones that decode.
  pub run-Sent :
      (first b : Bridge text group producer) (fuel backlog rounds : ℕ) (c : Str) (lane : Lane)
      → IsNew text group producer first
      → Run text group producer first down b
      → Works text group producer
      → Decodes text (messages_of (group.view b.source).pending ++ (group.view b.source).waiting)
      → length (group.view b.source).pending < fuel
      → length (group.view b.source).pending < backlog
      → length (group.view b.source).waiting ≤ rounds
      → ((run text group producer fuel c (all_arrive backlog) (all_arrive rounds) b).0
          ≡ some (ok tt))
        × Sent (lane_of text lane (group.view b.source).entries) (
            producer.written lane
              (run text group producer fuel c (all_arrive backlog) (all_arrive rounds) b).1.sink)
  unfolding run claim_orphans
  run-Sent first b fuel backlog rounds c lane new reached works decodes f1 f2 f3 =
      let inv = (Run-Inv text group producer new reached).0 in
      let b0 = ensure_group text group producer b in
      let same = ensure_group-again text group producer b inv in
      let b1 = (claim_orphans text group producer fuel c 100 b0).1 in
      let rising =
        subst (λ v. Rising (0 ∷ message_ids (messages_of v.pending))) (sym same)
          (outstanding-Rising text group producer (group.view b.source)
            (λ k. producer.written k b.sink) inv) in
      let size : length (group.view b0.source).pending ≡ length (group.view b.source).pending =
        ap (λ v. length v.pending) same in
      let (claimed, owned, kept) =
        claim_orphans-IsOwned text group producer fuel c 100 b0 rising (omega arith)
          (omega (arith, size, f1)) in
      let inv1 = (claim-Inv text group producer fuel c b inv).0 in
      let messages : messages_of (group.view b1.source).pending
          ≡ messages_of (group.view b.source).pending =
        kept.messages ∙ ap (λ v. messages_of v.pending) same in
      let waiting : (group.view b1.source).waiting ≡ (group.view b.source).waiting =
        kept.waiting ∙ ap (λ v. v.waiting) same in
      let entries : (group.view b1.source).entries ≡ (group.view b.source).entries =
        kept.entries ∙ ap (λ v. v.entries) same in
      let size1 : length (group.view b1.source).pending ≡ length (group.view b.source).pending =
        sym (length-messages_of (group.view b1.source).pending)
        ∙ (ap length messages ∙ length-messages_of (group.view b.source).pending) in
      let (d1, d2) =
        All-split _ (messages_of (group.view b.source).pending) (group.view b.source).waiting
          decodes in
      rw claimed (
        subst
          (λ l.
            ((drain_loop text group producer c (all_arrive backlog) (all_arrive rounds)
                (some (length (group.view b0.source).pending), b1)).0
              ≡ some (ok tt))
            × Sent (lane_of text lane l) (
                producer.written lane
                  (drain_loop text group producer c (all_arrive backlog) (all_arrive rounds)
                    (some (length (group.view b0.source).pending), b1)).1.sink))
          entries
          (drain_loop-Sent c backlog rounds b1 (length (group.view b0.source).pending) lane inv1
            works owned (subst (Decodes text) (sym messages) d1)
            (subst (Decodes text) (sym waiting) d2) (omega (arith, size1, f2))
            (omega (arith, ap length waiting, f3))))
