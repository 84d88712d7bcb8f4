-- ===== src/Relay/Invariant.antt =====
-- What holds between the stream, its group and the topics while a relay works.
use mathlib.Core.Path.{subst}
use mathlib.Core.List.{append_assoc}
use call_it.Prelude.{
  ℕ, ◌<◌, Str, List, [], ◌∷◌, ◌++◌, All, length, true, ok, err, Result-cases, ◌≡◌, refl, sym, ap,
  ◌∙◌, arith, inl, inr,
}
use call_it.Redis.Keys.{Text}
use call_it.Events.{Event, decode}
use call_it.Relay.{decode_messages}
use call_it.Relay.Streams.{StreamMessage, GroupView, Lane, in_lane, Attempts, messages_of, drop_ids}
use call_it.Relay.Sent.{Reached, send, Attempts-Reached}
use call_it.Relay.Pending.{
  message_ids, message_ids-append, messages_of-append, Rising, Rising-split, All-split,
  drop_ids-append,
}
use call_it.Relay.Streams.{Delivered}

pub in_lane-append :
    (lane : Lane) (xs ys : List Event)
    → in_lane lane (xs ++ ys) ≡ in_lane lane xs ++ in_lane lane ys
in_lane-append lane [] ys = refl
in_lane-append lane (x ∷ xs) ys = ground (arith, in_lane-append lane xs ys)

module _ (text : Text → Str) where
  -- The events of the entries that decode.
  abbrev pub decoded : List StreamMessage → List Event
  decoded [] = []
  decoded (m ∷ rest) =
      let others = decoded rest in
      elim (decode text m.fields) [ err _ ↦ others | ok e ↦ e ∷ others ]

  decoded-append : (xs ys : List StreamMessage) → decoded (xs ++ ys) ≡ decoded xs ++ decoded ys
  decoded-append [] ys = refl
  decoded-append (x ∷ xs) ys = ground (arith, decoded-append xs ys)

  abbrev pub lane_of : Lane → List StreamMessage → List Event
  lane_of lane msgs = in_lane lane (decoded msgs)

  pub lane_of-append :
      (lane : Lane) (xs ys : List StreamMessage)
      → lane_of lane (xs ++ ys) ≡ lane_of lane xs ++ lane_of lane ys
  lane_of-append lane xs ys =
      ap (in_lane lane) (decoded-append xs ys) ∙ in_lane-append lane (decoded xs) (decoded ys)

  pub decode_messages_lem :
      (msgs : List StreamMessage) (evs : List Event) (ids : List ℕ)
      → decode_messages text msgs ≡ ok (evs, ids)
      → (evs ≡ decoded msgs) × (ids ≡ message_ids msgs) × (length evs ≡ length msgs)
  unfolding decode_messages
  decode_messages_lem [] evs ids h = ground arith
  decode_messages_lem (m ∷ msgs) evs ids h = elim (Result-cases (decode_messages text msgs)) [
    | inr (e, failed) ↦ absurd (ground arith)
    | inl ((evs', ids'), more) ↦
        let (a, b, c) = decode_messages_lem msgs evs' ids' more in ground (arith, a, b, c)
  ]

  -- Of the entries a beginning is acknowledged, and the rest is pending or waiting, in order. Of each
  -- lane what was acknowledged was sent, and then at most a beginning of what is pending.
  pub record Inv (v : GroupView) (w : Lane → List Event) : Type 0 where
    pub acked : List StreamMessage
    pub created : v.created ≡ true
    pub whole : v.entries ≡ acked ++ (messages_of v.pending ++ v.waiting)
    pub rising : Rising (0 ∷ message_ids (messages_of v.pending ++ v.waiting))
    pub sent :
        (lane : Lane) → Reached (lane_of lane acked) (lane_of lane (messages_of v.pending)) (w lane)

  pub attempted-Inv :
      (v : GroupView) (w w' : Lane → List Event) (p q : List Delivered)
      → Inv v w
      → v.pending ≡ p ++ q
      → ((lane : Lane)
          → (l : List Event) × Attempts (lane_of lane (messages_of p)) l × (w' lane ≡ w lane ++ l))
      → Inv v w'
  attempted-Inv v w w' p q inv e tries = record {
    acked = inv.acked;
    created = inv.created;
    whole = inv.whole;
    rising = inv.rising;
    sent = λ lane.
        let (l, tried, more) = tries lane in
        let split = ap messages_of e ∙ messages_of-append p q in
        let lanes : lane_of lane (messages_of v.pending)
            ≡ lane_of lane (messages_of p) ++ lane_of lane (messages_of q) =
          ap (lane_of lane) split ∙ lane_of-append lane (messages_of p) (messages_of q) in
        let a = lane_of lane inv.acked in
        subst (λ t. Reached a (lane_of lane (messages_of v.pending)) t) (sym more)
          (subst (λ c. Reached a c (w lane ++ l)) (sym lanes)
            (Attempts-Reached a (lane_of lane (messages_of p)) (lane_of lane (messages_of q))
              (w lane) tried (subst (λ c. Reached a c (w lane)) lanes (inv.sent lane))));
  }

  -- The messages `p` were sent as a whole and acknowledged.
  pub acked-Inv :
      (v : GroupView) (w w' : Lane → List Event) (p q : List Delivered)
      → Inv v w
      → v.pending ≡ p ++ q
      → ((lane : Lane)
          → (l : List Event) × Attempts (lane_of lane (messages_of p)) l
            × (w' lane ≡ w lane ++ (l ++ lane_of lane (messages_of p))))
      → (drop_ids (message_ids (messages_of p)) v.pending ≡ q) × Inv (record v { pending = q }) w'
  acked-Inv v w w' p q inv e tries =
      let split : messages_of v.pending ≡ messages_of p ++ messages_of q =
        ap messages_of e ∙ messages_of-append p q in
      let outstanding : messages_of v.pending ++ v.waiting
          ≡ messages_of p ++ (messages_of q ++ v.waiting) =
        ap (λ l. l ++ v.waiting) split ∙ append_assoc (messages_of p) (messages_of q) v.waiting in
      let numbers =
        ap message_ids outstanding
        ∙ message_ids-append (messages_of p) (messages_of q ++ v.waiting) in
      let r = subst Rising numbers inv.rising.1 in
      let rp = Rising-split (message_ids (messages_of p)) _ r in
      let above =
        All-split (λ j. 0 < j) (message_ids (messages_of p))
          (message_ids (messages_of q ++ v.waiting))
          (subst (All (λ j. 0 < j)) numbers inv.rising.0) in
      let pend =
        (Rising-split (message_ids (messages_of v.pending)) (message_ids v.waiting)
          (subst Rising (message_ids-append (messages_of v.pending) v.waiting) inv.rising.1)).0 in
      (
        ap (drop_ids (message_ids (messages_of p))) e
            ∙ drop_ids-append p q (subst (λ k. Rising (message_ids (messages_of k))) e pend),
        record {
          acked = inv.acked ++ messages_of p;
          created = inv.created;
          whole =
              inv.whole
              ∙ (ap (◌++◌ inv.acked) outstanding
                  ∙ sym (append_assoc inv.acked (messages_of p) (messages_of q ++ v.waiting)));
          rising = (above.1, rp.1);
          sent = λ lane.
              let (l, tried, more) = tries lane in
              let lp = lane_of lane (messages_of p) in
              let lq = lane_of lane (messages_of q) in
              let a = lane_of lane inv.acked in
              let lanes : lane_of lane (messages_of v.pending) ≡ lp ++ lq =
                ap (lane_of lane) split ∙ lane_of-append lane (messages_of p) (messages_of q) in
              let before =
                Attempts-Reached a lp lq (w lane) tried
                  (subst (λ c. Reached a c (w lane)) lanes (inv.sent lane)) in
              let after = send a lp lq (w lane ++ l) before in
              subst (λ t. Reached (lane_of lane (inv.acked ++ messages_of p)) lq t)
                (sym (more ∙ sym (append_assoc (w lane) l lp)))
                (subst (λ b. Reached b lq ((w lane ++ l) ++ lp))
                  (sym (lane_of-append lane inv.acked (messages_of p))) after);
        },
      )
