-- ===== src/Relay/CatchingUp.antt =====
-- A relay that nothing hinders sends all that was added to the stream.
use mathlib.Core.Path.{subst}
use call_it.Prelude.{
  ℕ, zero, suc, ◌<◌, ◌≤◌, ◌==◌, Str, List, [], ◌∷◌, All, take, drop, take-drop, length,
  length-append, true, false, some, ok, ◌≡◌, refl, sym, ap, ◌∙◌, arith, inl, inr,
}
use call_it.Redis.Keys.{Text}
use call_it.Events.{Event, decode}
use call_it.Relay.{
  Replies, Bridge, decode_messages, acknowledge, produce_ack, relay_messages, once, recover, drain,
  run_loop,
}
use call_it.Relay.Streams.{StreamMessage, Group, Producer, messages_of, Delivered}
use call_it.Relay.Pending.{
  IsOwned, IsOwned-drop, own-IsOwned, messages_of-take, messages_of-drop, length-messages_of,
  All-split,
}
use call_it.Relay.Invariant.{decode_messages_lem}
use call_it.Relay.Orphans.{List-cases, length-split, length-take_pos}
use call_it.Relay.Cycle.{BridgeInv, recover-Cycled, once-Cycled}

-- All replies of a round arrive.
abbrev pub arrives : Replies
arrives = record { read = true; ack = true }

abbrev pub all_arrive : ℕ → List Replies
all_arrive zero = []
all_arrive (suc n) = arrives ∷ all_arrive n

length-drop-le {ℓ} : {A : Type ℓ} (n : ℕ) (l : List A) → length (drop n l) ≤ length l
length-drop-le n l = omega (arith, length-append (take n l) (drop n l), ap length (take-drop n l))

All-drop {ℓ} : {A : Type 0} (P : A → Type ℓ) (n : ℕ) (l : List A) → All P l → All P (drop n l)
All-drop P n l h = (All-split P (take n l) (drop n l) (subst (All P) (sym (take-drop n l)) h)).1

length-zero {ℓ} : {A : Type ℓ} (l : List A) → length l ≤ 0 → l ≡ []
length-zero [] h = refl
length-zero (x ∷ l) h = absurd (omega arith)

-- A round makes a list shorter.
drop_short {ℓ} : {A : Type ℓ} (l : List A) (k : ℕ) → length l ≤ suc k → length (drop 100 l) ≤ k
drop_short [] k h = omega arith
drop_short (x ∷ l) k h = omega (arith, length-drop-le 99 l)

All-take {ℓ} : {A : Type 0} (P : A → Type ℓ) (n : ℕ) (l : List A) → All P l → All P (take n l)
All-take P n l h = (All-split P (take n l) (drop n l) (subst (All P) (sym (take-drop n l)) h)).0

module _ (text : Text → Str) where
  -- Every entry is one of the events.
  abbrev pub Decodes : List StreamMessage → Type 0
  Decodes = All (λ (m : StreamMessage). (e : Event) × (decode text m.fields ≡ ok e))

  decode_messages-ok :
      (msgs : List StreamMessage)
      → Decodes msgs
      → (evs : List Event) × (ids : List ℕ) × (decode_messages text msgs ≡ ok (evs, ids))
  unfolding decode_messages
  decode_messages-ok [] h = ([], [], refl)
  decode_messages-ok (m ∷ msgs) h =
      let (evs, ids, e) = decode_messages-ok msgs h.1 in
      (h.0.0 ∷ evs, m.id ∷ ids, ground (arith, e, h.0.1))

  module _ (group : Group) (producer : Producer) where
    abbrev pub Works : Type 0
    Works = (evs : List Event) (t : producer.T) → (producer.produce evs t).0 ≡ true

    relay_messages-ok :
        (msgs : List StreamMessage) (b : Bridge text group producer)
        → Works
        → Decodes msgs
        → ((relay_messages text group producer arrives msgs b).0 ≡ ok (length msgs))
          × ((group.view (relay_messages text group producer arrives msgs b).1.source).waiting
              ≡ (group.view b.source).waiting)
          × ((group.view (relay_messages text group producer arrives msgs b).1.source).entries
              ≡ (group.view b.source).entries)
    unfolding relay_messages produce_ack acknowledge
    relay_messages-ok [] b works h = (refl, refl, refl)
    relay_messages-ok (m ∷ msgs) b works h =
        let (evs, ids, e) = decode_messages-ok (m ∷ msgs) h in
        let count = (decode_messages_lem text (m ∷ msgs) evs ids e).2 in
        let view = group.view-xack ids b.source in
        rw (e, works evs b.sink) (ap ok count, ap (λ v. v.waiting) view, ap (λ v. v.entries) view)

    -- What a step leaves: the invariant, what is pending and waiting, and the entries.
    abbrev Leaves :
        Bridge text group producer
        → List Delivered
        → List StreamMessage
        → List StreamMessage
        → Type 0
    Leaves b pending waiting entries =
        BridgeInv text group producer b
        × ((group.view b.source).pending ≡ pending)
        × ((group.view b.source).waiting ≡ waiting)
        × ((group.view b.source).entries ≡ entries)

    recover-Leaves :
        (c : Str) (b : Bridge text group producer)
        → BridgeInv text group producer b
        → Works
        → IsOwned c (group.view b.source).pending
        → Decodes (messages_of (group.view b.source).pending)
        → ((recover text group producer c 100 arrives b).0
            ≡ ok (length (take 100 (group.view b.source).pending)))
          × Leaves
              (recover text group producer c 100 arrives b).1
              (drop 100 (group.view b.source).pending)
              (group.view b.source).waiting
              (group.view b.source).entries
    unfolding recover
    recover-Leaves c b inv works owned decodes =
        let pending = (group.view b.source).pending in
        let read : messages_of (take 100 pending) ≡ group.xreadgroup_own c 100 b.source =
          messages_of-take 100 pending
          ∙ sym (
              group.xreadgroup_own-take c 100 b.source
              ∙ ap (take 100) (own-IsOwned c pending owned)) in
        let sent = relay_messages-ok (group.xreadgroup_own c 100 b.source) b works (
          subst Decodes (sym (messages_of-take 100 pending) ∙ read)
            (All-take _ 100 (messages_of pending) decodes)) in
        let count : length (group.xreadgroup_own c 100 b.source) ≡ length (take 100 pending) =
          ap length (sym read) ∙ length-messages_of (take 100 pending) in
        let result = sent.0 ∙ ap ok count in
        let (inv', counted) = recover-Cycled text group producer c 100 arrives b inv owned in
        (result, (inv', (counted _ result).1, sent.1, sent.2))

    once-Leaves :
        (c : Str) (b : Bridge text group producer)
        → BridgeInv text group producer b
        → Works
        → (group.view b.source).pending ≡ []
        → Decodes (group.view b.source).waiting
        → ((once text group producer c 100 arrives b).0
            ≡ ok (length (take 100 (group.view b.source).waiting)))
          × Leaves
              (once text group producer c 100 arrives b).1
              []
              (drop 100 (group.view b.source).waiting)
              (group.view b.source).entries
    unfolding once
    once-Leaves c b inv works idle decodes =
        let waiting = (group.view b.source).waiting in
        let got = group.xreadgroup_new-take c 100 b.source in
        let view = group.view-xreadgroup_new c 100 b.source in
        let (result, w, e) =
          relay_messages-ok (group.xreadgroup_new c 100 b.source).0
            (record b { source = (group.xreadgroup_new c 100 b.source).1 }) works
            (subst Decodes (sym got) (All-take _ 100 waiting decodes)) in
        let result' = result ∙ ap (λ l. ok (length l)) got in
        let (inv', counted) = once-Cycled text group producer c 100 arrives b inv idle in
        (
          result',
          (inv', (counted _ result').1, w ∙ ap (λ v. v.waiting) view, e ∙ ap (λ v. v.entries) view),
        )

    -- The first loop of `Run` ends with nothing pending once it has more rounds than messages.
    pub drain-Leaves :
        (c : Str) (k : ℕ) (b : Bridge text group producer)
        → BridgeInv text group producer b
        → Works
        → IsOwned c (group.view b.source).pending
        → Decodes (messages_of (group.view b.source).pending)
        → length (group.view b.source).pending < k
        → ((drain text group producer c (all_arrive k) b).0 ≡ some (ok tt))
          × Leaves
              (drain text group producer c (all_arrive k) b).1
              []
              (group.view b.source).waiting
              (group.view b.source).entries
    unfolding drain
    drain-Leaves c zero b inv works owned decodes enough = absurd (omega arith)
    drain-Leaves c (suc k) b inv works owned decodes enough =
        let pending = (group.view b.source).pending in
        let (result, (inv', left, waiting, entries)) = recover-Leaves c b inv works owned decodes in
        let sizes = length-split 100 pending in
        elim (List-cases pending) [
          | inl nothing_pending ↦
              let none_sent : length (take 100 pending) ≡ 0 =
                ap (λ l. length (take 100 l)) nothing_pending in
              rw (result, none_sent, drain)
                (refl, (inv', left ∙ ap (drop 100) nothing_pending, waiting, entries))
          | inr (d, later, some_pending) ↦
              let full : length pending ≡ suc (length later) = ap length some_pending in
              let pos = length-take_pos 100 pending (omega arith) (omega (arith, full)) in
              let b' = (recover text group producer c 100 arrives b).1 in
              let more : length (take 100 pending) == 0 ≡ false = ground (arith, pos) in
              let (done, (inv'', left', waiting', entries')) =
                drain-Leaves c k b' inv' works
                  (subst (IsOwned c) (sym left) (IsOwned-drop c 100 pending owned))
                  (subst (λ l. Decodes (messages_of l)) (sym left)
                    (subst Decodes (sym (messages_of-drop 100 pending))
                      (All-drop _ 100 (messages_of pending) decodes)))
                  (omega (arith, ap length left, sizes, pos)) in
              rw (result, more, drain)
                (done, (inv'', left', waiting' ∙ waiting, entries' ∙ entries))
        ]

    pub run_loop-Leaves :
        (c : Str) (k : ℕ) (b : Bridge text group producer)
        → BridgeInv text group producer b
        → Works
        → (group.view b.source).pending ≡ []
        → Decodes (group.view b.source).waiting
        → length (group.view b.source).waiting ≤ k
        → ((run_loop text group producer c (all_arrive k) b).0 ≡ ok tt)
          × Leaves
              (run_loop text group producer c (all_arrive k) b).1
              []
              []
              (group.view b.source).entries
    unfolding run_loop
    run_loop-Leaves c zero b inv works idle decodes enough =
        (refl, (inv, idle, length-zero (group.view b.source).waiting enough, refl))
    run_loop-Leaves c (suc k) b inv works idle decodes enough =
        let waiting = (group.view b.source).waiting in
        let b' = (once text group producer c 100 arrives b).1 in
        let (result, (inv', left, rest, entries)) = once-Leaves c b inv works idle decodes in
        let (done, (inv'', left', rest', entries')) =
          run_loop-Leaves c k b' inv' works left
            (subst Decodes (sym rest) (All-drop _ 100 waiting decodes))
            (omega (arith, ap length rest, drop_short waiting k enough)) in
        rw (result, run_loop) (done, (inv'', left', rest', entries' ∙ entries))
