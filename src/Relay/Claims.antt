-- ===== src/Relay/Claims.antt =====
-- One XAUTOCLAIM of `ClaimOrphans`: where the scan stands, and what it leaves alone.
use mathlib.Core.Path.{subst}
use mathlib.Core.List.{append_assoc}
use call_it.Prelude.{ℕ, Str, List, [], ◌∷◌, ◌++◌, take, drop, take-drop, ◌≡◌, refl, sym, ap, ◌∙◌}
use call_it.Redis.Keys.{Text}
use call_it.Relay.Streams.{
  Group, GroupView, Producer, messages_of, Delivered, deliver, before, from, cursor,
}
use call_it.Relay.Pending.{
  message_ids, messages_of-append, messages_of-deliver, IsOwned, IsOwned-deliver, All-append,
  Rising, from-zero, from-cursor,
}

module _ (text : Text → Str) (group : Group) (producer : Producer) where
  -- Only the consumers of pending messages differ.
  pub record Kept (v u : GroupView) : Type 0 where
    pub entries : u.entries ≡ v.entries
    pub created : u.created ≡ v.created
    pub waiting : u.waiting ≡ v.waiting
    pub messages : messages_of u.pending ≡ messages_of v.pending

  -- Where a scan of the pending messages has come to.
  pub record Scan (c : Str) (start : ℕ) (t : group.T) (found rest : List Delivered) : Type 0 where
    pub split : (group.view t).pending ≡ found ++ rest
    pub rising : Rising (0 ∷ message_ids (messages_of (found ++ rest)))
    pub after : from start (found ++ rest) ≡ rest
    pub ahead : before start (found ++ rest) ≡ found
    pub owned : IsOwned c found

  abbrev pub claimed_of : Str → ℕ → List Delivered → List Delivered → List Delivered
  claimed_of c count found rest = found ++ deliver c (messages_of (take count rest))

  abbrev pub claimed_view : Str → ℕ → List Delivered → List Delivered → GroupView → GroupView
  claimed_view c count found rest v = record v {
    pending = claimed_of c count found rest ++ drop count rest;
  }

  pub claim_view :
      (c : Str) (start count : ℕ) (t : group.T) (found rest : List Delivered)
      → Scan c start t found rest
      → group.view (group.xautoclaim c start count t).2
        ≡ claimed_view c count found rest (group.view t)
  claim_view c start count t found rest s =
      let e : from start (group.view t).pending ≡ rest = ap (from start) s.split ∙ s.after in
      let f : before start (group.view t).pending ≡ found = ap (before start) s.split ∙ s.ahead in
      group.view-xautoclaim c start count t
      ∙ (ap
            (λ l. record (group.view t) {
              pending =
                  before start (group.view t).pending
                  ++ (deliver c (messages_of (take count l)) ++ drop count l);
            })
            e
          ∙ ap (λ l. record (group.view t) { pending = l })
              (ap (λ l. l ++ (deliver c (messages_of (take count rest)) ++ drop count rest)) f
                ∙ sym (
                    append_assoc found (deliver c (messages_of (take count rest)))
                      (drop count rest))))

  claimed-messages :
      (c : Str) (count : ℕ) (found rest : List Delivered)
      → messages_of (claimed_of c count found rest ++ drop count rest) ≡ messages_of (found ++ rest)
  claimed-messages c count found rest =
      ap messages_of
        (append_assoc found (deliver c (messages_of (take count rest))) (drop count rest))
      ∙ (messages_of-append found (deliver c (messages_of (take count rest)) ++ drop count rest)
          ∙ (ap (◌++◌ (messages_of found)) (
                messages_of-append (deliver c (messages_of (take count rest))) (drop count rest)
                ∙ (ap (λ l. l ++ messages_of (drop count rest))
                      (messages_of-deliver c (messages_of (take count rest)))
                    ∙ (sym (messages_of-append (take count rest) (drop count rest))
                        ∙ ap messages_of (take-drop count rest))))
              ∙ sym (messages_of-append found rest)))

  pub claim_next :
      (c : Str) (start count : ℕ) (t : group.T) (found rest : List Delivered)
      → Scan c start t found rest
      → (group.xautoclaim c start count t).1 ≡ cursor (drop count rest)
  claim_next c start count t found rest s =
      group.xautoclaim-cursor c start count t
      ∙ ap (λ l. cursor (drop count l)) (ap (from start) s.split ∙ s.after)

  pub Scan-next :
      (c : Str) (start count : ℕ) (t : group.T) (found rest : List Delivered) (d : Delivered)
      (later : List Delivered)
      → Scan c start t found rest
      → drop count rest ≡ d ∷ later
      → Scan c d.message.id
          (group.xautoclaim c start count t).2
          (claimed_of c count found rest)
          (d ∷ later)
  Scan-next c start count t found rest d later s more =
      let same = claimed-messages c count found rest in
      let rises : Rising
          (0 ∷ message_ids (messages_of (claimed_of c count found rest ++ (d ∷ later)))) =
        subst (λ l. Rising (0 ∷ message_ids (messages_of (claimed_of c count found rest ++ l))))
          more (subst (λ l. Rising (0 ∷ message_ids l)) (sym same) s.rising) in
      let place = from-cursor (claimed_of c count found rest) d later rises.1 in
      record {
        split =
            ap (λ v. v.pending) (claim_view c start count t found rest s)
            ∙ ap (◌++◌ (claimed_of c count found rest)) more;
        rising = rises;
        after = place.0;
        ahead = place.1;
        owned =
            All-append (λ (x : Delivered). x.consumer ≡ c) found
              (deliver c (messages_of (take count rest))) s.owned
              (IsOwned-deliver c (messages_of (take count rest)));
      }

  pub Scan-start :
      (c : Str) (t : group.T)
      → Rising (0 ∷ message_ids (messages_of (group.view t).pending))
      → Scan c 0 t [] (group.view t).pending
  Scan-start c t r = record {
    split = refl;
    rising = r;
    after = (from-zero (group.view t).pending).0;
    ahead = (from-zero (group.view t).pending).1;
    owned = tt;
  }

  pub Kept-claim :
      (c : Str) (start count : ℕ) (t : group.T) (found rest : List Delivered)
      → Scan c start t found rest
      → Kept (group.view t) (group.view (group.xautoclaim c start count t).2)
  Kept-claim c start count t found rest s =
      subst (Kept (group.view t)) (sym (claim_view c start count t found rest s)) (record {
        entries = refl;
        created = refl;
        waiting = refl;
        messages = claimed-messages c count found rest ∙ sym (ap messages_of s.split);
      })
