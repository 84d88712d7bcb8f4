-- ===== src/Relay/Orphans.antt =====
-- `ClaimOrphans` ends, and then every pending message is the new consumer's.
use mathlib.Core.Path.{subst}
use mathlib.Core.List.{append-nil}
use call_it.Prelude.{
  ℕ, zero, suc, ◌+◌, ◌<◌, ◌==◌, Str, List, [], ◌∷◌, ◌++◌, take, drop, take-drop, length,
  length-append, true, false, some, ◌≡◌, ◌⊎◌, refl, sym, ap, ◌∙◌, arith, inl, inr,
}
use call_it.Redis.Keys.{Text}
use call_it.Relay.{Bridge, claim_from, claim_orphans}
use call_it.Relay.Streams.{Group, Producer, messages_of, Delivered, deliver, from, cursor}
use call_it.Relay.Pending.{
  message_ids, IsOwned, IsOwned-deliver, All-append, All-middle, Rising, length-messages_of,
}
use call_it.Relay.Claims.{
  Kept, Scan, claimed_of, claim_view, claim_next, Scan-next, Scan-start, Kept-claim,
}

pub List-cases :
    (l : List Delivered) → (l ≡ []) ⊎ ((d : Delivered) × (r : List Delivered) × (l ≡ d ∷ r))
List-cases [] = inl refl
List-cases (d ∷ r) = inr (d, r, refl)

pub length-split : (n : ℕ) (l : List Delivered) → length (take n l) + length (drop n l) ≡ length l
length-split n l = sym (length-append (take n l) (drop n l)) ∙ ap length (take-drop n l)

pub length-take_pos : (n : ℕ) (l : List Delivered) → 0 < n → 0 < length l → 0 < length (take n l)
length-take_pos zero l h k = absurd (omega arith)
length-take_pos (suc n) [] h k = absurd (omega arith)
length-take_pos (suc n) (d ∷ l) h k = omega arith

module _ (text : Text → Str) (group : Group) (producer : Producer) where
  claim_count :
      (c : Str) (start count : ℕ) (t : group.T) (found rest : List Delivered)
      → Scan text group producer c start t found rest
      → length (group.xautoclaim c start count t).0 ≡ length (take count rest)
  claim_count c start count t found rest s =
      ap length (group.xautoclaim-take c start count t)
      ∙ (ap (λ l. length (messages_of (take count l))) (ap (from start) s.split ∙ s.after)
          ∙ length-messages_of (take count rest))

  -- The ID of a message is not the cursor of the end.
  next_pos :
      (c : Str) (start count : ℕ) (t : group.T) (found rest : List Delivered) (d : Delivered)
      (later : List Delivered)
      → Scan text group producer c start t found rest
      → drop count rest ≡ d ∷ later
      → (group.xautoclaim c start count t).1 == 0 ≡ false
  next_pos c start count t found rest d later s more =
      let moved = Scan-next text group producer c start count t found rest d later s more in
      let above =
        All-middle (λ j. 0 < j) (claimed_of text group producer c count found rest) d later
          moved.rising.0 in
      let next = claim_next text group producer c start count t found rest s ∙ ap cursor more in
      ground (arith, above, next)

  claim_from_lem :
      (fuel : ℕ) (c : Str) (count start claimed : ℕ) (t : group.T) (found rest : List Delivered)
      → Scan text group producer c start t found rest
      → Kept text group producer
          (group.view t)
          (group.view (claim_from text group producer fuel c count start claimed t).1)
        × ((n : ℕ)
            → (claim_from text group producer fuel c count start claimed t).0 ≡ some n
            → IsOwned c
                (group.view
                  (claim_from text group producer fuel c count start claimed t).1).pending)
  unfolding claim_from
  claim_from_lem zero c count start claimed t found rest s = (
    record { entries = refl; created = refl; waiting = refl; messages = refl },
    λ n h. absurd (ground arith),
  )
  claim_from_lem (suc fuel) c count start claimed t found rest s =
      let t' = (group.xautoclaim c start count t).2 in
      let kept = Kept-claim text group producer c start count t found rest s in
      elim (List-cases (drop count rest)) [
        | inl done ↦
            let next : (group.xautoclaim c start count t).1 == 0 ≡ true =
              ap (λ k. k == 0)
                (claim_next text group producer c start count t found rest s ∙ ap cursor done) in
            rw next (
              kept,
              λ n h.
                  subst (IsOwned c)
                    (sym (
                      ap (λ v. v.pending)
                        (claim_view text group producer c start count t found rest s)
                      ∙ (ap (◌++◌ (claimed_of text group producer c count found rest)) done
                          ∙ append-nil (claimed_of text group producer c count found rest))))
                    (All-append (λ (x : Delivered). x.consumer ≡ c) found
                      (deliver c (messages_of (take count rest))) s.owned
                      (IsOwned-deliver c (messages_of (take count rest)))),
            )
        | inr (d, later, more) ↦
            let next =
              claim_next text group producer c start count t found rest s ∙ ap cursor more in
            let moved =
              subst
                (λ k.
                  Scan text group producer c k t'
                    (claimed_of text group producer c count found rest) (d ∷ later))
                (sym next)
                (Scan-next text group producer c start count t found rest d later s more) in
            let ih =
              claim_from_lem fuel c count (group.xautoclaim c start count t).1
                (claimed + length (group.xautoclaim c start count t).0) t'
                (claimed_of text group producer c count found rest) (d ∷ later) moved in
            rw (next_pos c start count t found rest d later s more) (
              record {
                entries = ih.0.entries ∙ kept.entries;
                created = ih.0.created ∙ kept.created;
                waiting = ih.0.waiting ∙ kept.waiting;
                messages = ih.0.messages ∙ kept.messages;
              },
              ih.1,
            )
      ]

  -- With more fuel than there are messages left the loop ends, and counts them all.
  claim_from-ends :
      (fuel : ℕ) (c : Str) (count start claimed : ℕ) (t : group.T) (found rest : List Delivered)
      → Scan text group producer c start t found rest
      → 0 < count
      → length rest < fuel
      → (claim_from text group producer fuel c count start claimed t).0
        ≡ some (claimed + length rest)
  unfolding claim_from
  claim_from-ends zero c count start claimed t found rest s pos enough = absurd (omega arith)
  claim_from-ends (suc fuel) c count start claimed t found rest s pos enough =
      let t' = (group.xautoclaim c start count t).2 in
      let sizes = length-split count rest in
      let moved_now = claim_count c start count t found rest s in
      elim (List-cases (drop count rest)) [
        | inl done ↦
            let next : (group.xautoclaim c start count t).1 == 0 ≡ true =
              ap (λ k. k == 0)
                (claim_next text group producer c start count t found rest s ∙ ap cursor done) in
            let none_left = ap length done in
            rw next (ap some (omega (arith, sizes, moved_now, none_left)))
        | inr (d, later, more) ↦
            let next =
              claim_next text group producer c start count t found rest s ∙ ap cursor more in
            let moved =
              subst
                (λ k.
                  Scan text group producer c k t'
                    (claimed_of text group producer c count found rest) (d ∷ later))
                (sym next)
                (Scan-next text group producer c start count t found rest d later s more) in
            let left : length (drop count rest) ≡ suc (length later) = ap length more in
            let some_taken = length-take_pos count rest pos (omega (arith, sizes, left)) in
            let ih =
              claim_from-ends fuel c count (group.xautoclaim c start count t).1
                (claimed + length (group.xautoclaim c start count t).0) t'
                (claimed_of text group producer c count found rest) (d ∷ later) moved pos
                (omega (arith, sizes, left, some_taken)) in
            rw (next_pos c start count t found rest d later s more)
              (ih ∙ ap some (omega (arith, sizes, moved_now, left)))
      ]

  -- `ClaimOrphans`, with any positive count and a fuel above the number of pending messages, ends, and
  -- returns that number. Then every pending message belongs to the new consumer, and they are the same
  -- messages; the stream and what is still to be delivered do not change.
  pub claim_orphans-IsOwned :
      (fuel : ℕ) (c : Str) (count : ℕ) (b : Bridge text group producer)
      → Rising (0 ∷ message_ids (messages_of (group.view b.source).pending))
      → 0 < count
      → length (group.view b.source).pending < fuel
      → ((claim_orphans text group producer fuel c count b).0
          ≡ some (length (group.view b.source).pending))
        × IsOwned c (group.view (claim_orphans text group producer fuel c count b).1.source).pending
        × Kept text group producer
            (group.view b.source)
            (group.view (claim_orphans text group producer fuel c count b).1.source)
  unfolding claim_orphans
  claim_orphans-IsOwned fuel c count b rising pos enough =
      let s = Scan-start text group producer c b.source rising in
      let pending = (group.view b.source).pending in
      let ends = claim_from-ends fuel c count 0 0 b.source [] pending s pos enough in
      let (kept, owned) = claim_from_lem fuel c count 0 0 b.source [] pending s in
      let counted : 0 + length pending ≡ length pending = omega arith in
      (ends ∙ ap some counted, owned _ ends, kept)

  pub claim_orphans-Kept :
      (fuel : ℕ) (c : Str) (count : ℕ) (b : Bridge text group producer)
      → Rising (0 ∷ message_ids (messages_of (group.view b.source).pending))
      → Kept text group producer
          (group.view b.source)
          (group.view (claim_orphans text group producer fuel c count b).1.source)
        × ((n : ℕ)
            → (claim_orphans text group producer fuel c count b).0 ≡ some n
            → IsOwned c
                (group.view (claim_orphans text group producer fuel c count b).1.source).pending)
  unfolding claim_orphans
  claim_orphans-Kept fuel c count b rising =
      claim_from_lem fuel c count 0 0 b.source [] (group.view b.source).pending
        (Scan-start text group producer c b.source rising)
