-- ===== src/Relay/Sent.antt =====
-- What a lane holds against what it was given: the order of first occurrences.
use mathlib.Core.Path.{subst}
use mathlib.Core.List.{append_assoc, append-nil}
use call_it.Prelude.{List, [], ◌∷◌, ◌++◌, take, drop, take-drop, ◌≡◌, refl, sym, ap, ◌∙◌}
use call_it.Events.{Event}
use call_it.Relay.Streams.{Attempts, none_written, some_written}

abbrev pub OccursIn : Event → List Event → Type 0
OccursIn e l = (xs ys : List Event) × (l ≡ xs ++ (e ∷ ys))

-- The events of the first list stand in the second one in this order, from its start on, but for events
-- that are sent again.
pub data Sent : List Event → List Event → Type 0 where
  nothing : Sent [] []
  first : {l t : List Event} (e : Event) → Sent l t → Sent (l ++ (e ∷ [])) (t ++ (e ∷ []))
  again : {l t : List Event} (e : Event) → OccursIn e l → Sent l t → Sent l (t ++ (e ∷ []))

-- All of `a` was sent, and then at most a beginning of `c`.
abbrev pub Reached : List Event → List Event → List Event → Type 0
Reached a c t = (m r : List Event) × Sent (a ++ m) t × (m ++ r ≡ c)

send_one :
    (a c t : List Event) (e : Event)
    → Reached a (e ∷ c) t
    → Reached (a ++ (e ∷ [])) c (t ++ (e ∷ []))
send_one a c t e ([], r, s, h) = (
  [],
  c,
  subst (λ l. Sent l (t ++ (e ∷ []))) (sym (append-nil (a ++ (e ∷ []))))
      (first e (subst (λ l. Sent l t) (append-nil a) s)),
  refl,
)
send_one a c t e (x ∷ m, r, s, h) =
    let same : x ≡ e = cc in
    let sent : Sent (a ++ (e ∷ m)) t = subst (λ y. Sent (a ++ (y ∷ m)) t) same s in
    (
      m,
      r,
      subst (λ l. Sent l (t ++ (e ∷ []))) (sym (append_assoc a (e ∷ []) m))
          (again e (a, m, refl) sent),
      cc,
    )

-- A whole batch is sent.
pub send : (a b c t : List Event) → Reached a (b ++ c) t → Reached (a ++ b) c (t ++ b)
send a [] c t h =
    subst (λ l. Reached (a ++ []) c l) (sym (append-nil t))
      (subst (λ l. Reached l c t) (sym (append-nil a)) h)
send a (e ∷ b) c t h =
    let rest = send (a ++ (e ∷ [])) b c (t ++ (e ∷ [])) (send_one a (b ++ c) t e h) in
    subst (λ l. Reached l c (t ++ (e ∷ b))) (append_assoc a (e ∷ []) b)
      (subst (λ l. Reached ((a ++ (e ∷ [])) ++ b) c l) (append_assoc t (e ∷ []) b) rest)

-- What was sent for sure may be sent again.
pub reopen : (a b c t : List Event) → Reached (a ++ b) c t → Reached a (b ++ c) t
reopen a b c t (m, r, s, h) =
    (b ++ m, r, subst (λ l. Sent l t) (append_assoc a b m) s, append_assoc b m r ∙ ap (◌++◌ b) h)

pub Reached-extend : (a c d t : List Event) → Reached a c t → Reached a (c ++ d) t
Reached-extend a c d t (m, r, s, h) = (m, r ++ d, s, sym (append_assoc m r d) ∙ ap (λ l. l ++ d) h)

-- Attempts at a batch send no event ahead of an earlier one.
pub Attempts-Reached :
    (a b c t : List Event) {l : List Event}
    → Attempts b l
    → Reached a (b ++ c) t
    → Reached a (b ++ c) (t ++ l)
Attempts-Reached a b c t none_written h = subst (λ l. Reached a (b ++ c) l) (sym (append-nil t)) h
Attempts-Reached a b c t (some_written {l} n more) h =
    let split : take n b ++ (drop n b ++ c) ≡ b ++ c =
      sym (append_assoc (take n b) (drop n b) c) ∙ ap (λ l. l ++ c) (take-drop n b) in
    let before = Attempts-Reached a b c t more h in
    let after =
      send a (take n b) (drop n b ++ c) (t ++ l)
        (subst (λ k. Reached a k (t ++ l)) (sym split) before) in
    subst (λ k. Reached a k (t ++ (l ++ take n b))) split
      (subst (λ k. Reached a (take n b ++ (drop n b ++ c)) k) (append_assoc t l (take n b))
        (reopen a (take n b) (drop n b ++ c) ((t ++ l) ++ take n b) after))
