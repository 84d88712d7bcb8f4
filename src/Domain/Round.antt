-- ===== src/Domain/Round.antt =====
-- domain/round.go: the life of a round as a table of moves, and the checks on outcomes.
use call_it.Prelude.{
  ℤ, pos, ◌≡◌, arith, List, [], ◌∷◌, Bool, true, false, ltb_ℤ, leb_ℤ, ◌||◌, ◌≤ℤ◌, ◌<ℤ◌, Result,
  Done, ok, err, if◌then◌else◌, ◌↔◌, refl,
}
use call_it.Domain.Economy.{Error, invalid_transition, invalid_outcome_count, invalid_outcome}

-- `type RoundStatus string`. `other` is any string but the four, which stands in no row of the table.
pub data RoundStatus : Type 0 where
  open_ locked resolved refunded other : RoundStatus

unfoldable pub status_eq : RoundStatus → RoundStatus → Bool
status_eq open_ open_ = true
status_eq locked locked = true
status_eq resolved resolved = true
status_eq refunded refunded = true
status_eq other other = true
status_eq _ _ = false

unfoldable pub valid_transitions : RoundStatus → List RoundStatus
valid_transitions open_ = locked ∷ []
valid_transitions locked = resolved ∷ refunded ∷ []
valid_transitions _ = []

-- The loop of `Transition` over the allowed moves.
find_transition : RoundStatus → RoundStatus → List RoundStatus → Result Error RoundStatus
find_transition s next [] = err invalid_transition
find_transition s next (allowed ∷ rest) =
    if status_eq allowed next then ok next else find_transition s next rest

unfoldable pub transition : RoundStatus → RoundStatus → Result Error RoundStatus
unfolding find_transition status_eq valid_transitions
transition s next = find_transition s next (valid_transitions s)

unfoldable pub is_terminal : RoundStatus → Bool
unfolding valid_transitions
is_terminal s = elim (valid_transitions s) [ [] ↦ true | _ ↦ false ]

unfoldable pub accepts_wagers : RoundStatus → Bool
unfolding status_eq
accepts_wagers s = status_eq s open_

abbrev pub min_outcomes : ℤ
min_outcomes = pos 2

abbrev pub max_outcomes : ℤ
max_outcomes = pos 4

unfoldable pub validate_outcome_count : ℤ → Result Error Done
validate_outcome_count n =
    if ltb_ℤ n min_outcomes || ltb_ℤ max_outcomes n then err invalid_outcome_count else ok tt

unfoldable pub validate_outcome_index : ℤ → ℤ → Result Error Done
validate_outcome_index idx count =
    if ltb_ℤ idx (pos 0) || leb_ℤ count idx then err invalid_outcome else ok tt

-- The index check passes exactly on the indices of a round's outcomes.
pub validate_outcome_index-ok :
    (idx count : ℤ) → (validate_outcome_index idx count ≡ ok tt) ↔ ((pos 0 ≤ℤ idx) × (idx <ℤ count))
unfolding validate_outcome_index
validate_outcome_index-ok idx count = ground arith

-- The check on the number of outcomes passes exactly on two to four.
pub validate_outcome_count-ok :
    (n : ℤ) → (validate_outcome_count n ≡ ok tt) ↔ ((min_outcomes ≤ℤ n) × (n ≤ℤ max_outcomes))
unfolding validate_outcome_count
validate_outcome_count-ok n = ground arith

-- What `Transition` allows: open → locked, and locked → resolved or refunded.
pub data Allowed : RoundStatus → RoundStatus → Type 0 where
  lock : Allowed open_ locked
  resolve : Allowed locked resolved
  refund : Allowed locked refunded

Allowed-transition : {s t : RoundStatus} → Allowed s t → transition s t ≡ ok t
unfolding transition
Allowed-transition lock = refl
Allowed-transition resolve = refl
Allowed-transition refund = refl

transition-Allowed : (s t u : RoundStatus) → transition s t ≡ ok u → (u ≡ t) × Allowed s t
unfolding transition
transition-Allowed open_ locked u h = (cc, lock)
transition-Allowed open_ _ u h = cc
transition-Allowed locked resolved u h = (cc, resolve)
transition-Allowed locked refunded u h = (cc, refund)
transition-Allowed locked _ u h = cc
transition-Allowed _ t u h = cc

is_terminal-no_move :
    (s : RoundStatus)
    → is_terminal s ≡ true
    → (t : RoundStatus) → transition s t ≡ err invalid_transition
unfolding is_terminal transition
is_terminal-no_move open_ h t = cc
is_terminal-no_move locked h t = cc
is_terminal-no_move _ h t = refl

no_move-is_terminal :
    (s : RoundStatus)
    → ((t : RoundStatus) → transition s t ≡ err invalid_transition)
    → is_terminal s ≡ true
unfolding is_terminal transition
no_move-is_terminal open_ h = cc (h locked)
no_move-is_terminal locked h = cc (h resolved)
no_move-is_terminal _ h = refl

-- `Transition` succeeds exactly along the allowed moves, and then returns the status that it was
-- asked for; a status is terminal exactly when no move from it succeeds.
pub transition_table :
    (s t u : RoundStatus)
    → ((transition s t ≡ ok u) ↔ ((u ≡ t) × Allowed s t))
      × ((is_terminal s ≡ true) ↔ ((v : RoundStatus) → transition s v ≡ err invalid_transition))
transition_table s t u = (
  (transition-Allowed s t u, λ (e, a). rw e (Allowed-transition a)),
  (is_terminal-no_move s, no_move-is_terminal s),
)
