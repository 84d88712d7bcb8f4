-- ===== src/Domain/Payout/Backers.antt =====
-- What the backers of the winning outcome get back.
use native.Mathlib.Nat.{le-div_iff_mul-le, mul-le-mul_left}
use call_it.Prelude.{
  ℕ, ◌+◌, ◌≤◌, ◌<◌, ℤ, pos_part, eqb_ℤ, List, [], ◌∷◌, All, ◌≡◌, if◌then◌else◌, arith, Bool-cases,
  inl, inr, Str, str_eq, ok, ◌==◌, ◌&&◌, ◌/◌, ◌*◌,
}
use mathlib.Core.Path.{subst}
use call_it.Domain.Payout.{Stake, Settlement, settle}
use call_it.Domain.Payout.Exact.{
  IsValidStake, total_staked, total_backing, max_total, full_refunds, floor_shares,
}
use call_it.Domain.Payout.Conservation.{exact_payouts, settle_result, total_backing-le}
use call_it.Domain.Payout.Results.{paid_to}

-- What one player put on the winning outcome.
abbrev pub backed_by : ℤ → Str → List Stake → ℕ
backed_by winning user [] = 0
backed_by winning user (s ∷ ss) =
    if str_eq s.user_id user && eqb_ℤ s.outcome winning
    then pos_part s.amount + backed_by winning user ss
    else backed_by winning user ss

share_ge : (a t p : ℕ) → 0 < p → p ≤ t → a ≤ a * t / p
share_ge a t p h k = (le-div_iff_mul-le {k = p} {x = a} {y = a * t} h).1 (mul-le-mul_left a k)

backed_by-floor_shares :
    (winning : ℤ) (total pool : ℕ) (u : Str) (ss : List Stake)
    → 0 < pool
    → pool ≤ total
    → backed_by winning u ss ≤ paid_to u (floor_shares winning total pool ss)
backed_by-floor_shares winning total pool u [] h k = omega arith
backed_by-floor_shares winning total pool u (s ∷ ss) h k = ground (
  arith,
  share_ge (pos_part s.amount) total pool h k,
  backed_by-floor_shares winning total pool u ss h k,
)

backed_by-full_refunds :
    (winning : ℤ) (u : Str) (ss : List Stake) → backed_by winning u ss ≤ paid_to u (full_refunds ss)
backed_by-full_refunds winning u [] = omega arith
backed_by-full_refunds winning u (s ∷ ss) = ground (arith, backed_by-full_refunds winning u ss)

exact_backer :
    (winning : ℤ) (ss : List Stake) (u : Str)
    → backed_by winning u ss ≤ paid_to u (exact_payouts winning ss)
exact_backer winning ss u = elim (Bool-cases (total_backing winning ss == 0)) [
  | inl nobody ↦ rw nobody (backed_by-full_refunds winning u ss)
  | inr somebody ↦ rw somebody (
      backed_by-floor_shares winning (total_staked ss) (total_backing winning ss) u ss
        (ground arith) (total_backing-le winning ss))
]

-- Nobody gets back less than what it put on the winning outcome.
pub settle_backers :
    (ss : List Stake) (winning count : ℤ) (r : Settlement) (u : Str)
    → All (IsValidStake count) ss
    → total_staked ss ≤ max_total
    → settle ss winning count ≡ ok r
    → backed_by winning u ss ≤ paid_to u r.payouts
settle_backers ss winning count r u v h e =
    subst (λ t. backed_by winning u ss ≤ paid_to u t.payouts)
      (settle_result ss winning count r v h e) (exact_backer winning ss u)
