-- ===== src/Domain/Payout/Conservation.antt =====
-- What `Settle` returns: the refinement to exact arithmetic, conservation, and its errors.
use native.Mathlib.Nat.{div-mul-le_self, div-add-mod, mod-lt}
use native.Mathlib.Nat.{mul-le-mul_right}
use native.Mathlib.Decide.{dec_lt}
use mathlib.Core.Path.{subst}
use call_it.Prelude.{
  ℕ, ◌+◌, ◌-◌, ◌*◌, ◌^◌, ◌≤◌, ◌<◌, ◌==◌, ℤ, pos, pos_part, ◌≤ℤ◌, ◌<ℤ◌, ◌+ℤ◌, ◌-ℤ◌, wrap, add64,
  sub64, eqb_ℤ, List, [], ◌∷◌, All, ◌≡◌, refl, if◌then◌else◌, ok, arith, Bool-cases, inl, inr, true,
  false, length, ◌↔◌, is_ok,
}
use call_it.Domain.Economy.{Tokens}
use call_it.Domain.Round.{validate_outcome_index, validate_outcome_index-ok}
use call_it.Domain.Payout.{Stake, Payout, Settlement, tally, settle_pools, settle, player_results}
use call_it.Domain.Payout.Exact.{
  IsValidStake, total_staked, total_backing, total_paid, max_total, full_refunds, floor_shares,
  tally_exact, pay_refunds_exact, pay_winners_exact,
}

module _ (winning : ℤ) (total pool : ℕ) (positive : 0 < pool) where
  -- Flooring never pays more than the share.
  floor_shares-le :
      (ss : List Stake)
      → total_paid (floor_shares winning total pool ss) * pool ≤ total_backing winning ss * total
  floor_shares-le [] = omega arith
  floor_shares-le (s ∷ ss) = elim (Bool-cases (eqb_ℤ s.outcome winning)) [
    | inl backed ↦
        rw backed
          (omega (arith, div-mul-le_self (pos_part s.amount * total) pool, floor_shares-le ss))
    | inr other ↦ rw other (floor_shares-le ss)
  ]

  -- And it keeps back less than the pool for each payout.
  floor_shares-ge :
      (ss : List Stake)
      → total_backing winning ss * total + length (floor_shares winning total pool ss)
        ≤ (total_paid (floor_shares winning total pool ss)
            + length (floor_shares winning total pool ss))
          * pool
  floor_shares-ge [] = omega arith
  floor_shares-ge (s ∷ ss) = elim (Bool-cases (eqb_ℤ s.outcome winning)) [
    | inl backed ↦ rw backed (
        omega (
          arith,
          div-add-mod (pos_part s.amount * total) pool,
          mod-lt (pos_part s.amount * total) positive,
          floor_shares-ge ss,
        ))
    | inr other ↦ rw other (floor_shares-ge ss)
  ]

pub total_backing-le : (winning : ℤ) (ss : List Stake) → total_backing winning ss ≤ total_staked ss
total_backing-le winning [] = omega arith
total_backing-le winning (s ∷ ss) = ground (arith, total_backing-le winning ss)

total_paid-full_refunds : (ss : List Stake) → total_paid (full_refunds ss) ≡ total_staked ss
total_paid-full_refunds [] = refl
total_paid-full_refunds (s ∷ ss) = omega (arith, total_paid-full_refunds ss)

cancel_le : (a b p : ℕ) → 0 < p → a * p ≤ p * b → a ≤ b
cancel_le a b p h k = grind arith

paid_le_total :
    (winning : ℤ) (total : ℕ) (ss : List Stake)
    → 0 < total_backing winning ss
    → total_paid (floor_shares winning total (total_backing winning ss) ss) ≤ total
paid_le_total winning total ss h =
    cancel_le _ total (total_backing winning ss) h
      (floor_shares-le winning total (total_backing winning ss) h ss)

some_share :
    (winning : ℤ) (total pool : ℕ) (ss : List Stake)
    → 0 < total_backing winning ss
    → 0 < length (floor_shares winning total pool ss)
some_share winning total pool [] h = omega arith
some_share winning total pool (s ∷ ss) h = ground (arith, some_share winning total pool ss)

strict_of_scaled : (t p l w : ℕ) → 0 < l → w * t + l ≤ (p + l) * w → t < p + l
strict_of_scaled t p l w h k = elim (dec_lt t (p + l)) [
  | yes lt ↦ lt
  | no ge ↦ absurd (omega (arith, mul-le-mul_right {m = p + l} {n = t} w (omega arith)))
]

-- What flooring keeps back is less than one token for each payout.
kept_lt_payouts :
    (winning : ℤ) (total : ℕ) (ss : List Stake)
    → 0 < total_backing winning ss
    → let shares = floor_shares winning total (total_backing winning ss) ss in
      total < total_paid shares + length shares
kept_lt_payouts winning total ss h =
    strict_of_scaled total _ _ (total_backing winning ss)
      (some_share winning total (total_backing winning ss) ss h)
      (floor_shares-ge winning total (total_backing winning ss) h ss)

-- The payouts of a round, over natural numbers.
abbrev pub exact_payouts : ℤ → List Stake → List Payout
exact_payouts winning ss =
    if total_backing winning ss == 0
    then full_refunds ss
    else floor_shares winning (total_staked ss) (total_backing winning ss) ss

pub paid_le_staked :
    (winning : ℤ) (ss : List Stake) → total_paid (exact_payouts winning ss) ≤ total_staked ss
paid_le_staked winning ss =
    ground (arith, total_paid-full_refunds ss, paid_le_total winning (total_staked ss) ss)

abbrev pub exact_settlement : ℤ → List Stake → Settlement
exact_settlement winning ss =
    let payouts = exact_payouts winning ss in
    record {
      payouts = payouts;
      results = player_results ss payouts;
      dust = pos (total_staked ss - total_paid payouts);
      was_refunded = total_backing winning ss == 0;
    }

sub64_pos : (a b : ℕ) → b ≤ a → a < 2 ^ 63 → sub64 (pos a) (pos b) ≡ pos (a - b)
unfolding sub64 wrap ◌-ℤ◌
sub64_pos a b h k = ground arith

settle_pools_exact :
    (winning count : ℤ) (ss : List Stake)
    → All (IsValidStake count) ss
    → total_staked ss ≤ max_total
    → settle_pools ss winning (pos (total_staked ss)) (pos (total_backing winning ss))
      ≡ exact_settlement winning ss
unfolding settle_pools
settle_pools_exact winning count ss v h = ground (
  arith,
  pay_refunds_exact count ss 0 v,
  pay_winners_exact winning count (total_staked ss) (total_backing winning ss) ss 0 v,
  paid_le_staked winning ss,
  total_paid-full_refunds ss,
  sub64_pos (total_staked ss) (total_paid (exact_payouts winning ss)),
)

-- On valid stakes whose total is at most 3037000499 and for an outcome of the round, the int64 code
-- returns the settlement of exact arithmetic: each backer of the winner gets the floor of amount *
-- total / pool, or, if the winning pool is empty, every stake goes back; the dust is the rest.
pub settle_exact :
    (ss : List Stake) (winning count : ℤ)
    → pos 0 ≤ℤ winning
    → winning <ℤ count
    → All (IsValidStake count) ss
    → total_staked ss ≤ max_total
    → settle ss winning count ≡ ok (exact_settlement winning ss)
unfolding settle
settle_exact ss winning count p q v h = ground (
  arith,
  (validate_outcome_index-ok winning count).1,
  tally_exact winning count ss 0 0 v,
  settle_pools_exact winning count ss v h,
)

pub settle-index :
    (ss : List Stake) (winning count : ℤ) (r : Settlement)
    → settle ss winning count ≡ ok r
    → (pos 0 ≤ℤ winning) × (winning <ℤ count)
unfolding settle validate_outcome_index
settle-index ss winning count r e = ground arith

-- A result within the bound is the exact one.
pub settle_result :
    (ss : List Stake) (winning count : ℤ) (r : Settlement)
    → All (IsValidStake count) ss
    → total_staked ss ≤ max_total
    → settle ss winning count ≡ ok r
    → exact_settlement winning ss ≡ r
settle_result ss winning count r v h e =
    let index = settle-index ss winning count r e in
    cc (settle_exact ss winning count index.0 index.1 v h)

-- What the conservation theorem says of a result.
abbrev pub Conserves : List Stake → Settlement → Type 0
Conserves ss r =
    (pos (total_paid r.payouts) +ℤ r.dust ≡ pos (total_staked ss))
    × (pos 0 ≤ℤ r.dust)
    × (r.was_refunded ≡ false → r.dust <ℤ pos (length r.payouts))
    × (r.was_refunded ≡ true → (r.dust ≡ pos 0) × (r.payouts ≡ full_refunds ss))

exact-Conserves : (winning : ℤ) (ss : List Stake) → Conserves ss (exact_settlement winning ss)
unfolding ◌+ℤ◌
exact-Conserves winning ss = ground (
  arith,
  paid_le_staked winning ss,
  total_paid-full_refunds ss,
  kept_lt_payouts winning (total_staked ss) ss,
)

-- Under the same conditions no token is made or lost: what is paid and the dust add up to what was
-- staked. The dust is less than one token for each payout, and a refunded round has none and pays
-- every stake back.
pub settle-Conserves :
    (ss : List Stake) (winning count : ℤ) (r : Settlement)
    → All (IsValidStake count) ss
    → total_staked ss ≤ max_total
    → settle ss winning count ≡ ok r
    → Conserves ss r
settle-Conserves ss winning count r v h e =
    subst (Conserves ss) (settle_result ss winning count r v h e) (exact-Conserves winning ss)

tally-ok :
    (winning count : ℤ) (ss : List Stake) (total pool : Tokens)
    → (is_ok (tally winning count ss total pool) ≡ true) ↔ All (IsValidStake count) ss
unfolding tally validate_outcome_index
tally-ok winning count [] total pool = ground arith
tally-ok winning count (s ∷ ss) total pool = ground (
  arith,
  tally-ok winning count ss (add64 total s.amount)
      (if eqb_ℤ s.outcome winning then add64 pool s.amount else pool),
)

-- `Settle` returns a settlement exactly when the winning outcome is one of the round's and every
-- stake is positive and on one of them; no bound on the amounts is needed.
pub settle-ok :
    (ss : List Stake) (winning count : ℤ)
    → (is_ok (settle ss winning count) ≡ true)
      ↔ ((pos 0 ≤ℤ winning) × (winning <ℤ count) × All (IsValidStake count) ss)
unfolding settle validate_outcome_index
settle-ok ss winning count = ground (arith, tally-ok winning count ss (pos 0) (pos 0))
