-- ===== src/Domain/Payout/Exact.antt =====
-- Settlement over natural numbers, and that the int64 code computes it while nothing overflows.
use native.Mathlib.Nat.{mul-le-mul, le_trans, div-mul-le_self}
use call_it.Prelude.{
  ℕ, zero, suc, ◌+◌, ◌*◌, ◌/◌, ◌^◌, ◌≤◌, ◌<◌, ℤ, pos, negsuc, pos_part, ◌≤ℤ◌, ◌<ℤ◌, quot, wrap_id,
  add64, mul64, quot64, eqb_ℤ, pos-+ℤ, pos-*ℤ, List, [], ◌∷◌, All, ◌≡◌, refl, if◌then◌else◌, ok,
  arith,
}
use call_it.Domain.Economy.{Tokens}
use call_it.Domain.Round.{validate_outcome_index}
use call_it.Domain.Payout.{Stake, Payout, tally, pay_refunds, pay_winners, winner_share}

-- A positive stake on one of the round's outcomes.
abbrev pub IsValidStake : ℤ → Stake → Type 0
IsValidStake count s = (pos 1 ≤ℤ s.amount) × (pos 0 ≤ℤ s.outcome) × (s.outcome <ℤ count)

abbrev pub total_staked : List Stake → ℕ
total_staked [] = 0
total_staked (s ∷ ss) = pos_part s.amount + total_staked ss

abbrev pub total_backing : ℤ → List Stake → ℕ
total_backing winning [] = 0
total_backing winning (s ∷ ss) =
    if eqb_ℤ s.outcome winning
    then pos_part s.amount + total_backing winning ss
    else total_backing winning ss

abbrev pub total_paid : List Payout → ℕ
total_paid [] = 0
total_paid (p ∷ ps) = pos_part p.amount + total_paid ps

-- The largest total whose square is an int64.
abbrev pub max_total : ℕ
max_total = 3037000499

abbrev pub full_refunds : List Stake → List Payout
full_refunds [] = []
full_refunds (s ∷ ss) = record { user_id = s.user_id; amount = s.amount } ∷ full_refunds ss

-- Each backer of the winning outcome gets the floor of its part of the total.
abbrev pub floor_shares : ℤ → ℕ → ℕ → List Stake → List Payout
floor_shares winning total pool [] = []
floor_shares winning total pool (s ∷ ss) =
    if eqb_ℤ s.outcome winning
    then record { user_id = s.user_id; amount = pos (pos_part s.amount * total / pool) }
      ∷ floor_shares winning total pool ss
    else floor_shares winning total pool ss

pub add64_pos : (a b : ℕ) → a + b < 2 ^ 63 → add64 (pos a) (pos b) ≡ pos (a + b)
unfolding add64
add64_pos a b h = rw pos-+ℤ (wrap_id (pos (a + b)) (omega arith))

pub amount_pos : (z : ℤ) → pos 1 ≤ℤ z → z ≡ pos (pos_part z)
amount_pos (pos n) h = refl
amount_pos (negsuc n) h = absurd (omega arith)

product_bound : (a t : ℕ) → a ≤ t → t ≤ max_total → a * t < 2 ^ 63
product_bound a t h k = omega (arith, mul-le-mul {n₂ = max_total} {m₂ = max_total} (le_trans h k) k)

quotient_le : (n p : ℕ) → n / suc p ≤ n
quotient_le n p = grind (arith, div-mul-le_self n (suc p))

winner_share_exact :
    (a t p : ℕ)
    → a ≤ t
    → t ≤ max_total
    → 0 < p
    → winner_share (pos a) (pos t) (pos p) ≡ pos (a * t / p)
unfolding winner_share mul64 quot64 quot
winner_share_exact a t zero h k q = absurd (omega arith)
winner_share_exact a t (suc p) h k q =
    rw (pos-*ℤ, wrap_id (pos (a * t)) (omega (arith, product_bound a t h k)))
      (wrap_id (pos (a * t / suc p)) (omega (arith, product_bound a t h k, quotient_le (a * t) p)))

pub add64_amount :
    (a : ℕ) (z : ℤ) → pos 1 ≤ℤ z → a + pos_part z < 2 ^ 63 → add64 (pos a) z ≡ pos (a + pos_part z)
add64_amount a z h k = rw (amount_pos z h) (add64_pos a (pos_part z) k)

tally_step :
    (winning count : ℤ) (s : Stake) (ss : List Stake) (total pool : Tokens)
    → IsValidStake count s
    → tally winning count (s ∷ ss) total pool
      ≡ tally winning count ss
          (add64 total s.amount)
          (if eqb_ℤ s.outcome winning then add64 pool s.amount else pool)
unfolding tally validate_outcome_index
tally_step winning count s ss total pool v = ground arith

pub tally_exact :
    (winning count : ℤ) (ss : List Stake) (a b : ℕ)
    → All (IsValidStake count) ss
    → a + total_staked ss < 2 ^ 63
    → b + total_staked ss < 2 ^ 63
    → tally winning count ss (pos a) (pos b)
      ≡ ok (pos (a + total_staked ss), pos (b + total_backing winning ss))
tally_exact winning count [] a b v h k = unfold tally in ground arith
tally_exact winning count (s ∷ ss) a b (v, vs) h k = ground (
  arith,
  tally_step winning count s ss (pos a) (pos b) v,
  add64_amount a s.amount v.0,
  add64_amount b s.amount v.0,
  tally_exact winning count ss (a + pos_part s.amount) (b + pos_part s.amount) vs,
  tally_exact winning count ss (a + pos_part s.amount) b vs,
)

pub pay_refunds_exact :
    (count : ℤ) (ss : List Stake) (a : ℕ)
    → All (IsValidStake count) ss
    → a + total_staked ss < 2 ^ 63
    → pay_refunds ss (pos a) ≡ (full_refunds ss, pos (a + total_staked ss))
unfolding pay_refunds
pay_refunds_exact count [] a v h = ground arith
pay_refunds_exact count (s ∷ ss) a (v, vs) h =
    ground
      (arith, add64_amount a s.amount v.0, pay_refunds_exact count ss (a + pos_part s.amount) vs)

pub pay_winners_exact :
    (winning count : ℤ) (total pool : ℕ) (ss : List Stake) (a : ℕ)
    → All (IsValidStake count) ss
    → total_staked ss ≤ total
    → total ≤ max_total
    → 0 < pool
    → a + total_paid (floor_shares winning total pool ss) < 2 ^ 63
    → pay_winners winning (pos total) (pos pool) ss (pos a) ≡ (
      floor_shares winning total pool ss,
      pos (a + total_paid (floor_shares winning total pool ss)),
    )
unfolding pay_winners
pay_winners_exact winning count total pool [] a v t m p h = ground arith
pay_winners_exact winning count total pool (s ∷ ss) a (v, vs) t m p h =
    let share = pos_part s.amount * total / pool in
    ground (
      arith,
      amount_pos s.amount v.0,
      winner_share_exact (pos_part s.amount) total pool,
      add64_pos a share,
      pay_winners_exact winning count total pool ss (a + share) vs,
      pay_winners_exact winning count total pool ss a vs,
    )
