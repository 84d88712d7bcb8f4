-- ===== src/Store/Settle/Refunds.antt =====
-- `aggregateStakes`: what a refund pays to each player is what the player staked.
use call_it.Prelude.{
  ℕ, ◌+◌, ◌<◌, ◌^◌, ℤ, pos, pos_part, ◌≤ℤ◌, add64, Str, str_eq, str_eq_iff, List, [], ◌∷◌, All, ◌≡◌,
  arith, if◌then◌else◌,
}
use call_it.Domain.Economy.{Tokens}
use call_it.Domain.Payout.{Stake, Payout}
use call_it.Domain.Payout.Exact.{IsValidStake, total_staked, total_paid, add64_amount}
use call_it.Domain.Payout.Results.{staked_by, paid_to}
use call_it.Store.Settle.{add_payout, aggregate_from, aggregate_stakes}

-- Payouts that are not negative.
abbrev IsOwed : Payout → Type 0
IsOwed p = pos 0 ≤ℤ p.amount

-- Adding an amount to a payout in range.
add_owed :
    (a b : ℤ)
    → pos 0 ≤ℤ a
    → pos 1 ≤ℤ b
    → pos_part a + pos_part b < 2 ^ 63
    → add64 a b ≡ pos (pos_part a + pos_part b)
add_owed a b h k l = ground (arith, add64_amount (pos_part a) b k l)

add_payout-All :
    (v : Str) (a : Tokens) (ps : List Payout)
    → pos 1 ≤ℤ a
    → All IsOwed ps
    → total_paid ps + pos_part a < 2 ^ 63
    → All IsOwed (add_payout v a ps)
unfolding add_payout
add_payout-All v a [] k h l = ground (arith, add_owed (pos 0) a)
add_payout-All v a (p ∷ ps) k (h, hs) l =
    ground (arith, add_owed p.amount a, add_payout-All v a ps k hs)

total_paid-add_payout :
    (v : Str) (a : Tokens) (ps : List Payout)
    → pos 1 ≤ℤ a
    → All IsOwed ps
    → total_paid ps + pos_part a < 2 ^ 63
    → total_paid (add_payout v a ps) ≡ total_paid ps + pos_part a
unfolding add_payout
total_paid-add_payout v a [] k h l = ground (arith, add_owed (pos 0) a)
total_paid-add_payout v a (p ∷ ps) k (h, hs) l =
    ground (arith, add_owed p.amount a, total_paid-add_payout v a ps k hs)

paid_to-add_payout :
    (u v : Str) (a : Tokens) (ps : List Payout)
    → pos 1 ≤ℤ a
    → All IsOwed ps
    → total_paid ps + pos_part a < 2 ^ 63
    → paid_to u (add_payout v a ps) ≡ paid_to u ps + (if str_eq v u then pos_part a else 0)
unfolding add_payout
paid_to-add_payout u v a [] k h l = ground (arith, add_owed (pos 0) a)
paid_to-add_payout u v a (p ∷ ps) k (h, hs) l = ground (
  arith,
  add_owed p.amount a,
  paid_to-add_payout u v a ps k hs,
  str_eq_iff p.user_id v,
  str_eq_iff p.user_id u,
  str_eq_iff v u,
)

-- What the loop has come to, from the payouts and the total that it began with.
record Aggregated (u : Str) (ss : List Stake) (ps : List Payout) (t : ℕ)
    (out : List Payout × Tokens) : Type 0 where
  total : out.1 ≡ pos (t + total_staked ss)
  player : paid_to u out.0 ≡ paid_to u ps + staked_by u ss
  all_players : total_paid out.0 ≡ total_paid ps + total_staked ss

aggregate_from-Aggregated :
    (u : Str) (count : ℤ) (ss : List Stake) (ps : List Payout) (t : ℕ)
    → All (IsValidStake count) ss
    → All IsOwed ps
    → total_paid ps + total_staked ss < 2 ^ 63
    → t + total_staked ss < 2 ^ 63
    → Aggregated u ss ps t (aggregate_from ss ps (pos t))
unfolding aggregate_from
aggregate_from-Aggregated u count [] ps t v h l m = record {
  total = ground arith;
  player = ground arith;
  all_players = ground arith;
}
aggregate_from-Aggregated u count (s ∷ ss) ps t (v, vs) h l m =
    let next = add_payout s.user_id s.amount ps in
    let fits : total_paid ps + pos_part s.amount < 2 ^ 63 = omega arith in
    let paid = total_paid-add_payout s.user_id s.amount ps v.0 h fits in
    let player = paid_to-add_payout u s.user_id s.amount ps v.0 h fits in
    let more : add64 (pos t) s.amount ≡ pos (t + pos_part s.amount) =
      add64_amount t s.amount v.0 (omega arith) in
    let rest =
      aggregate_from-Aggregated u count ss next (t + pos_part s.amount) vs
        (add_payout-All s.user_id s.amount ps v.0 h fits) (omega (arith, paid)) (omega arith) in
    rw more (record {
      total = ground (arith, rest.total);
      player = ground (arith, rest.player, player);
      all_players = ground (arith, rest.all_players, paid);
    })

-- On valid stakes whose total is an int64, the total of a refund is the sum of the stakes, its payouts
-- add up to that total, and what they pay to a player is the sum of the player's stakes.
pub aggregate_stakes_exact :
    (u : Str) (count : ℤ) (ss : List Stake)
    → All (IsValidStake count) ss
    → total_staked ss < 2 ^ 63
    → ((aggregate_stakes ss).1 ≡ pos (total_staked ss))
      × (total_paid (aggregate_stakes ss).0 ≡ total_staked ss)
      × (paid_to u (aggregate_stakes ss).0 ≡ staked_by u ss)
unfolding aggregate_stakes
aggregate_stakes_exact u count ss v l =
    let all = aggregate_from-Aggregated u count ss [] 0 v tt (omega arith) (omega arith) in
    (ground (arith, all.total), ground (arith, all.all_players), ground (arith, all.player))
