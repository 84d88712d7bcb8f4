-- ===== src/Domain/Payout/Reveal.antt =====
-- What `Settle` reveals of each player.
use call_it.Prelude.{
  ℕ, ◌^◌, ◌≤◌, ◌<◌, ℤ, pos, ◌-ℤ◌, ◌≤ℤ◌, sub64, eqb_ℤ, List, [], ◌∷◌, All, ◌≡◌, refl, if◌then◌else◌,
  true, none, some, arith, Bool-cases, inl, inr, Str, str_eq_iff, ok, ◌==◌, wrap,
}
use mathlib.Core.Path.{subst}
use call_it.Domain.Payout.{
  Stake, Payout, PlayerResult, Settlement, add_returned, staked_rows, returned_rows, player_results,
  settle,
}
use call_it.Domain.Payout.Exact.{
  IsValidStake, total_staked, total_backing, total_paid, max_total, full_refunds, floor_shares,
}
use call_it.Domain.Payout.Conservation.{
  exact_payouts, exact_settlement, settle_result, paid_le_staked,
}
use call_it.Domain.Payout.Results.{
  row_of, has_stake, staked_by, paid_to, HasRows, fresh_row, row_of-net_rows, returned_rows_lem,
  staked_rows-none, add_returned-HasRows, row_of-add_returned,
}

-- Payouts that are not negative and go to players with a stake.
abbrev IsCovered : List Stake → List Payout → Type 0
IsCovered ss ps = All (λ p. (pos 0 ≤ℤ p.amount) × (has_stake p.user_id ss ≡ true)) ps

returned_rows-none :
    (ss : List Stake) (u : Str) (ps : List Payout) (rs : List PlayerResult)
    → IsCovered ss ps
    → HasRows ss rs
    → row_of u rs ≡ none
    → row_of u (returned_rows ps rs) ≡ none
unfolding returned_rows
returned_rows-none ss u [] rs v hr e = e
returned_rows-none ss u (p ∷ ps) rs ((v, hp), vs) hr e =
    let (rv, ev) = hr p.user_id hp in
    ground (
      arith,
      row_of-add_returned u p.user_id p.amount rs ev,
      str_eq_iff p.user_id u,
      returned_rows-none ss u ps (add_returned p.user_id p.amount rs) vs
          (add_returned-HasRows ss p.user_id p.amount rs hp hr),
    )

-- The row that a player is to have.
abbrev pub fair_row : Str → ℕ → ℕ → PlayerResult
fair_row user staked returned = record {
  user_id = user;
  staked = pos staked;
  returned = pos returned;
  net = pos returned -ℤ pos staked;
}

staked_rows-HasRows :
    (ss : List Stake)
    → All (λ s. pos 0 ≤ℤ s.amount) ss
    → ((u : Str) → staked_by u ss < 2 ^ 63)
    → HasRows ss (staked_rows ss [])
staked_rows-HasRows ss v h u e =
    (fresh_row u (staked_by u ss), ground (arith, staked_rows-none u ss [] v refl (h u)))

sub64_exact : (a b : ℕ) → a < 2 ^ 63 → b < 2 ^ 63 → sub64 (pos a) (pos b) ≡ pos a -ℤ pos b
unfolding sub64 wrap ◌-ℤ◌
sub64_exact a b h k = ground arith

player_results_lem :
    (u : Str) (ss : List Stake) (ps : List Payout)
    → All (λ s. pos 0 ≤ℤ s.amount) ss
    → IsCovered ss ps
    → ((v : Str) → staked_by v ss < 2 ^ 63)
    → paid_to u ps < 2 ^ 63
    → row_of u (player_results ss ps)
      ≡ (if has_stake u ss then some (fair_row u (staked_by u ss) (paid_to u ps)) else none)
unfolding player_results
player_results_lem u ss ps v c h k =
    let rows = staked_rows ss [] in
    let hr = staked_rows-HasRows ss v h in
    elim (Bool-cases (has_stake u ss)) [
      | inl player ↦ ground (
        arith,
        row_of-net_rows u (returned_rows ps rows),
        staked_rows-none u ss [] v refl (h u),
        returned_rows_lem ss u ps rows (fresh_row u (staked_by u ss)) 0 c hr,
        sub64_exact (paid_to u ps) (staked_by u ss) k (h u),
      )
      | inr stranger ↦ ground (
        arith,
        row_of-net_rows u (returned_rows ps rows),
        staked_rows-none u ss [] v refl (h u),
        returned_rows-none ss u ps rows c hr,
      )
    ]

staked_by-le : (u : Str) (ss : List Stake) → staked_by u ss ≤ total_staked ss
staked_by-le u [] = omega arith
staked_by-le u (s ∷ ss) = ground (arith, staked_by-le u ss)

paid_to-le : (u : Str) (ps : List Payout) → paid_to u ps ≤ total_paid ps
paid_to-le u [] = omega arith
paid_to-le u (p ∷ ps) = ground (arith, paid_to-le u ps)

valid-nonneg :
    (count : ℤ) (ss : List Stake) → All (IsValidStake count) ss → All (λ s. pos 0 ≤ℤ s.amount) ss
valid-nonneg count [] v = tt
valid-nonneg count (s ∷ ss) (v, vs) = (omega arith, valid-nonneg count ss vs)

-- A longer list of stakes has at least the same players.
IsCovered-cons :
    (s : Stake) (ss : List Stake) (ps : List Payout) → IsCovered ss ps → IsCovered (s ∷ ss) ps
IsCovered-cons s ss [] c = tt
IsCovered-cons s ss (p ∷ ps) (c, cs) = (ground arith, IsCovered-cons s ss ps cs)

full_refunds-IsCovered :
    (ss : List Stake) → All (λ s. pos 0 ≤ℤ s.amount) ss → IsCovered ss (full_refunds ss)
full_refunds-IsCovered [] v = tt
full_refunds-IsCovered (s ∷ ss) (v, vs) = (
  (v, ground (arith, str_eq_iff s.user_id s.user_id)),
  IsCovered-cons s ss (full_refunds ss) (full_refunds-IsCovered ss vs),
)

floor_shares-IsCovered :
    (winning : ℤ) (total pool : ℕ) (ss : List Stake)
    → IsCovered ss (floor_shares winning total pool ss)
floor_shares-IsCovered winning total pool [] = tt
floor_shares-IsCovered winning total pool (s ∷ ss) =
    let rest =
      IsCovered-cons s ss (floor_shares winning total pool ss)
        (floor_shares-IsCovered winning total pool ss) in
    elim (Bool-cases (eqb_ℤ s.outcome winning)) [
      | inl backed ↦ rw backed ((omega arith, ground (arith, str_eq_iff s.user_id s.user_id)), rest)
      | inr other ↦ rw other rest
    ]

exact_payouts-IsCovered :
    (winning count : ℤ) (ss : List Stake)
    → All (IsValidStake count) ss
    → IsCovered ss (exact_payouts winning ss)
exact_payouts-IsCovered winning count ss v = elim (Bool-cases (total_backing winning ss == 0)) [
  | inl nobody ↦ rw nobody (full_refunds-IsCovered ss (valid-nonneg count ss v))
  | inr somebody ↦
      rw somebody (floor_shares-IsCovered winning (total_staked ss) (total_backing winning ss) ss)
]

-- The row of one player, in a result for these stakes.
abbrev pub Reveals : List Stake → Str → Settlement → Type 0
Reveals ss u r =
    row_of u r.results
    ≡ (if has_stake u ss then some (fair_row u (staked_by u ss) (paid_to u r.payouts)) else none)

exact-Reveals :
    (winning count : ℤ) (ss : List Stake) (u : Str)
    → All (IsValidStake count) ss
    → total_staked ss ≤ max_total
    → Reveals ss u (exact_settlement winning ss)
exact-Reveals winning count ss u v h =
    player_results_lem u ss (exact_payouts winning ss) (valid-nonneg count ss v)
      (exact_payouts-IsCovered winning count ss v) (λ w. omega (arith, staked_by-le w ss))
      (omega (arith, paid_to-le u (exact_payouts winning ss), paid_le_staked winning ss))

-- In the result of `Settle` on valid stakes within the bound, every player that staked has one row
-- that is found by its ID, with the sum of its stakes, the sum of its payouts and their
-- difference, and nobody else has a row.
pub settle-Reveals :
    (ss : List Stake) (winning count : ℤ) (r : Settlement) (u : Str)
    → All (IsValidStake count) ss
    → total_staked ss ≤ max_total
    → settle ss winning count ≡ ok r
    → Reveals ss u r
settle-Reveals ss winning count r u v h e =
    subst (Reveals ss u) (settle_result ss winning count r v h e)
      (exact-Reveals winning count ss u v h)
