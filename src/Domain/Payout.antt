-- ===== src/Domain/Payout.antt =====
-- domain/payout.go: the pari-mutuel settlement of a round, as the code computes it.
pub mod Exact
pub mod Conservation
pub mod Results
pub mod Reveal
pub mod Backers
use call_it.Prelude.{
  ℤ, pos, Str, str_eq, List, [], ◌∷◌, Bool, true, false, ◌≡◌, not, ◌||◌, leb_ℤ, eqb_ℤ, add64, sub64,
  mul64, quot64, if◌then◌else◌, Result, ok, err, ◌>>=◌, ◌>>◌,
}
use call_it.Domain.Economy.{Tokens, Error, invalid_stake}
use call_it.Domain.Round.{validate_outcome_index}

pub record Stake : Type 0 where
  pub user_id : Str
  pub outcome : ℤ
  pub amount : Tokens

pub record Payout : Type 0 where
  pub user_id : Str
  pub amount : Tokens

pub record PlayerResult : Type 0 where
  pub user_id : Str
  pub staked : Tokens
  pub returned : Tokens
  pub net : Tokens

pub record Settlement : Type 0 where
  pub payouts : List Payout
  pub results : List PlayerResult
  pub dust : Tokens
  pub was_refunded : Bool

-- The first loop of `Settle`: checks each stake, and adds up the total and the winning pool.
unfoldable pub tally : ℤ → ℤ → List Stake → Tokens → Tokens → Result Error (Tokens × Tokens)
tally winning count [] total pool = ok (total, pool)
tally winning count (s ∷ ss) total pool =
    let rest =
      tally winning count ss (add64 total s.amount)
        (if eqb_ℤ s.outcome winning then add64 pool s.amount else pool) in
    if leb_ℤ s.amount (pos 0)
    then err invalid_stake
    else (validate_outcome_index s.outcome count >> rest)

-- The loop of the refund branch: the payouts, and what has been paid.
unfoldable pub pay_refunds : List Stake → Tokens → List Payout × Tokens
pay_refunds [] paid = ([], paid)
pay_refunds (s ∷ ss) paid =
    let (payouts, all) = pay_refunds ss (add64 paid s.amount) in
    (record { user_id = s.user_id; amount = s.amount } ∷ payouts, all)

-- `s.Amount * total / winningPool`
unfoldable pub winner_share : Tokens → Tokens → Tokens → Tokens
winner_share amount total pool = quot64 (mul64 amount total) pool

-- The loop of the other branch, which skips the stakes on other outcomes.
unfoldable pub pay_winners : ℤ → Tokens → Tokens → List Stake → Tokens → List Payout × Tokens
pay_winners winning total pool [] paid = ([], paid)
pay_winners winning total pool (s ∷ ss) paid =
    let share = winner_share s.amount total pool in
    let skipped = pay_winners winning total pool ss paid in
    let rest = pay_winners winning total pool ss (add64 paid share) in
    if eqb_ℤ s.outcome winning
    then (record { user_id = s.user_id; amount = share } ∷ rest.0, rest.1)
    else skipped

-- The `index` map of `playerResults` holds, for each user, the place of the user's row; the rows
-- themselves are searched here. A user with no row gets one at the end.
unfoldable pub add_staked : Str → Tokens → List PlayerResult → List PlayerResult
add_staked user amount [] =
    record { user_id = user; staked = add64 (pos 0) amount; returned = pos 0; net = pos 0 } ∷ []
add_staked user amount (r ∷ rs) =
    if str_eq r.user_id user
    then record r { staked = add64 r.staked amount } ∷ rs
    else r ∷ add_staked user amount rs

unfoldable pub has_row : Str → List PlayerResult → Bool
has_row user [] = false
has_row user (r ∷ rs) = str_eq r.user_id user || has_row user rs

unfoldable pub add_returned_found : Str → Tokens → List PlayerResult → List PlayerResult
add_returned_found user amount [] = []
add_returned_found user amount (r ∷ rs) =
    if str_eq r.user_id user
    then record r { returned = add64 r.returned amount } ∷ rs
    else r ∷ add_returned_found user amount rs

-- A missing key of the map reads as place 0. (With no row at all the code would panic.)
unfoldable pub add_returned : Str → Tokens → List PlayerResult → List PlayerResult
add_returned user amount [] = []
add_returned user amount (r ∷ rs) =
    if has_row user (r ∷ rs)
    then add_returned_found user amount (r ∷ rs)
    else record r { returned = add64 r.returned amount } ∷ rs

unfoldable pub staked_rows : List Stake → List PlayerResult → List PlayerResult
staked_rows [] rs = rs
staked_rows (s ∷ ss) rs = staked_rows ss (add_staked s.user_id s.amount rs)

unfoldable pub returned_rows : List Payout → List PlayerResult → List PlayerResult
returned_rows [] rs = rs
returned_rows (p ∷ ps) rs = returned_rows ps (add_returned p.user_id p.amount rs)

unfoldable pub net_rows : List PlayerResult → List PlayerResult
net_rows [] = []
net_rows (r ∷ rs) = record r { net = sub64 r.returned r.staked } ∷ net_rows rs

unfoldable pub player_results : List Stake → List Payout → List PlayerResult
player_results stakes payouts = net_rows (returned_rows payouts (staked_rows stakes []))

-- What follows the first loop of `Settle`.
unfoldable pub settle_pools : List Stake → ℤ → Tokens → Tokens → Settlement
settle_pools stakes winning total pool =
    let was_refunded = eqb_ℤ pool (pos 0) in
    let (payouts, paid) =
      if was_refunded
      then pay_refunds stakes (pos 0)
      else pay_winners winning total pool stakes (pos 0) in
    record {
      payouts = payouts;
      results = player_results stakes payouts;
      dust = sub64 total paid;
      was_refunded = was_refunded;
    }

unfoldable pub settle : List Stake → ℤ → ℤ → Result Error Settlement
settle stakes winning count =
    validate_outcome_index winning count
    >> (tally winning count stakes (pos 0) (pos 0) >>= λ sums.
        ok (settle_pools stakes winning sums.0 sums.1))
