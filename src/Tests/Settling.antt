-- ===== src/Tests/Settling.antt =====
-- domain: settlements, sessions, refills and round statuses at concrete inputs.
use call_it.Prelude.{pos, bytes, List, [], ◌∷◌, All, ◌≡◌, refl, arith, ok}
use call_it.Domain.Wallet.{validate_buy_in}
use call_it.Domain.Payout.{Stake, settle}
use call_it.Domain.Payout.Exact.{IsValidStake}
use call_it.Domain.Payout.Conservation.{Conserves, exact_settlement, settle_exact, settle-Conserves}
use call_it.Domain.Payout.Reveal.{Reveals, settle-Reveals}

-- Two backers of the winner and one of the other outcome; the total does not divide evenly.
abbrev pub three_stakes : List Stake
three_stakes =
    record { user_id = bytes "ann"; outcome = pos 0; amount = pos 10 }
    ∷ record { user_id = bytes "bob"; outcome = pos 1; amount = pos 7 }
    ∷ record { user_id = bytes "cy"; outcome = pos 0; amount = pos 10 }
    ∷ []

pub three_stakes-All : All (IsValidStake (pos 2)) three_stakes
three_stakes-All = (
  (omega arith, omega arith, omega arith),
  ((omega arith, omega arith, omega arith), ((omega arith, omega arith, omega arith), tt)),
)

settle_exact_example :
    settle three_stakes (pos 0) (pos 2) ≡ ok (exact_settlement (pos 0) three_stakes)
settle_exact_example =
    settle_exact three_stakes (pos 0) (pos 2) (omega arith) (omega arith) three_stakes-All
      (omega arith)

pub three_stakes-settle :
    settle three_stakes (pos 0) (pos 2) ≡ ok (exact_settlement (pos 0) three_stakes)
three_stakes-settle =
    settle_exact three_stakes (pos 0) (pos 2) (omega arith) (omega arith) three_stakes-All
      (omega arith)

settle-Conserves_example : Conserves three_stakes (exact_settlement (pos 0) three_stakes)
settle-Conserves_example =
    settle-Conserves three_stakes (pos 0) (pos 2) (exact_settlement (pos 0) three_stakes)
      three_stakes-All (omega arith) three_stakes-settle

settle-Reveals_example : Reveals three_stakes (bytes "bob") (exact_settlement (pos 0) three_stakes)
settle-Reveals_example =
    settle-Reveals three_stakes (pos 0) (pos 2) (exact_settlement (pos 0) three_stakes)
      (bytes "bob") three_stakes-All (omega arith) three_stakes-settle

small_buy_in : validate_buy_in (pos 100) ≡ ok tt
unfolding validate_buy_in
small_buy_in = refl
