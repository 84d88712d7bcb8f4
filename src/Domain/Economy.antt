-- ===== src/Domain/Economy.antt =====
-- domain/tokens.go, errors.go and economy.go: the unit of currency, the failures, the constants.
use call_it.Prelude.{ℤ, pos}

-- `type Tokens int64`; arithmetic on it wraps (`add64` and its kin).
abbrev pub Tokens : Type 0
Tokens = ℤ

-- The sentinel errors of the package. The text that `fmt.Errorf` adds to one is not modelled.
pub data Error : Type 0 where
  invalid_transition invalid_outcome_count invalid_outcome : Error
  invalid_buy_in invalid_stake insufficient_funds : Error
  refill_not_eligible refill_quota_exhausted : Error

abbrev pub starting_balance : Tokens
starting_balance = pos 1000

abbrev pub refill_target : Tokens
refill_target = pos 1000

abbrev pub refill_quota : ℤ
refill_quota = pos 3

abbrev pub min_buy_in : Tokens
min_buy_in = pos 100

abbrev pub max_buy_in : Tokens
max_buy_in = pos 10000

abbrev pub stake_cap_multiple : Tokens
stake_cap_multiple = pos 3
