-- ===== src/Domain/Odds.antt =====
-- domain/odds.go: the multipliers that are shown. Floats are a parameter.
use call_it.Prelude.{pos, leb_ℤ, List, map, if◌then◌else◌}
use call_it.Domain.Economy.{Tokens}

-- Go's float64, as far as the odds use it.
pub record Float64 : Type 1 where
  pub Float : Type 0
  pub zero_float : Float
  pub of_tokens : Tokens → Float
  pub divide : Float → Float → Float

module _ (floats : Float64) where
  open floats use {Float, zero_float, of_tokens, divide}

  unfoldable pub multiplier : Tokens → Tokens → Float
  multiplier total pool =
      if leb_ℤ pool (pos 0) then zero_float else divide (of_tokens total) (of_tokens pool)

  unfoldable pub multipliers : Tokens → List Tokens → List Float
  unfolding multiplier
  multipliers total pools = map (multiplier total) pools
