-- ===== src/Domain/Refill.antt =====
-- domain/refill.go: who may claim a refill, and how much it brings.
use call_it.Prelude.{
  ℤ, pos, ◌≡◌, arith, ◌+ℤ◌, ◌<ℤ◌, ◌≤ℤ◌, leb_ℤ, ltb_ℤ, sub64, wrap, if◌then◌else◌, Result, Done, ok,
  err, ◌↔◌, ◌-ℤ◌,
}
use call_it.Domain.Economy.{
  Tokens, Error, refill_not_eligible, refill_quota_exhausted, refill_target, refill_quota,
}

unfoldable pub can_refill : Tokens → ℤ → Result Error Done
can_refill balance claims_in_window =
    if leb_ℤ refill_target balance
    then err refill_not_eligible
    else if leb_ℤ refill_quota claims_in_window
    then err refill_quota_exhausted
    else ok tt

unfoldable pub refill_amount : Tokens → Tokens
refill_amount balance = if leb_ℤ refill_target balance then pos 0 else sub64 refill_target balance

-- A refill may be claimed exactly when the balance lies below the target and fewer claims than the
-- quota stand in the window; and for a balance of zero or more the refill is not negative, and brings
-- a balance below the target to exactly the target and leaves any other as it is.
pub refill_reaches_target :
    (balance : Tokens) (claims : ℤ)
    → pos 0 ≤ℤ balance
    → ((can_refill balance claims ≡ ok tt)
        ↔ ((balance <ℤ refill_target) × (claims <ℤ refill_quota)))
      × (pos 0 ≤ℤ refill_amount balance)
      × (balance +ℤ refill_amount balance
          ≡ (if ltb_ℤ balance refill_target then refill_target else balance))
unfolding can_refill refill_amount sub64 wrap ◌-ℤ◌ ◌+ℤ◌
refill_reaches_target balance claims h = ground arith
