-- ===== src/Domain/Wallet.antt =====
-- domain/wallet.go: buy-ins, session balances, stakes and the fold of a session's result.
use call_it.Prelude.{
  ◌⊎◌, pos, ◌≡◌, arith, ◌+ℤ◌, ◌-ℤ◌, ◌<ℤ◌, ◌≤ℤ◌, leb_ℤ, ltb_ℤ, add64, sub64, mul64, wrap, Bool, true,
  ◌||◌, if◌then◌else◌, Result, Done, ok, err, ◌>>◌, ◌↔◌, ◌*ℤ◌, ℕ, ◌≤◌, ◌<◌,
}
use call_it.Domain.Economy.{
  Tokens, Error, invalid_buy_in, invalid_stake, insufficient_funds, min_buy_in, max_buy_in,
  stake_cap_multiple,
}

unfoldable pub validate_buy_in : Tokens → Result Error Done
validate_buy_in buy_in =
    if ltb_ℤ buy_in min_buy_in || ltb_ℤ max_buy_in buy_in then err invalid_buy_in else ok tt

unfoldable pub guest_session_balance : Tokens → Tokens
guest_session_balance room_buy_in = room_buy_in

unfoldable pub account_session_balance : Tokens → Tokens → Tokens
account_session_balance account_balance room_buy_in =
    let limit = mul64 room_buy_in stake_cap_multiple in
    if ltb_ℤ account_balance limit then account_balance else limit

unfoldable pub is_partial_buy_in : Tokens → Tokens → Bool
is_partial_buy_in account_balance room_buy_in = ltb_ℤ account_balance room_buy_in

unfoldable pub validate_stake_amount : Tokens → Result Error Done
validate_stake_amount amount = if leb_ℤ amount (pos 0) then err invalid_stake else ok tt

unfoldable pub validate_stake : Tokens → Tokens → Result Error Done
unfolding validate_stake_amount
validate_stake amount session_balance =
    validate_stake_amount amount
    >> (if ltb_ℤ session_balance amount then err insufficient_funds else ok tt)

unfoldable pub apply_session_result : Tokens → Tokens → Tokens → Tokens
apply_session_result account_balance session_start session_end =
    let updated = add64 account_balance (sub64 session_end session_start) in
    if ltb_ℤ updated (pos 0) then pos 0 else updated

-- In a room with a valid buy-in an account of zero or more brings no more than it holds, no more
-- than the cap of three buy-ins, which is at most 30,000, and all of one of the two; it is a partial buy-in exactly when
-- the account holds less than the buy-in.
pub account_session_balance_bounds :
    (account buy_in : Tokens)
    → pos 0 ≤ℤ account
    → validate_buy_in buy_in ≡ ok tt
    → let brought = account_session_balance account buy_in in
      (pos 0 ≤ℤ brought)
      × (brought ≤ℤ account)
      × (brought ≤ℤ pos 30000)
      × (brought ≤ℤ buy_in *ℤ stake_cap_multiple)
      × ((brought ≡ account) ⊎ (brought ≡ buy_in *ℤ stake_cap_multiple))
      × ((is_partial_buy_in account buy_in ≡ true) ↔ (account <ℤ buy_in))
unfolding account_session_balance validate_buy_in is_partial_buy_in mul64 wrap ◌*ℤ◌
account_session_balance_bounds account buy_in h v = ground arith

-- A stake passes exactly when it is positive and covered by the wallet.
pub validate_stake-ok :
    (amount balance : Tokens)
    → (validate_stake amount balance ≡ ok tt) ↔ ((pos 0 <ℤ amount) × (amount ≤ℤ balance))
unfolding validate_stake
validate_stake-ok amount balance = ground arith

-- The fold of a session moves the account by exactly the session's profit or loss, when the session
-- began with no more than the account holds and neither leaves the range of amounts below 2 ^ 62;
-- the floor at zero is then never met.
pub apply_session_result_exact :
    (account start end : ℕ)
    → start ≤ account
    → account < 4611686018427387904
    → end < 4611686018427387904
    → apply_session_result (pos account) (pos start) (pos end) +ℤ pos start ≡ pos account +ℤ pos end
unfolding apply_session_result add64 sub64 wrap ◌+ℤ◌ ◌-ℤ◌
apply_session_result_exact account start end h a b = ground arith
