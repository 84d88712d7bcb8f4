-- ===== src/Tests/Closing.antt =====
-- redisstore and ledger: closing a round, and its event on the way to the ledger.
use call_it.Prelude.{
  All, Result, ◌+◌, pos, negsuc, Str, bytes, str_eq, str_eq_iff, Bool, if◌then◌else◌, ◌<◌, ◌^◌,
  List, [], ◌∷◌, some, none, ◌≡◌, refl, arith, ok, true, false, inl,
}
use call_it.Domain.Payout.{Payout}
use call_it.Domain.Payout.Conservation.{exact_settlement}
use call_it.Domain.Round.{locked}
use call_it.Redis.Keys.{name, round, room_wallets, Text, int, str, key_eq, field_eq}
use call_it.Redis.Server.{Db}
use call_it.Redis.Reference.{reference, fresh}
use call_it.Store.PlaceWager.{status_field}
use call_it.Store.Rounds.{Round}
use call_it.Store.Settle.{SettleArgs, settle_entry, settle_kind, settle_script, settle_args}
use call_it.Store.Settle.Closing.{CanCredit, IsWallet, wallet_of}
use call_it.Store.Settle.Terminal.{
  Closed, Attempt, settling, refunding, attempt, attempts, settle_script_effects,
  terminal_scripts-once,
}
use call_it.Redis.Script.{Fault}
use call_it.Events.{Event, RoundSettled, decode}
use call_it.Ledger.{Transaction, transaction_for}
use call_it.Ledger.Balance.{net, total_sent, IsInRange}
use call_it.Ledger.Settled.{settle_args-balances}
use call_it.Tests.Settling.{three_stakes, three_stakes-All, three_stakes-settle}

abbrev one_payout : List Payout
one_payout = record { user_id = bytes "ann"; amount = pos 12 } ∷ []

-- A locked round, and one wallet with 5 tokens.
abbrev locked_db : Db reference
locked_db = record fresh {
  hashes = reference.hashes.hset (round (bytes "q")) status_field (str (bytes "locked")) (
      reference.hashes.hset (room_wallets (bytes "r")) (name (bytes "ann")) (int (pos 5))
        fresh.hashes);
}

is_locked :
    reference.hashes.hget (round (bytes "q")) status_field locked_db.hashes
    ≡ some (str (bytes "locked"))
unfolding key_eq field_eq str_eq
is_locked = refl

wallet-cases :
    (u : Str)
    → (reference.hashes.hget (room_wallets (bytes "r")) (name u) locked_db.hashes)
      ≡ (if str_eq u (bytes "ann") then some (int (pos 5)) else none)
unfolding key_eq field_eq
wallet-cases u = ground (
  arith,
  str_eq_iff (bytes "r") (bytes "r"),
  str_eq_iff u (bytes "ann"),
  str_eq_iff (bytes "ann") u,
)

some-IsWallet : (b : Bool) → IsWallet reference (if b then some (int (pos 5)) else none)
some-IsWallet true = omega arith
some-IsWallet false = tt

small_wallet :
    (b c : Bool)
    → wallet_of reference (if b then some (int (pos 5)) else none) + (if c then 12 else 0) < 2 ^ 63
small_wallet true true = omega arith
small_wallet true false = omega arith
small_wallet false true = omega arith
small_wallet false false = omega arith

can_credit : CanCredit reference (bytes "r") one_payout locked_db.hashes
can_credit = record {
  amounts = (omega arith, tt);
  wallets = λ u. rw (wallet-cases u) (some-IsWallet (str_eq u (bytes "ann")));
  room_left =
      λ u. rw (wallet-cases u) (small_wallet (str_eq u (bytes "ann")) (str_eq (bytes "ann") u));
}

abbrev settling_args : SettleArgs
settling_args = record {
  terminal_status = bytes "resolved";
  resolved_outcome = int (pos 0);
  dust = pos 0;
  idempotency_key = bytes "k";
  round_id = bytes "q";
  room_id = bytes "r";
  total = pos 12;
  payouts = one_payout;
}

settle_script_effects_example :
    ((settle_script reference settling_args locked_db).0 ≡ ok (str (bytes "OK") ∷ int (pos 1) ∷ []))
    × Closed reference
        (settle_kind reference settling_args)
        settling_args
        locked_db
        (settle_script reference settling_args locked_db).1
settle_script_effects_example =
    settle_script_effects reference settling_args locked_db is_locked can_credit

-- After the settlement comes a refund, and a settlement again.
abbrev later : List Attempt
later = refunding (bytes "k2") (bytes "r") (pos 12) one_payout ∷ settling settling_args ∷ []

abbrev ended : List (Result Fault (List Text)) × Db reference
ended =
    attempts reference (bytes "q") later
      (attempt reference (bytes "q") (settling settling_args) locked_db).1

terminal_scripts-once_example :
    Closed reference (settle_kind reference settling_args) settling_args locked_db ended.1
    × All (λ r. r ≡ ok (str (bytes "ALREADY_RESOLVED") ∷ str (bytes "resolved") ∷ [])) ended.0
terminal_scripts-once_example =
    terminal_scripts-once reference (bytes "q") (settling settling_args) later locked_db (inl refl)
      is_locked can_credit

abbrev plain : Text → Str
plain (str s) = s
plain _ = []

abbrev locked_round : Round
locked_round = record {
  id = bytes "q";
  room_id = bytes "r";
  question = bytes "who";
  outcomes = bytes "a" ∷ bytes "b" ∷ [];
  status = locked;
  lock_at_ms = pos 9000;
  outcome_count = pos 2;
  resolved_outcome = negsuc 0;
}

abbrev three_settled : SettleArgs
three_settled =
    settle_args reference locked_round three_stakes (pos 0) (bytes "k")
      (exact_settlement (pos 0) three_stakes)

settle_args-balances_example :
    (ev : Event) × (t : Transaction) × (decode plain
        (settle_entry (settle_kind reference three_settled) three_settled)
      ≡ ok ev)
    × (transaction_for ev ≡ ok t)
    × (net t.entries ≡ pos 0)
settle_args-balances_example =
    settle_args-balances reference locked_round three_stakes (pos 0) (bytes "k")
      (exact_settlement (pos 0) three_stakes) plain three_stakes-All (omega arith)
      three_stakes-settle (λ s. refl) refl

abbrev one_settled : RoundSettled
one_settled = record {
  room_id = bytes "r";
  round_id = bytes "q";
  idempotency_key = bytes "k";
  winning_outcome = pos 0;
  total = pos 13;
  dust = pos 1;
  payouts = record { user_id = bytes "ann"; amount = pos 12 } ∷ [];
  refunded = false;
}

one_settled-IsInRange : IsInRange one_settled
unfolding total_sent
one_settled-IsInRange = record {
  amounts = (omega arith, tt);
  dust = omega arith;
  sum = omega arith;
}
