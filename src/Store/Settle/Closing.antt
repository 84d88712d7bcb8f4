-- ===== src/Store/Settle/Closing.antt =====
-- What the terminal scripts do: one transition out of `locked`, every payout credited, one event.
use call_it.Store.Rounds.{resolved_outcome_field}
use call_it.Prelude.{
  ℕ, ◌+◌, ◌<◌, ◌^◌, ℤ, pos, pos_part, ◌+ℤ◌, ◌≤ℤ◌, Str, str_eq, str_eq_iff, Option, none, some, ◌≡◌,
  arith, ok, List, [], ◌∷◌, Bool, true, false, if◌then◌else◌, refl, All, ◌∙◌,
}
use call_it.Domain.Payout.{Payout}
use call_it.Domain.Payout.Results.{paid_to}
use call_it.Redis.Keys.{
  Key, Field, name, round, room_wallets, Text, int, str, key_eq, field_eq, is_str,
}
use call_it.Redis.Server.{Redis, Db}
use call_it.Redis.Script.{incremented}
use call_it.Store.PlaceWager.{status_field}
use call_it.Store.Settle.{SettleArgs, settle_entry, credit_all, close_round}

module _ (redis : Redis) where
  open redis use {hashes.{hget, hset}, stream.{entries}}

  -- The amount in a wallet; a missing wallet counts as nothing.
  abbrev pub wallet_of : Option Text → ℕ
  wallet_of (some (int z)) = pos_part z
  wallet_of _ = 0

  -- A wallet that can be credited: it is missing, or holds a number that is not negative.
  abbrev pub IsWallet : Option Text → Type 0
  IsWallet none = Unit
  IsWallet (some (int z)) = pos 0 ≤ℤ z
  IsWallet (some _) = ⊥

  IsWallet-if :
      (b : Bool) (n : ℕ) (w : Option Text)
      → IsWallet w
      → IsWallet (if b then some (int (pos n)) else w)
  IsWallet-if true n w h = omega arith
  IsWallet-if false n w h = h

  incremented-wallet :
      (w : Option Text) (z : ℤ)
      → IsWallet w
      → pos 0 ≤ℤ z
      → wallet_of w + pos_part z < 2 ^ 63
      → incremented redis w z ≡ ok (pos (wallet_of w + pos_part z))
  unfolding incremented ◌+ℤ◌
  incremented-wallet none z i n h = ground arith
  incremented-wallet (some (int y)) z i n h = ground arith
  incremented-wallet (some _) z i n h = absurd i

  -- The hashes after the credits.
  unfoldable pub credited : Str → List Payout → redis.hashes.T → redis.hashes.T
  credited room_id [] t = t
  credited room_id (p ∷ ps) t = credited room_id ps (
      hset (room_wallets room_id) (name p.user_id)
        (int (pos (wallet_of (hget (room_wallets room_id) (name p.user_id) t) + pos_part p.amount)))
        t)

  -- The payouts are not negative, the wallets hold numbers, and the credits fit in them.
  pub record CanCredit (room_id : Str) (ps : List Payout) (t : redis.hashes.T) : Type 0 where
    pub amounts : All (λ p. pos 0 ≤ℤ p.amount) ps
    pub wallets : (u : Str) → IsWallet (hget (room_wallets room_id) (name u) t)
    pub room_left :
        (u : Str) → wallet_of (hget (room_wallets room_id) (name u) t) + paid_to u ps < 2 ^ 63

  module _ (room_id : Str) (p : Payout) (ps : List Payout) (t : redis.hashes.T) where
    abbrev next : redis.hashes.T
    next =
        hset (room_wallets room_id) (name p.user_id)
          (int
            (pos (wallet_of (hget (room_wallets room_id) (name p.user_id) t) + pos_part p.amount)))
          t

    hget-next :
        (u : Str)
        → hget (room_wallets room_id) (name u) next ≡ (
            if str_eq p.user_id u
            then some (
                int (
                  pos (
                    wallet_of (hget (room_wallets room_id) (name p.user_id) t)
                    + pos_part p.amount)))
            else hget (room_wallets room_id) (name u) t)
    unfolding key_eq field_eq
    hget-next u = rw redis.hashes.hget-hset (ground (arith, str_eq_iff room_id room_id))

    wallet_of-next :
        (u : Str)
        → wallet_of (hget (room_wallets room_id) (name u) next)
          ≡ wallet_of (hget (room_wallets room_id) (name u) t)
            + (if str_eq p.user_id u then pos_part p.amount else 0)
    wallet_of-next u = ground (arith, hget-next u, str_eq_iff p.user_id u)

    next-CanCredit : CanCredit room_id (p ∷ ps) t → CanCredit room_id ps next
    next-CanCredit c = record {
      amounts = c.amounts.1;
      wallets = λ u. rw hget-next (IsWallet-if (str_eq p.user_id u) _ _ (c.wallets u));
      room_left = λ u. ground (arith, wallet_of-next u, c.room_left u);
    }

  pub wallet_of-credited :
      (room_id : Str) (ps : List Payout) (t : redis.hashes.T) (u : Str)
      → wallet_of (hget (room_wallets room_id) (name u) (credited room_id ps t))
        ≡ wallet_of (hget (room_wallets room_id) (name u) t) + paid_to u ps
  unfolding credited
  wallet_of-credited room_id [] t u = omega arith
  wallet_of-credited room_id (p ∷ ps) t u = ground (
    arith,
    wallet_of-credited room_id ps (next room_id p ps t) u,
    wallet_of-next room_id p ps t u,
  )

  pub hget-credited :
      (room_id : Str) (ps : List Payout) (t : redis.hashes.T) (j : Key) (g : Field)
      → key_eq (room_wallets room_id) j ≡ false
      → hget j g (credited room_id ps t) ≡ hget j g t
  unfolding credited
  hget-credited room_id [] t j g h = refl
  hget-credited room_id (p ∷ ps) t j g h =
      hget-credited room_id ps (next room_id p ps t) j g h
      ∙ redis.hashes.hget-hset _ j _ g _ t
      ∙ rw h refl

  credit_all_lem :
      (room_id : Str) (ps : List Payout) (db : Db redis)
      → CanCredit room_id ps db.hashes
      → credit_all redis room_id ps db
        ≡ (ok tt, record db { hashes = credited room_id ps db.hashes })
  unfolding credit_all credited
  credit_all_lem room_id [] db c = refl
  credit_all_lem room_id (p ∷ ps) db c =
      let wallet = hget (room_wallets room_id) (name p.user_id) db.hashes in
      let step : incremented redis wallet p.amount
          ≡ ok (pos (wallet_of wallet + pos_part p.amount)) =
        incremented-wallet wallet p.amount (c.wallets p.user_id) c.amounts.0
          (ground (arith, str_eq_iff p.user_id p.user_id, c.room_left p.user_id)) in
      ground (
        arith,
        step,
        credit_all_lem room_id ps (record db { hashes = next room_id p ps db.hashes })
            (next-CanCredit room_id p ps db.hashes c),
      )

  -- The hashes after a terminal script.
  unfoldable pub closed : SettleArgs → redis.hashes.T → redis.hashes.T
  closed args t =
      let marked =
        hset (round args.round_id) status_field (str args.terminal_status)
          (credited args.room_id args.payouts t) in
      if is_str args.resolved_outcome []
      then marked
      else hset (round args.round_id) resolved_outcome_field args.resolved_outcome marked

  pub close_round_lem :
      (kind : Str) (args : SettleArgs) (db : Db redis)
      → CanCredit args.room_id args.payouts db.hashes
      → close_round redis kind args db ≡ (
        ok tt,
        record db {
          hashes = closed args db.hashes;
          stream = redis.stream.xadd (settle_entry kind args) db.stream;
        },
      )
  unfolding close_round closed
  close_round_lem kind args db c = ground (arith, credit_all_lem args.room_id args.payouts db c)
