-- ===== src/Ledger/Settled.antt =====
-- From a settlement in the store to a transaction of the ledger.
use call_it.Prelude.{
  ℕ, ◌+◌, ◌≤◌, ℤ, pos, negsuc, pos_part, ◌+ℤ◌, ◌≤ℤ◌, Str, str_eq, bytes, List, [], ◌∷◌, true, false,
  ◌≡◌, refl, ◌∙◌, arith, ok, All, Bool-cases, Result-cases, inl, inr, ap, if◌then◌else◌, sym,
}
use mathlib.Core.Path.{subst}
use call_it.Domain.Payout.{Stake, Payout, Settlement, settle}
use call_it.Domain.Payout.Exact.{
  IsValidStake, total_staked, total_paid, total_backing, max_total, full_refunds, floor_shares,
}
use call_it.Domain.Payout.Conservation.{settle-Conserves, settle_result, exact_payouts}
use call_it.Redis.Keys.{Text, str}
use call_it.Redis.Server.{Redis, fits}
use call_it.Store.Rounds.{Round}
use call_it.Store.Settle.Whole.{sum_stakes_exact}
use call_it.Store.Settle.{SettleArgs, settle_entry, settle_kind, settle_args, sum_stakes}
use call_it.Events.{RoundSettled, Event, round_settled, decode}
use call_it.Events.Outbox.{
  sent_payouts, sent_settlement, decode-settled_entry, decode-refunded_entry,
}
use call_it.Ledger.{Transaction, transaction_for, transaction_for_settlement}
use call_it.Ledger.Balance.{net, total_sent, IsInRange, transaction_for_settlement-balanced}

total_sent-sent_payouts : (ps : List Payout) → total_sent (sent_payouts ps) ≡ total_paid ps
unfolding total_sent
total_sent-sent_payouts [] = refl
total_sent-sent_payouts (p ∷ ps) = omega (arith, total_sent-sent_payouts ps)

sent_payouts-All :
    (ps : List Payout)
    → All (λ p. pos 0 ≤ℤ p.amount) ps
    → All (λ p. pos 0 ≤ℤ p.amount) (sent_payouts ps)
sent_payouts-All [] h = tt
sent_payouts-All (p ∷ ps) (h, hs) = (h, sent_payouts-All ps hs)

full_refunds-All :
    (count : ℤ) (ss : List Stake)
    → All (IsValidStake count) ss
    → All (λ p. pos 0 ≤ℤ p.amount) (full_refunds ss)
full_refunds-All count [] h = tt
full_refunds-All count (s ∷ ss) (h, hs) = (ground arith, full_refunds-All count ss hs)

floor_shares-All :
    (winning : ℤ) (total pool : ℕ) (ss : List Stake)
    → All (λ p. pos 0 ≤ℤ p.amount) (floor_shares winning total pool ss)
floor_shares-All winning total pool [] = tt
floor_shares-All winning total pool (s ∷ ss) =
    ground (arith, floor_shares-All winning total pool ss)

exact_payouts-All :
    (count winning : ℤ) (ss : List Stake)
    → All (IsValidStake count) ss
    → All (λ p. pos 0 ≤ℤ p.amount) (exact_payouts winning ss)
exact_payouts-All count winning ss v = ground (
  arith,
  full_refunds-All count ss v,
  floor_shares-All winning (total_staked ss) (total_backing winning ss) ss,
)

module _ (redis : Redis) where
  module _ (rd : Round) (ss : List Stake) (winning : ℤ) (key : Str) (r : Settlement)
      (v : All (IsValidStake rd.outcome_count) ss) (fits_total : total_staked ss ≤ max_total)
      (settled : settle ss winning rd.outcome_count ≡ ok r) where
    args : SettleArgs
    args = settle_args redis rd ss winning key r

    event : RoundSettled
    event = record {
      room_id = rd.room_id;
      round_id = rd.id;
      idempotency_key = key;
      winning_outcome = if r.was_refunded then negsuc 0 else winning;
      total = sum_stakes redis ss (pos 0);
      dust = r.dust;
      payouts = sent_payouts r.payouts;
      refunded = r.was_refunded;
    }

    payouts-All : All (λ p. pos 0 ≤ℤ p.amount) r.payouts
    payouts-All =
        subst (λ r. All (λ p. pos 0 ≤ℤ p.amount) r.payouts)
          (settle_result ss winning rd.outcome_count r v fits_total settled)
          (exact_payouts-All rd.outcome_count winning ss v)

    conserved : pos_part r.dust + total_paid r.payouts ≡ total_staked ss
    unfolding ◌+ℤ◌
    conserved =
        let (sum, dust, _, _) =
          settle-Conserves ss winning rd.outcome_count r v fits_total settled in
        ground arith

    total-fits : fits args.total ≡ true
    unfolding args settle_args
    total-fits = ground (arith, sum_stakes_exact redis rd.outcome_count ss 0 v)

    dust-fits : fits args.dust ≡ true
    unfolding args settle_args
    dust-fits =
        let (sum, dust, _, _) =
          settle-Conserves ss winning rd.outcome_count r v fits_total settled in
        ground (arith, conserved)

    decoded :
        (text : Text → Str)
        → ((s : Str) → text (str s) ≡ s)
        → fits winning ≡ true
        → decode text (settle_entry (settle_kind redis args) args) ≡ ok (round_settled event)
    unfolding args event settle_args settle_kind str_eq
    decoded text h index = elim (Bool-cases r.was_refunded) [
      | inl refund ↦
          let kind_is : settle_kind redis args ≡ bytes "round_refunded" = rw refund refl in
          let event_is : round_settled event ≡ sent_settlement args (negsuc 0) true =
            rw refund refl in
          ap (λ k. decode text (settle_entry k args)) kind_is
          ∙ decode-refunded_entry text args h (rw refund refl) total-fits dust-fits
          ∙ ap ok (sym event_is)
      | inr paid ↦
          let kind_is : settle_kind redis args ≡ bytes "round_settled" = rw paid refl in
          let event_is : round_settled event ≡ sent_settlement args winning false = rw paid refl in
          ap (λ k. decode text (settle_entry k args)) kind_is
          ∙ decode-settled_entry text args winning h (rw paid refl) index total-fits dust-fits
          ∙ ap ok (sym event_is)
    ]

    event-IsInRange : IsInRange event
    unfolding event
    event-IsInRange = record {
      amounts = sent_payouts-All r.payouts payouts-All;
      dust = (settle-Conserves ss winning rd.outcome_count r v fits_total settled).1;
      sum = omega (arith, conserved, total_sent-sent_payouts r.payouts);
    }

    event-total : event.total ≡ pos (pos_part event.dust + total_sent event.payouts)
    unfolding event
    event-total = ground (
      arith,
      sum_stakes_exact redis rd.outcome_count ss 0 v,
      conserved,
      total_sent-sent_payouts r.payouts,
    )

  -- What a round settles to reaches the ledger in balance: on valid stakes whose total is at most
  -- 3037000499, the outbox entry that SettleRound has its script append decodes to an event, the event
  -- maps to a transaction and is not refused as unbalanced, and the debits of the transaction are its
  -- credits. `text` gives the bytes of a value; the outcome is an int64.
  pub settle_args-balances :
      (rd : Round) (ss : List Stake) (winning : ℤ) (key : Str) (r : Settlement) (text : Text → Str)
      → All (IsValidStake rd.outcome_count) ss
      → total_staked ss ≤ max_total
      → settle ss winning rd.outcome_count ≡ ok r
      → ((s : Str) → text (str s) ≡ s)
      → fits winning ≡ true
      → (ev : Event) × (t : Transaction) × (decode text (
            settle_entry
              (settle_kind redis (settle_args redis rd ss winning key r))
              (settle_args redis rd ss winning key r))
          ≡ ok ev)
        × (transaction_for ev ≡ ok t)
        × (net t.entries ≡ pos 0)
  unfolding args transaction_for
  settle_args-balances rd ss winning key r text v h e plain index =
      let ev = event rd ss winning key r v h e in
      let balance =
        transaction_for_settlement-balanced ev (event-IsInRange rd ss winning key r v h e) in
      elim (Result-cases (transaction_for_settlement ev)) [
        | inr (f, refused) ↦
            absurd (ground (arith, balance.0.1 (event-total rd ss winning key r v h e)))
        | inl (t, mapped) ↦ (
          round_settled ev,
          t,
          decoded rd ss winning key r v h e text plain index,
          mapped,
          balance.1 t mapped,
        )
      ]
