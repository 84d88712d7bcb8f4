-- ===== src/Ledger/Balance.antt =====
-- The transactions of ledger/mapping.go balance.
use call_it.Prelude.{
  ℕ, Bool-cases, inl, inr, ◌+◌, ◌<◌, ◌^◌, ℤ, pos, pos_part, ◌+ℤ◌, ◌-ℤ◌, ◌≤ℤ◌, add64, add64_id,
  int_laws, List, [], ◌∷◌, ◌++◌, true, ◌≡◌, refl, arith, ok, All, is_ok, ◌↔◌, if◌then◌else◌, ltb_ℤ,
}
use call_it.Events.{EventPayout, RoundSettled}
use call_it.Ledger.{
  AccountRef, pool_account, dust_account, LedgerEntry, debit, credit, Transaction, add_payouts,
  payout_entries, settlement_entries, transaction_for_settlement,
}

-- What an entry adds to the credits less the debits.
abbrev pub signed_amount : LedgerEntry → ℤ
signed_amount e = elim e.direction [ debit ↦ pos 0 -ℤ e.amount | credit ↦ e.amount ]

-- The credits less the debits.
unfoldable pub net : List LedgerEntry → ℤ
net [] = pos 0
net (e ∷ es) = signed_amount e +ℤ net es

unfoldable pub total_sent : List EventPayout → ℕ
total_sent [] = 0
total_sent (p ∷ ps) = pos_part p.amount + total_sent ps

+ℤ-zero : (z : ℤ) → z +ℤ pos 0 ≡ z
+ℤ-zero z = omega int_laws

net-++ : (xs ys : List LedgerEntry) → net (xs ++ ys) ≡ net xs +ℤ net ys
unfolding net
net-++ [] ys = omega int_laws
net-++ (x ∷ xs) ys = rw (net-++ xs ys) (omega int_laws)

net-payout_entries :
    (ps : List EventPayout)
    → All (λ p. pos 0 ≤ℤ p.amount) ps
    → net (payout_entries ps) ≡ pos (total_sent ps)
unfolding net payout_entries total_sent ◌+ℤ◌
net-payout_entries [] h = refl
net-payout_entries (p ∷ ps) h = ground (arith, net-payout_entries ps h.1)

add64-pos :
    (n : ℕ) (z : ℤ) → pos 0 ≤ℤ z → n + pos_part z < 2 ^ 63 → add64 (pos n) z ≡ pos (n + pos_part z)
unfolding ◌+ℤ◌
add64-pos n z h b = ground (arith, add64_id (pos n) z (ground arith))

add_payouts_exact :
    (ps : List EventPayout) (n : ℕ)
    → All (λ p. pos 0 ≤ℤ p.amount) ps
    → n + total_sent ps < 2 ^ 63
    → add_payouts ps (pos n) ≡ pos (n + total_sent ps)
unfolding add_payouts total_sent
add_payouts_exact [] n h b = ground arith
add_payouts_exact (p ∷ ps) n h b =
    let step : add64 (pos n) p.amount ≡ pos (n + pos_part p.amount) =
      add64-pos n p.amount h.0 (ground arith) in
    rw step (ground (arith, add_payouts_exact ps (n + pos_part p.amount) h.1 (omega arith)))

-- The amounts of a settlement are not negative, and their sum is an int64.
pub record IsInRange (e : RoundSettled) : Type 0 where
  pub amounts : All (λ p. pos 0 ≤ℤ p.amount) e.payouts
  pub dust : pos 0 ≤ℤ e.dust
  pub sum : pos_part e.dust + total_sent e.payouts < 2 ^ 63

no_debit : (n : ℕ) → n ≡ 0 → net [] ≡ pos 0 -ℤ pos n
unfolding net
no_debit n h = omega (arith, int_laws)

net-debit :
    (a : AccountRef) (n : ℕ)
    → net (
        if ltb_ℤ (pos 0) (pos n)
        then record { account = a; direction = debit; amount = pos n } ∷ []
        else [])
      ≡ pos 0 -ℤ pos n
unfolding net
net-debit a n = elim (Bool-cases (ltb_ℤ (pos 0) (pos n))) [
  | inl owed ↦ rw owed (+ℤ-zero (pos 0 -ℤ pos n))
  | inr nothing ↦ rw nothing (no_debit n (ground arith))
]

net-credit :
    (a : AccountRef) (z : ℤ)
    → pos 0 ≤ℤ z
    → net (
        if ltb_ℤ (pos 0) z then record { account = a; direction = credit; amount = z } ∷ [] else [])
      ≡ pos (pos_part z)
unfolding net
net-credit a z h = ground (arith, +ℤ-zero z)

net-settlement_entries :
    (e : RoundSettled)
    → IsInRange e
    → e.total ≡ pos (pos_part e.dust + total_sent e.payouts)
    → net (settlement_entries e) ≡ pos 0
unfolding settlement_entries
net-settlement_entries e h total = rw total (
    rw
      (
        net-++,
        net-++,
        net-payout_entries e.payouts h.amounts,
        net-credit dust_account e.dust h.dust,
        net-debit (pool_account e.room_id),
      )
      (omega int_laws))

sum_exact :
    (e : RoundSettled)
    → IsInRange e
    → add_payouts e.payouts e.dust ≡ pos (pos_part e.dust + total_sent e.payouts)
sum_exact e h =
    ground (arith, h.dust, add_payouts_exact e.payouts (pos_part e.dust) h.amounts h.sum)

-- A settlement whose amounts are in range is refused as unbalanced exactly when its total is not the
-- payouts and the dust together; otherwise the debits of its transaction are its credits.
pub transaction_for_settlement-balanced :
    (e : RoundSettled)
    → IsInRange e
    → ((is_ok (transaction_for_settlement e) ≡ true)
        ↔ (e.total ≡ pos (pos_part e.dust + total_sent e.payouts)))
      × ((t : Transaction) → transaction_for_settlement e ≡ ok t → net t.entries ≡ pos 0)
unfolding transaction_for_settlement
transaction_for_settlement-balanced e h = ground (arith, sum_exact e h, net-settlement_entries e h)
