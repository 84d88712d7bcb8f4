-- ===== src/Domain/Payout/Results.antt =====
-- The reveal: one row for each player, with what it committed and what came back.
use call_it.Prelude.{
  ℕ, ◌+◌, ◌^◌, ◌<◌, ℤ, pos, pos_part, ◌≤ℤ◌, add64, sub64, List, [], ◌∷◌, All, ◌≡◌, refl,
  if◌then◌else◌, Bool, true, false, ◌||◌, Option, none, some, arith, Bool-cases, inl, inr, Str,
  str_eq, str_eq_iff, negsuc,
}
use call_it.Domain.Economy.{Tokens}
use call_it.Domain.Payout.{
  Stake, Payout, PlayerResult, add_staked, has_row, add_returned_found, add_returned, staked_rows,
  returned_rows, net_rows,
}
use call_it.Domain.Payout.Exact.{add64_pos}

-- A player's row, if there is one.
abbrev pub row_of : Str → List PlayerResult → Option PlayerResult
row_of user [] = none
row_of user (r ∷ rs) = if str_eq r.user_id user then some r else row_of user rs

abbrev pub has_stake : Str → List Stake → Bool
has_stake user [] = false
has_stake user (s ∷ ss) = str_eq s.user_id user || has_stake user ss

-- What one player committed, over all its stakes.
abbrev pub staked_by : Str → List Stake → ℕ
staked_by user [] = 0
staked_by user (s ∷ ss) =
    if str_eq s.user_id user then pos_part s.amount + staked_by user ss else staked_by user ss

-- What came back to one player, over all payouts.
abbrev pub paid_to : Str → List Payout → ℕ
paid_to user [] = 0
paid_to user (p ∷ ps) =
    if str_eq p.user_id user then pos_part p.amount + paid_to user ps else paid_to user ps

abbrev pub bumped : Str → Tokens → Option PlayerResult → PlayerResult
bumped user amount none = record {
  user_id = user;
  staked = add64 (pos 0) amount;
  returned = pos 0;
  net = pos 0;
}
bumped user amount (some r) = record r { staked = add64 r.staked amount }

row_of-add_staked :
    (u v : Str) (a : Tokens) (rs : List PlayerResult)
    → row_of u (add_staked v a rs)
      ≡ (if str_eq v u then some (bumped v a (row_of v rs)) else row_of u rs)
unfolding add_staked
row_of-add_staked u v a [] = ground arith
row_of-add_staked u v a (r ∷ rs) = ground (
  arith,
  row_of-add_staked u v a rs,
  str_eq_iff r.user_id v,
  str_eq_iff r.user_id u,
  str_eq_iff v u,
)

abbrev pub credited : Tokens → Option PlayerResult → Option PlayerResult
credited amount none = none
credited amount (some r) = some (record r { returned = add64 r.returned amount })

row_of-add_returned_found :
    (u v : Str) (a : Tokens) (rs : List PlayerResult)
    → row_of u (add_returned_found v a rs)
      ≡ (if str_eq v u then credited a (row_of v rs) else row_of u rs)
unfolding add_returned_found
row_of-add_returned_found u v a [] = ground arith
row_of-add_returned_found u v a (r ∷ rs) = ground (
  arith,
  row_of-add_returned_found u v a rs,
  str_eq_iff r.user_id v,
  str_eq_iff r.user_id u,
  str_eq_iff v u,
)

has_row-row_of : (u : Str) (rs : List PlayerResult) → has_row u rs ≡ false → row_of u rs ≡ none
unfolding has_row
has_row-row_of u [] h = refl
has_row-row_of u (r ∷ rs) h = ground (arith, has_row-row_of u rs)

pub row_of-add_returned :
    (u v : Str) (a : Tokens) {r : PlayerResult} (rs : List PlayerResult)
    → row_of v rs ≡ some r
    → row_of u (add_returned v a rs)
      ≡ (if str_eq v u then credited a (row_of v rs) else row_of u rs)
unfolding add_returned
row_of-add_returned u v a [] h = cc
row_of-add_returned u v a (r ∷ rs) h =
    ground (arith, row_of-add_returned_found u v a (r ∷ rs), has_row-row_of v (r ∷ rs))

abbrev pub netted : Option PlayerResult → Option PlayerResult
netted none = none
netted (some r) = some (record r { net = sub64 r.returned r.staked })

pub row_of-net_rows :
    (u : Str) (rs : List PlayerResult) → row_of u (net_rows rs) ≡ netted (row_of u rs)
unfolding net_rows
row_of-net_rows u [] = refl
row_of-net_rows u (r ∷ rs) = ground (arith, row_of-net_rows u rs)

add64_nonneg :
    (a : ℕ) (z : ℤ) → pos 0 ≤ℤ z → a + pos_part z < 2 ^ 63 → add64 (pos a) z ≡ pos (a + pos_part z)
add64_nonneg a (pos n) h k = add64_pos a n k
add64_nonneg a (negsuc n) h k = absurd (omega arith)

staked_rows-some :
    (u : Str) (ss : List Stake) (rs : List PlayerResult) (r : PlayerResult) (a : ℕ)
    → All (λ s. pos 0 ≤ℤ s.amount) ss
    → row_of u rs ≡ some r
    → r.staked ≡ pos a
    → a + staked_by u ss < 2 ^ 63
    → row_of u (staked_rows ss rs) ≡ some (record r { staked = pos (a + staked_by u ss) })
unfolding staked_rows
staked_rows-some u [] rs r a v e s h = ground arith
staked_rows-some u (t ∷ ss) rs r a (v, vs) e s h = elim (Bool-cases (str_eq t.user_id u)) [
  | inl same ↦ ground (
    arith,
    row_of-add_staked u t.user_id t.amount rs,
    str_eq_iff t.user_id u,
    add64_nonneg a t.amount v,
    staked_rows-some u ss (add_staked t.user_id t.amount rs)
        (record r { staked = pos (a + pos_part t.amount) }) (a + pos_part t.amount) vs,
  )
  | inr other ↦ ground (
    arith,
    row_of-add_staked u t.user_id t.amount rs,
    staked_rows-some u ss (add_staked t.user_id t.amount rs) r a vs,
  )
]

abbrev pub fresh_row : Str → ℕ → PlayerResult
fresh_row user a = record { user_id = user; staked = pos a; returned = pos 0; net = pos 0 }

pub staked_rows-none :
    (u : Str) (ss : List Stake) (rs : List PlayerResult)
    → All (λ s. pos 0 ≤ℤ s.amount) ss
    → row_of u rs ≡ none
    → staked_by u ss < 2 ^ 63
    → row_of u (staked_rows ss rs)
      ≡ (if has_stake u ss then some (fresh_row u (staked_by u ss)) else none)
unfolding staked_rows
staked_rows-none u [] rs v e h = ground arith
staked_rows-none u (t ∷ ss) rs (v, vs) e h = elim (Bool-cases (str_eq t.user_id u)) [
  | inl same ↦ ground (
    arith,
    row_of-add_staked u t.user_id t.amount rs,
    str_eq_iff t.user_id u,
    add64_nonneg 0 t.amount v,
    staked_rows-some u ss (add_staked t.user_id t.amount rs) (fresh_row u (pos_part t.amount))
        (pos_part t.amount) vs,
  )
  | inr other ↦ ground (
    arith,
    row_of-add_staked u t.user_id t.amount rs,
    staked_rows-none u ss (add_staked t.user_id t.amount rs) vs,
  )
]

-- Every player with a stake has a row.
abbrev pub HasRows : List Stake → List PlayerResult → Type 0
HasRows ss rs = (u : Str) → has_stake u ss ≡ true → (r : PlayerResult) × (row_of u rs ≡ some r)

pub add_returned-HasRows :
    (ss : List Stake) (v : Str) (a : Tokens) (rs : List PlayerResult)
    → has_stake v ss ≡ true
    → HasRows ss rs
    → HasRows ss (add_returned v a rs)
add_returned-HasRows ss v a rs hv h u hu =
    let (rv, ev) = h v hv in
    let (ru, eu) = h u hu in
    elim (Bool-cases (str_eq v u)) [
      | inl same ↦ (
        record rv { returned = add64 rv.returned a },
        ground (arith, row_of-add_returned u v a rs ev),
      )
      | inr other ↦ (ru, ground (arith, row_of-add_returned u v a rs ev))
    ]

pub returned_rows_lem :
    (ss : List Stake) (u : Str) (ps : List Payout) (rs : List PlayerResult) (r : PlayerResult)
    (a : ℕ)
    → All (λ p. (pos 0 ≤ℤ p.amount) × (has_stake p.user_id ss ≡ true)) ps
    → HasRows ss rs
    → row_of u rs ≡ some r
    → r.returned ≡ pos a
    → a + paid_to u ps < 2 ^ 63
    → row_of u (returned_rows ps rs) ≡ some (record r { returned = pos (a + paid_to u ps) })
unfolding returned_rows
returned_rows_lem ss u [] rs r a v hr e s h = ground arith
returned_rows_lem ss u (p ∷ ps) rs r a ((v, hp), vs) hr e s h =
    let (rv, ev) = hr p.user_id hp in
    let next = add_returned p.user_id p.amount rs in
    let keep = add_returned-HasRows ss p.user_id p.amount rs hp hr in
    elim (Bool-cases (str_eq p.user_id u)) [
      | inl same ↦ ground (
        arith,
        row_of-add_returned u p.user_id p.amount rs ev,
        str_eq_iff p.user_id u,
        add64_nonneg a p.amount v,
        returned_rows_lem ss u ps next (record r { returned = pos (a + pos_part p.amount) })
            (a + pos_part p.amount) vs keep,
      )
      | inr other ↦ ground (
        arith,
        row_of-add_returned u p.user_id p.amount rs ev,
        returned_rows_lem ss u ps next r a vs keep,
      )
    ]
