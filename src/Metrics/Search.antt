-- ===== src/Metrics/Search.antt =====
-- `sort.Search` over rising bounds finds the first one that is large enough.
use call_it.Prelude.{
  ℕ, zero, suc, ◌+◌, ◌/◌, ◌<◌, ◌≤◌, leb, ltb, List, [], ◌∷◌, All, length, Bool, Bool-cases, ◌≡◌,
  arith, if◌then◌else◌, inl, inr,
}
use call_it.Metrics.{search, search_loop, bound_at}

abbrev pub IsSorted : List ℕ → Type 0
IsSorted [] = Unit
IsSorted (b ∷ bs) = All (λ c. b ≤ c) bs × IsSorted bs

-- The place of the first bound that is not below `d`.
abbrev pub rank : ℕ → List ℕ → ℕ
rank d [] = 0
rank d (b ∷ bs) = let rest = rank d bs in if leb d b then 0 else suc rest

pub rank-le : (d : ℕ) (bs : List ℕ) → rank d bs ≤ length bs
rank-le d [] = omega arith
rank-le d (b ∷ bs) = ground (arith, rank-le d bs)

bound_at-ge : (b i : ℕ) (bs : List ℕ) → All (λ c. b ≤ c) bs → i < length bs → b ≤ bound_at bs i
bound_at-ge b i [] h lt = absurd (omega arith)
bound_at-ge b zero (c ∷ bs) h lt = h.0
bound_at-ge b (suc i) (c ∷ bs) h lt = bound_at-ge b i bs h.1 (omega arith)

-- The test of the search is that of the rank.
leb-rank :
    (d i : ℕ) (bs : List ℕ)
    → IsSorted bs
    → i < length bs
    → leb d (bound_at bs i) ≡ leb (rank d bs) i
leb-rank d i [] s lt = absurd (omega arith)
leb-rank d zero (b ∷ bs) s lt = ground arith
leb-rank d (suc i) (b ∷ bs) s lt = ground (arith, leb-rank d i bs s.1, bound_at-ge b i bs s.0)

search_loop_lem :
    (fuel : ℕ) (f : ℕ → Bool) (k n i j : ℕ)
    → ((h : ℕ) → h < n → f h ≡ leb k h)
    → i ≤ k
    → k ≤ j
    → j ≤ n
    → j < i + fuel
    → search_loop fuel f i j ≡ k
unfolding search_loop
search_loop_lem zero f k n i j test lo hi top enough = absurd (omega arith)
search_loop_lem (suc fuel) f k n i j test lo hi top enough = elim (Bool-cases (ltb i j)) [
  | inr done ↦ rw done (ground arith)
  | inl more ↦
      let less : i < j = ground arith in
      let mid : (i + j) / 2 < n = omega (arith, less) in
      elim (Bool-cases (f ((i + j) / 2))) [
        | inl yes_there ↦
            let reached : k ≤ (i + j) / 2 = ground (arith, test ((i + j) / 2) mid) in
            rw (more, yes_there)
              (search_loop_lem fuel f k n i ((i + j) / 2) test lo reached (omega (arith, less, top))
                (omega (arith, less)))
        | inr not_there ↦
            let above : (i + j) / 2 < k = ground (arith, test ((i + j) / 2) mid) in
            rw (more, not_there)
              (search_loop_lem fuel f k n ((i + j) / 2 + 1) j test (omega (arith, above)) hi top
                (omega (arith, less)))
      ]
]

pub search-rank :
    (d : ℕ) (bs : List ℕ)
    → IsSorted bs
    → search (length bs) (λ i. leb d (bound_at bs i)) ≡ rank d bs
unfolding search
search-rank d bs s =
    search_loop_lem (suc (length bs)) (λ i. leb d (bound_at bs i)) (rank d bs) (length bs) 0
      (length bs) (λ h lt. leb-rank d h bs s lt) (omega arith) (rank-le d bs) (omega arith)
      (omega arith)
