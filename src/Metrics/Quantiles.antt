-- ===== src/Metrics/Quantiles.antt =====
-- A quantile is exact up to the bounds.
use mathlib.Core.Path.{subst}
use call_it.Prelude.{
  ℕ, suc, ◌+◌, ◌<◌, ◌≤◌, ◌^◌, leb, ◌==◌, ℤ, pos, negsuc, List, [], ◌∷◌, All, length, true, false,
  Bool-cases, none, some, ◌≡◌, refl, sym, ap, ◌∙◌, arith, if◌then◌else◌, inl, inr,
}
use call_it.Metrics.{
  Histogram, Bound, bound, over_top, bounds, new_histogram, add_u64, add_at, observe, quantile,
  quantile_loop,
}
use call_it.Metrics.Search.{IsSorted, rank, search-rank}

-- The samples that are not negative, and how many of them are within a bound.
abbrev pub kept : List ℤ → List ℕ
kept [] = []
kept (pos d ∷ ds) = d ∷ kept ds
kept (negsuc n ∷ ds) = kept ds

abbrev pub count_le : ℕ → List ℕ → ℕ
count_le b [] = 0
count_le b (d ∷ ds) = let rest = count_le b ds in if leb d b then suc rest else rest

-- The first bound that so many samples are within.
abbrev pub first_bound : ℕ → List ℕ → List ℕ → Bound
first_bound target ds [] = over_top
first_bound target ds (b ∷ bs) =
    let rest = first_bound target ds bs in if leb target (count_le b ds) then bound b else rest

-- The samples observed, the last one first.
unfoldable pub observe_all : List ℤ → Histogram
unfolding new_histogram observe
observe_all [] = new_histogram
observe_all (d ∷ ds) = observe d (observe_all ds)

-- The buckets from a bound on, after `cum` samples below: their running sums count the samples.
abbrev Fits : List ℕ → ℕ → List ℕ → List ℕ → Type 0
Fits ds cum [] [] = ⊥
Fits ds cum [] (n ∷ []) = cum + n ≡ length ds
Fits ds cum [] (n ∷ m ∷ ns) = ⊥
Fits ds cum (b ∷ bs) [] = ⊥
Fits ds cum (b ∷ bs) (n ∷ ns) = (cum + n ≡ count_le b ds) × Fits ds (cum + n) bs ns

count_le-length : (b : ℕ) (ds : List ℕ) → count_le b ds ≤ length ds
count_le-length b [] = omega arith
count_le-length b (d ∷ ds) = ground (arith, count_le-length b ds)

-- A sample below all of the bounds counts at each of them.
bumped :
    (d : ℕ) (ds : List ℕ) (cum cum' : ℕ) (bs ns : List ℕ)
    → cum' ≡ suc cum
    → All (λ b. d ≤ b) bs
    → Fits ds cum bs ns
    → Fits (d ∷ ds) cum' bs ns
bumped d ds cum cum' [] [] e h f = f
bumped d ds cum cum' [] (n ∷ []) e h f = omega (arith, e, f)
bumped d ds cum cum' [] (n ∷ m ∷ ns) e h f = f
bumped d ds cum cum' (b ∷ bs) [] e h f = f
bumped d ds cum cum' (b ∷ bs) (n ∷ ns) e h f =
    (ground (arith, e, f.0, h.0), bumped d ds (cum + n) (cum' + n) bs ns (omega (arith, e)) h.1 f.1)

All-le : (d b : ℕ) (bs : List ℕ) → d ≤ b → All (λ c. b ≤ c) bs → All (λ c. d ≤ c) bs
All-le d b [] le h = tt
All-le d b (c ∷ bs) le h = (omega (arith, le, h.0), All-le d b bs le h.1)

placed :
    (d : ℕ) (ds : List ℕ) (cum : ℕ) (bs ns : List ℕ)
    → IsSorted bs
    → suc (length ds) < 2 ^ 64
    → Fits ds cum bs ns
    → Fits (d ∷ ds) cum bs (add_at (rank d bs) ns)
unfolding add_at
placed d ds cum [] [] s small f = f
placed d ds cum [] (n ∷ []) s small f = omega (arith, f)
placed d ds cum [] (n ∷ m ∷ ns) s small f = absurd f
placed d ds cum (b ∷ bs) [] s small f = absurd f
placed d ds cum (b ∷ bs) (n ∷ ns) s small f =
    let most = count_le-length b ds in
    elim (Bool-cases (leb d b)) [
      | inl within ↦
          let le : d ≤ b = ground arith in
          let same : add_u64 n 1 ≡ suc n = omega (arith, f.0, most) in
          rw (within, same)
            (
              ground (arith, f.0, within),
              bumped d ds (cum + n) (cum + suc n) bs ns (omega arith) (All-le d b bs le s.0) f.1,
            )
      | inr above ↦ rw above (ground (arith, f.0, above), placed d ds (cum + n) bs ns s.1 small f.1)
    ]

loop-first_bound :
    (target : ℕ) (ds : List ℕ) (cum : ℕ) (bs ns : List ℕ)
    → length ds < 2 ^ 64
    → target ≤ length ds
    → Fits ds cum bs ns
    → quantile_loop target cum bs ns ≡ some (first_bound target ds bs)
unfolding quantile_loop
loop-first_bound target ds cum [] [] small enough f = absurd f
loop-first_bound target ds cum [] (n ∷ []) small enough f =
    let same : add_u64 cum n ≡ length ds = omega (arith, f) in
    let reached : leb target (length ds) ≡ true = ground arith in rw (same, reached) refl
loop-first_bound target ds cum [] (n ∷ m ∷ ns) small enough f = absurd f
loop-first_bound target ds cum (b ∷ bs) [] small enough f = absurd f
loop-first_bound target ds cum (b ∷ bs) (n ∷ ns) small enough f =
    let most = count_le-length b ds in
    let same : add_u64 cum n ≡ cum + n = omega (arith, f.0, most) in
    let ih = loop-first_bound target ds (cum + n) bs ns small enough f.1 in
    elim (Bool-cases (leb target (count_le b ds))) [
      | inl reached ↦
          let reached' : leb target (cum + n) ≡ true = ap (leb target) f.0 ∙ reached in
          rw (same, reached', reached) refl
      | inr more ↦
          let more' : leb target (cum + n) ≡ false = ap (leb target) f.0 ∙ more in
          rw (same, more', more) ih
    ]

bounds-IsSorted : IsSorted bounds
bounds-IsSorted = omega arith

-- What the histogram is after the samples.
observed :
    (ds : List ℤ)
    → length (kept ds) < 2 ^ 64
    → ((observe_all ds).count ≡ length (kept ds)) × Fits (kept ds) 0 bounds (observe_all ds).buckets
unfolding observe_all new_histogram observe
observed [] small = omega arith
observed (negsuc n ∷ ds) small = observed ds small
observed (pos d ∷ ds) small =
    let (count, fits) = observed ds (omega arith) in
    let h = observe_all ds in
    (
      omega (arith, count),
      subst (λ i. Fits (d ∷ kept ds) 0 bounds (add_at i h.buckets))
          (sym (search-rank d bounds bounds-IsSorted))
          (placed d (kept ds) 0 bounds h.buckets bounds-IsSorted small fits),
    )

-- After any samples, fewer than 2^64 of which are not negative, a quantile is none if there was no such
-- sample; otherwise, for a rank that is no more than their number, it is the first bound that this many
-- of them are within, or the overflow bucket if fewer are within the last one. Negative samples count for nothing.
pub quantile_exact {ℓ} :
    {Float : Type ℓ} (ceil_of : Float → ℕ → ℕ) (q : Float) (ds : List ℤ)
    → length (kept ds) < 2 ^ 64
    → ceil_of q (length (kept ds)) ≤ length (kept ds)
    → quantile ceil_of q (observe_all ds) ≡ (
        if length (kept ds) == 0
        then none
        else some (first_bound (ceil_of q (length (kept ds))) (kept ds) bounds))
unfolding quantile
quantile_exact ceil_of q ds small enough =
    let (count, fits) = observed ds small in
    let h = observe_all ds in
    let loop =
      loop-first_bound (ceil_of q (length (kept ds))) (kept ds) 0 bounds h.buckets small enough
        fits in
    elim (Bool-cases (length (kept ds) == 0)) [
      | inl nothing ↦ rw (count, nothing, quantile) refl
      | inr something ↦ rw (count, something, quantile) loop
    ]
