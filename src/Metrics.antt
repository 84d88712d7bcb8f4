-- ===== src/Metrics.antt =====
-- internal/metrics: the latency histogram and the registry. The counters are uint64s, which wrap; `math.Ceil`
-- of a product of floats is a parameter. The text of `Render` is not modelled.
pub mod Search
pub mod Quantiles
use call_it.Prelude.{
  ℕ, zero, suc, ◌+◌, ◌%◌, ◌^◌, ◌/◌, ◌-◌, leb, ltb, ◌==◌, ℤ, pos, negsuc, Str, str_eq, List, [], ◌∷◌,
  ◌++◌, length, Bool, true, false, Option, none, some, if◌then◌else◌,
}

abbrev pub add_u64 : ℕ → ℕ → ℕ
add_u64 a b = (a + b) % 2 ^ 64

-- Durations are in nanoseconds.
abbrev pub bounds : List ℕ
bounds =
    500000 ∷ 1000000 ∷ 2000000 ∷ 5000000 ∷ 10000000 ∷ 15000000 ∷ 20000000 ∷ 30000000 ∷ 50000000
    ∷ 100000000 ∷ 250000000 ∷ 500000000 ∷ 1000000000 ∷ []

pub record Histogram : Type 0 where
  pub buckets : List ℕ
  pub count : ℕ
  pub sum_nanos : ℕ

abbrev pub zeros : ℕ → List ℕ
zeros zero = []
zeros (suc n) = 0 ∷ zeros n

unfoldable pub new_histogram : Histogram
new_histogram = record { buckets = zeros (suc (length bounds)); count = 0; sum_nanos = 0 }

-- `sort.Search`: the loop halves the range [i, j).
unfoldable pub search_loop : ℕ → (ℕ → Bool) → ℕ → ℕ → ℕ
search_loop zero f i j = i
search_loop (suc fuel) f i j =
    let h = (i + j) / 2 in
    let step = search_loop fuel f (if f h then i else h + 1) (if f h then h else j) in
    if ltb i j then step else i

unfoldable pub search : ℕ → (ℕ → Bool) → ℕ
unfolding search_loop
search n f = search_loop (suc n) f 0 n

-- The bound at an index; `search` stays in range.
abbrev pub bound_at : List ℕ → ℕ → ℕ
bound_at [] i = 0
bound_at (b ∷ bs) zero = b
bound_at (b ∷ bs) (suc i) = bound_at bs i

unfoldable pub add_at : ℕ → List ℕ → List ℕ
add_at i [] = []
add_at zero (n ∷ ns) = add_u64 n 1 ∷ ns
add_at (suc i) (n ∷ ns) = n ∷ add_at i ns

unfoldable pub observe : ℤ → Histogram → Histogram
unfolding search add_at
observe (negsuc n) h = h
observe (pos d) h = record h {
  buckets = add_at (search (length bounds) (λ i. leb d (bound_at bounds i))) h.buckets;
  count = add_u64 h.count 1;
  sum_nanos = add_u64 h.sum_nanos d;
}

-- A quantile: a bound, or the overflow bucket.
pub data Bound : Type 0 where
  bound : ℕ → Bound
  over_top : Bound

-- The loop over the buckets, beside their bounds; `none` is the result (0, false).
unfoldable pub quantile_loop : ℕ → ℕ → List ℕ → List ℕ → Option Bound
quantile_loop target cum bs [] = none
quantile_loop target cum [] (n ∷ ns) =
    let rest = quantile_loop target (add_u64 cum n) [] ns in
    if leb target (add_u64 cum n) then some over_top else rest
quantile_loop target cum (b ∷ bs) (n ∷ ns) =
    let rest = quantile_loop target (add_u64 cum n) bs ns in
    if leb target (add_u64 cum n) then some (bound b) else rest

-- `ceil_of q n` is `uint64(math.Ceil(q * float64(n)))`.
unfoldable pub quantile {ℓ} : {Float : Type ℓ} → (Float → ℕ → ℕ) → Float → Histogram → Option Bound
unfolding quantile_loop
quantile ceil_of q h =
    if h.count == 0 then none else quantile_loop (ceil_of q h.count) 0 bounds h.buckets

-- The registry: names of histograms and counters, with the number that stands for the pointer.
pub record Registry : Type 0 where
  pub histograms : List (Str × ℕ)
  pub counters : List (Str × ℕ)
  pub fresh : ℕ

unfoldable pub find_metric : Str → List (Str × ℕ) → Option ℕ
find_metric name [] = none
find_metric name ((k, p) ∷ rest) = if str_eq k name then some p else find_metric name rest

unfoldable pub get_histogram : Str → Registry → ℕ × Registry
unfolding find_metric
get_histogram name r = elim (find_metric name r.histograms) [
  | some p ↦ (p, r)
  | none ↦ (r.fresh, record r { histograms = (name, r.fresh) ∷ r.histograms; fresh = suc r.fresh })
]

unfoldable pub get_counter : Str → Registry → ℕ × Registry
unfolding find_metric
get_counter name r = elim (find_metric name r.counters) [
  | some p ↦ (p, r)
  | none ↦ (r.fresh, record r { counters = (name, r.fresh) ∷ r.counters; fresh = suc r.fresh })
]
