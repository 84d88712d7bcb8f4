-- ===== src/Prelude/Strings.antt =====
-- Go strings, as sequences of bytes, with their comparisons.
use Prim.Native.Nat.{ℕ}
use Prim.Native.Char.{code}
use Prim.Native.String.{String}
use mathlib.Core.Path.{◌≡◌, refl}
use mathlib.Core.Logic.{◌↔◌, inl, inr}
use mathlib.Core.Bool.{Bool, true, false, ◌&&◌, ◌||◌}
use mathlib.Core.List.{List, [], ◌∷◌, ◌++◌}
use native.Mathlib.Omega.{arith}
use call_it.Prelude.Tests.{ltb, ◌==◌, if◌then◌else◌, Bool-cases}

abbrev pub Str : Type 0
Str = List ℕ

-- The bytes of an ASCII literal.
abbrev pub bytes : String → Str
bytes String.[] = []
bytes (String.◌∷◌ c s) = code c ∷ bytes s

unfoldable pub str_eq : Str → Str → Bool
str_eq [] [] = true
str_eq (a ∷ s) (b ∷ t) = (a == b) && str_eq s t
str_eq _ _ = false

pub str_eq_iff : (s t : Str) → (str_eq s t ≡ true) ↔ (s ≡ t)
unfolding str_eq
str_eq_iff [] [] = ground arith
str_eq_iff [] (b ∷ t) = ground arith
str_eq_iff (a ∷ s) [] = ground arith
str_eq_iff (a ∷ s) (b ∷ t) = ground (arith, str_eq_iff s t)

-- Go's `<` on strings: by bytes, the shorter first.
unfoldable pub str_lt : Str → Str → Bool
str_lt s [] = false
str_lt [] (b ∷ t) = true
str_lt (a ∷ s) (b ∷ t) = ltb a b || ((a == b) && str_lt s t)

abbrev pub cons_first : ℕ → List Str → List Str
cons_first b [] = (b ∷ []) ∷ []
cons_first b (x ∷ l) = (b ∷ x) ∷ l

-- `strings.Split` at one byte.
unfoldable pub split_on : ℕ → Str → List Str
split_on sep [] = [] ∷ []
split_on sep (b ∷ s) =
    let rest = split_on sep s in if b == sep then [] ∷ rest else cons_first b rest

split_on-cons : (sep : ℕ) (s : Str) → (x : Str) × (l : List Str) × (split_on sep s ≡ x ∷ l)
unfolding split_on
split_on-cons sep [] = ([], [], refl)
split_on-cons sep (b ∷ s) =
    let (x, l, e) = split_on-cons sep s in
    elim (Bool-cases (b == sep)) [
      | inl same ↦ ([], split_on sep s, rw same refl)
      | inr other ↦ (b ∷ x, l, rw (other, e) refl)
    ]

-- A separator between two texts separates their parts.
pub split_on-append :
    (sep : ℕ) (s t : Str) → split_on sep (s ++ (sep ∷ t)) ≡ split_on sep s ++ split_on sep t
unfolding split_on
split_on-append sep [] t = ground arith
split_on-append sep (b ∷ s) t =
    let (x, l, e) = split_on-cons sep s in
    let ih = split_on-append sep s t in
    elim (Bool-cases (b == sep)) [
      | inl same ↦ rw (same, ih) refl
      | inr other ↦ rw (other, ih, e) refl
    ]
