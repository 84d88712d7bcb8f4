-- ===== src/Services/Rooms/Codes.antt =====
-- The codes of rooms.
use call_it.Prelude.{
  ℕ, ◌%◌, ◌<◌, zero, suc, ◌≡◌, arith, List, [], ◌∷◌, length, some, get_elem?, All, Bool, true,
  false, ◌||◌, ◌==◌, Str, refl,
}
use call_it.Services.Rooms.{code_alphabet, code_letter, generate_code}

-- Whether a letter stands in a text.
abbrev pub is_in : ℕ → Str → Bool
is_in c [] = false
is_in c (d ∷ ds) = (c == d) || is_in c ds

get_elem?-is_in :
    (s : Str) (i : ℕ) → i < length s → (c : ℕ) × (get_elem? s i ≡ some c) × (is_in c s ≡ true)
get_elem?-is_in [] i h = absurd (omega arith)
get_elem?-is_in (d ∷ ds) zero h = (d, refl, ground arith)
get_elem?-is_in (d ∷ ds) (suc i) h =
    let (c, e, there) = get_elem?-is_in ds i (omega arith) in (c, e, ground arith)

code_letter-is_in : (b : ℕ) → is_in (code_letter b) code_alphabet ≡ true
unfolding code_letter
code_letter-is_in b =
    let (c, e, there) = get_elem?-is_in code_alphabet (b % 31) (omega arith) in
    ground (arith, e, there)

-- Whatever bytes the random source yields, the code has a letter for each byte, and every letter is
-- one of the alphabet, which leaves out the letters and digits that are easily confused.
pub generate_code-letters :
    (buf : List ℕ)
    → (length (generate_code buf) ≡ length buf)
      × All (λ c. is_in c code_alphabet ≡ true) (generate_code buf)
unfolding generate_code
generate_code-letters [] = (refl, tt)
generate_code-letters (b ∷ buf) =
    let (same, letters) = generate_code-letters buf in
    (ground arith, (code_letter-is_in b, letters))
