-- ===== src/Auth/Address.antt =====
-- The addresses that `ValidateEmail` lets through.
use call_it.Prelude.{
  ℕ, ◌==◌, ==_iff, ◌≤◌, ◌⊎◌, Str, split_on, List, [], ◌∷◌, ◌++◌, All, length, true, false,
  Bool-cases, none, some, ok, ◌≡◌, refl, ap, arith, inl, inr,
}
use call_it.Auth.Credentials.{
  at_sign, dot, has_byte, cut_at, has_blank, labels_fit, validate_parts, validate_email,
}

cut_at-cases :
    (b : ℕ) (s : Str)
    → (cut_at b s ≡ none)
      ⊎ ((x y : Str) × (cut_at b s ≡ some (x, y)) × (s ≡ x ++ (b ∷ y)) × (has_byte b x ≡ false))
unfolding cut_at has_byte
cut_at-cases b [] = inl refl
cut_at-cases b (c ∷ s) = elim (Bool-cases (c == b)) [
  | inl here ↦ inr ([], s, rw here refl, ap (λ k. k ∷ s) ((==_iff c b).0 here), refl)
  | inr later ↦ elim (cut_at-cases b s) [
    | inl absent ↦ inl (rw (later, absent) refl)
    | inr (x, y, e, parts, clean) ↦
        inr (c ∷ x, y, rw (later, e) refl, ap (◌∷◌ c) parts, ground arith)
  ]
]

abbrev pub IsLabel : Str → Type 0
IsLabel l = (1 ≤ length l) × (length l ≤ 63)

labels_fit-All : (ls : List Str) → labels_fit ls ≡ true → All IsLabel ls
unfolding labels_fit
labels_fit-All [] h = tt
labels_fit-All (l ∷ ls) h = ((ground arith, ground arith), labels_fit-All ls (ground arith))

-- The parts of an address.
pub record IsAddress (s local domain : Str) : Type 0 where
  pub parts : s ≡ local ++ (at_sign ∷ domain)
  pub one_at : (has_byte at_sign local ≡ false) × (has_byte at_sign domain ≡ false)
  pub local_length : (1 ≤ length local) × (length local ≤ 64)
  pub no_blank : (has_blank local ≡ false) × (has_blank domain ≡ false)
  pub has_dot : has_byte dot domain ≡ true
  pub labels : All IsLabel (split_on dot domain)
  pub total_length : (3 ≤ length s) × (length s ≤ 254)

validate_parts-ok :
    (s local domain : Str)
    → s ≡ local ++ (at_sign ∷ domain)
    → has_byte at_sign local ≡ false
    → (3 ≤ length s) × (length s ≤ 254)
    → validate_parts local domain ≡ ok tt
    → IsAddress s local domain
unfolding validate_parts
validate_parts-ok s local domain parts clean total h = record {
  parts = parts;
  one_at = (clean, ground arith);
  local_length = (ground arith, ground arith);
  no_blank = (ground arith, ground arith);
  has_dot = ground arith;
  labels = labels_fit-All (split_on dot domain) (ground arith);
  total_length = total;
}

-- An address that `ValidateEmail` lets through has 3 to 254 bytes and just one @, at most 64 bytes and at
-- least one ahead of it, and after it a name with a dot, each of whose labels has 1 to 63 bytes; neither
-- part has a space or a tab.
pub validate_email-IsAddress :
    (s : Str) → validate_email s ≡ ok tt → (local domain : Str) × IsAddress s local domain
unfolding validate_email
validate_email-IsAddress s h = elim (cut_at-cases at_sign s) [
  | inl absent ↦ absurd (ground (arith, absent))
  | inr (local, domain, e, parts, clean) ↦ (
    local,
    domain,
    validate_parts-ok s local domain parts clean (ground arith, ground arith) (ground (arith, e)),
  )
]
