-- ===== src/Auth/Credentials.antt =====
-- auth/credentials.go: the checks of what a user types in. The trimming and lower case of Unicode texts and
-- the runes of a text are parameters.
use call_it.Prelude.{
  ℕ, ltb, leb, ◌==◌, Str, split_on, List, [], ◌∷◌, length, Bool, true, false, ◌||◌, ◌&&◌, not,
  Option, none, some, Result, Done, ok, err, fail_if, ◌>>◌, if◌then◌else◌,
}

pub data AuthError : Type 0 where
  password_mismatch malformed_hash invalid_email weak_password : AuthError
  invalid_display_name weak_secret bad_ttl invalid_token token_expired : AuthError

abbrev pub min_password_len : ℕ
min_password_len = 12

abbrev pub max_password_len : ℕ
max_password_len = 128

abbrev pub max_display_name_len : ℕ
max_display_name_len = 32

abbrev pub at_sign : ℕ
at_sign = b'@'

abbrev pub dot : ℕ
dot = b'.'

unfoldable pub has_byte : ℕ → Str → Bool
has_byte b [] = false
has_byte b (c ∷ s) = (c == b) || has_byte b s

-- The text before and after the first such byte: `strings.IndexByte` with the slices that follow it.
unfoldable pub cut_at : ℕ → Str → Option (Str × Str)
cut_at b [] = none
cut_at b (c ∷ s) =
    let rest = cut_at b s in
    if c == b
    then some ([], s)
    else elim rest [ none ↦ none | some (before, after) ↦ some (c ∷ before, after) ]

-- `strings.ContainsAny(s, " \t")`
unfoldable pub has_blank : Str → Bool
unfolding has_byte
has_blank s = has_byte b' ' s || has_byte 9 s

unfoldable pub starts_with_dot : Str → Bool
starts_with_dot [] = false
starts_with_dot (c ∷ s) = c == dot

unfoldable pub ends_with_dot : Str → Bool
ends_with_dot [] = false
ends_with_dot (c ∷ []) = c == dot
ends_with_dot (c ∷ d ∷ s) = ends_with_dot (d ∷ s)

unfoldable pub has_two_dots : Str → Bool
has_two_dots [] = false
has_two_dots (c ∷ []) = false
has_two_dots (c ∷ d ∷ s) = ((c == dot) && (d == dot)) || has_two_dots (d ∷ s)

-- The loop over the labels.
unfoldable pub labels_fit : List Str → Bool
labels_fit [] = true
labels_fit (l ∷ ls) =
    let rest = labels_fit ls in if ltb (length l) 1 || ltb 63 (length l) then false else rest

unfoldable pub validate_parts : Str → Str → Result AuthError Done
unfolding has_byte has_blank starts_with_dot ends_with_dot has_two_dots labels_fit split_on
validate_parts local domain = do
  fail_if (has_byte at_sign domain) invalid_email
  fail_if (ltb (length local) 1 || ltb 64 (length local) || has_blank local) invalid_email
  fail_if (not (has_byte dot domain)) invalid_email
  fail_if (starts_with_dot domain || ends_with_dot domain) invalid_email
  fail_if (has_two_dots domain) invalid_email
  fail_if (has_blank domain) invalid_email
  fail_if (not (labels_fit (split_on dot domain))) invalid_email

unfoldable pub validate_email : Str → Result AuthError Done
unfolding cut_at validate_parts
validate_email normalized =
    if ltb (length normalized) 3 || ltb 254 (length normalized)
    then err invalid_email
    else elim (cut_at at_sign normalized) [
      | none ↦ err invalid_email
      | some (local, domain) ↦ validate_parts local domain
    ]

unfoldable pub validate_password : Str → Result AuthError Done
validate_password plain =
    if ltb (length plain) min_password_len || ltb max_password_len (length plain)
    then err weak_password
    else ok tt

-- `unicode.IsControl`
unfoldable pub is_control : ℕ → Bool
is_control r = ltb r 32 || (leb 127 r && ltb r 160)

unfoldable pub any_control : List ℕ → Bool
unfolding is_control
any_control [] = false
any_control (r ∷ rs) = is_control r || any_control rs

module _ (trim_space to_lower : Str → Str) (runes : Str → List ℕ) where
  unfoldable pub normalize_email : Str → Str
  normalize_email raw = to_lower (trim_space raw)

  unfoldable pub normalize_display_name : Str → Str
  normalize_display_name raw = trim_space raw

  unfoldable pub validate_display_name : Str → Result AuthError Done
  unfolding any_control
  validate_display_name normalized =
      if ltb (length (runes normalized)) 1 || ltb max_display_name_len (length (runes normalized))
      then err invalid_display_name
      else if any_control (runes normalized)
      then err invalid_display_name
      else ok tt
