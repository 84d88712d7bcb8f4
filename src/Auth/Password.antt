-- ===== src/Auth/Password.antt =====
-- auth/password.go: argon2id hashes in the PHC format. The key derivation, base64 and the numbers that
-- `Sprintf` writes and `Sscanf` reads are parameters.
use call_it.Prelude.{
  ℕ, ◌==◌, Str, str_eq, bytes, split_on, split_on-append, List, [], ◌∷◌, ◌++◌, length, false,
  Option, none, some, Result, Done, ok, err, ◌≡◌, refl, ap, ◌∙◌, arith, if◌then◌else◌,
}
use call_it.Auth.Credentials.{AuthError, malformed_hash, password_mismatch, has_byte}

pub record PhcParams : Type 0 where
  pub memory : ℕ
  pub time : ℕ
  pub threads : ℕ

abbrev pub argon2_params : PhcParams
argon2_params = record { memory = 19456; time = 2; threads = 1 }

abbrev pub argon2_key_len : ℕ
argon2_key_len = 32

abbrev pub dollar : ℕ
dollar = b'$'

-- RFC 9106 and RFC 4648: a derived key has the length that was asked for, and what base64 writes, it
-- reads, and it writes no `$`. The parameters are written as m=…,t=…,p=… and read back.
pub record Codec : Type 0 where
  pub id_key : Str → Str → PhcParams → ℕ → Str
  pub encode : Str → Str
  pub decode : Str → Option Str
  pub print_params : PhcParams → Str
  pub scan_params : Str → Option PhcParams
  pub length-id_key :
      (plain salt : Str) (p : PhcParams) (n : ℕ) → length (id_key plain salt p n) ≡ n
  pub decode-encode : (s : Str) → decode (encode s) ≡ some s
  pub encode_clean : (s : Str) → has_byte dollar (encode s) ≡ false
  pub scan-print : (p : PhcParams) → scan_params (print_params p) ≡ some p
  pub print_clean : (p : PhcParams) → has_byte dollar (print_params p) ≡ false

module _ (codec : Codec) where
  -- The PHC string of a salt and a key.
  unfoldable pub phc : Str → Str → Str
  phc salt key =
      (dollar ∷ bytes "argon2id")
      ++ (dollar
          ∷ (bytes "v=19"
              ++ (dollar
                  ∷ (codec.print_params argon2_params
                      ++ (dollar ∷ (codec.encode salt ++ (dollar ∷ codec.encode key)))))))

  -- `HashPassword`, with the random salt.
  unfoldable pub hash_password : Str → Str → Str
  unfolding phc
  hash_password salt plain = phc salt (codec.id_key plain salt argon2_params argon2_key_len)

  unfoldable pub parse_parts : List Str → Option (PhcParams × Str × Str)
  parse_parts (empty ∷ algorithm ∷ version ∷ params ∷ salt ∷ key ∷ []) =
      if str_eq algorithm (bytes "argon2id")
      then if str_eq version (bytes "v=19")
        then elim (codec.scan_params params) [
          | none ↦ none
          | some p ↦ elim (codec.decode salt) [
            | none ↦ none
            | some s ↦ elim (codec.decode key) [ none ↦ none | some k ↦ some (p, s, k) ]
          ]
        ]
        else none
      else none
  parse_parts _ = none

  unfoldable pub parse_phc : Str → Option (PhcParams × Str × Str)
  unfolding parse_parts
  parse_phc encoded = parse_parts (split_on dollar encoded)

  unfoldable pub verify_password : Str → Str → Result AuthError Done
  unfolding parse_phc
  verify_password encoded plain = elim (parse_phc encoded) [
    | none ↦ err malformed_hash
    | some (p, salt, key) ↦
        if str_eq (codec.id_key plain salt p (length key)) key then ok tt else err password_mismatch
  ]

  split_on-clean : (s : Str) → has_byte dollar s ≡ false → split_on dollar s ≡ s ∷ []
  unfolding split_on has_byte
  split_on-clean [] h = refl
  split_on-clean (c ∷ s) h =
      let rest = split_on-clean s (ground arith) in
      let other : c == dollar ≡ false = ground arith in rw (other, rest) refl

  parse-phc : (salt key : Str) → parse_phc (phc salt key) ≡ some (argon2_params, salt, key)
  unfolding parse_phc phc parse_parts str_eq split_on
  parse-phc salt key =
      let written = codec.print_params argon2_params in
      let tail : split_on dollar (codec.encode salt ++ (dollar ∷ codec.encode key))
          ≡ codec.encode salt ∷ codec.encode key ∷ [] =
        split_on-append dollar (codec.encode salt) (codec.encode key)
        ∙ (ap (λ l. l ++ split_on dollar (codec.encode key))
              (split_on-clean (codec.encode salt) (codec.encode_clean salt))
            ∙ ap (◌∷◌ (codec.encode salt))
                (split_on-clean (codec.encode key) (codec.encode_clean key))) in
      let all : split_on dollar
            (written ++ (dollar ∷ (codec.encode salt ++ (dollar ∷ codec.encode key))))
          ≡ written ∷ codec.encode salt ∷ codec.encode key ∷ [] =
        split_on-append dollar written (codec.encode salt ++ (dollar ∷ codec.encode key))
        ∙ (ap (λ l. l ++ split_on dollar (codec.encode salt ++ (dollar ∷ codec.encode key)))
              (split_on-clean written (codec.print_clean argon2_params))
            ∙ ap (◌∷◌ written) tail) in
      rw (all, parse_phc)
        (rw (codec.scan-print argon2_params, codec.decode-encode salt, codec.decode-encode key)
          refl)

  -- A stored hash accepts just the passwords from which the same key derives, its own among them.
  pub verify-hash_password :
      (salt plain other : Str)
      → verify_password (hash_password salt plain) other ≡ (
          if str_eq
            (codec.id_key other salt argon2_params argon2_key_len)
            (codec.id_key plain salt argon2_params argon2_key_len)
          then ok tt
          else err password_mismatch)
  unfolding verify_password hash_password
  verify-hash_password salt plain other =
      let key = codec.id_key plain salt argon2_params argon2_key_len in
      rw
        (
          parse-phc salt key,
          verify_password,
          codec.length-id_key plain salt argon2_params argon2_key_len,
        )
        refl
