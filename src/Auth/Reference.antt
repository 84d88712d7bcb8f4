-- ===== src/Auth/Reference.antt =====
-- A token and a hash format in which the interfaces of the package can be had.
use call_it.Prelude.{
  ℕ, zero, suc, ◌+◌, ◌-◌, Str, [], ◌∷◌, ◌++◌, take, drop, length, Bool, true, false, Option, none,
  some, Result, ok, err, leb, ◌<◌, ◌≤◌, ◌≡◌, refl, ap, ◌∙◌, arith, if◌then◌else◌,
}
use call_it.Auth.Credentials.{has_byte}
use call_it.Auth.Token.{MapClaims, Jwt, JwtError, expired, other}
use call_it.Auth.Password.{Codec, PhcParams, dollar}

-- A text ahead of others: its length comes first.
abbrev put_text : Option Str → Str → Str
put_text none rest = 0 ∷ rest
put_text (some s) rest = suc (length s) ∷ (s ++ rest)

abbrev get_text : Str → Option Str × Str
get_text [] = (none, [])
get_text (zero ∷ rest) = (none, rest)
get_text (suc n ∷ rest) = (some (take n rest), drop n rest)

take-append :
    (s rest : Str) → (take (length s) (s ++ rest) ≡ s) × (drop (length s) (s ++ rest) ≡ rest)
take-append [] rest = (refl, refl)
take-append (b ∷ s) rest = let (t, d) = take-append s rest in (ap (◌∷◌ b) t, d)

get-put_text : (o : Option Str) (rest : Str) → get_text (put_text o rest) ≡ (o, rest)
get-put_text none rest = refl
get-put_text (some s) rest =
    let (t, d) = take-append s rest in
    ap (λ x. (some x, drop (length s) (s ++ rest))) t ∙ ap (λ x. (some s, x)) d

abbrev flag : Option Bool → ℕ
flag none = 0
flag (some false) = 1
flag (some true) = 2

abbrev unflag : ℕ → Option Bool
unflag zero = none
unflag (suc zero) = some false
unflag (suc (suc n)) = some true

unflag-flag : (o : Option Bool) → unflag (flag o) ≡ o
unflag-flag none = refl
unflag-flag (some false) = refl
unflag-flag (some true) = refl

print_claims : MapClaims → Str
print_claims m =
    m.iat
    ∷ m.exp
    ∷ flag m.guest
    ∷ flag m.host
    ∷ put_text m.sub (put_text m.name (put_text m.room_id (put_text m.iss [])))

read_texts : ℕ → ℕ → ℕ → ℕ → Str → MapClaims
read_texts iat exp guest host l =
    let (sub, l1) = get_text l in
    let (name, l2) = get_text l1 in
    let (room_id, l3) = get_text l2 in
    let (iss, l4) = get_text l3 in
    record {
      sub = sub;
      name = name;
      room_id = room_id;
      guest = unflag guest;
      host = unflag host;
      iss = iss;
      iat = iat;
      exp = exp;
    }

read_claims : ℕ → Str → Result JwtError MapClaims
unfolding read_texts
read_claims now (iat ∷ exp ∷ guest ∷ host ∷ l) =
    if leb exp now then err expired else ok (read_texts iat exp guest host l)
read_claims now _ = err other

read_texts_lem :
    (m : MapClaims)
    → read_texts m.iat m.exp
        (flag m.guest)
        (flag m.host)
        (put_text m.sub (put_text m.name (put_text m.room_id (put_text m.iss []))))
      ≡ m
unfolding read_texts
read_texts_lem m =
    rw
      (
        get-put_text m.sub (put_text m.name (put_text m.room_id (put_text m.iss []))),
        get-put_text m.name (put_text m.room_id (put_text m.iss [])),
        get-put_text m.room_id (put_text m.iss []),
        get-put_text m.iss [],
        unflag-flag m.guest,
        unflag-flag m.host,
      )
      refl

read-print : (now : ℕ) (m : MapClaims) → now < m.exp → read_claims now (print_claims m) ≡ ok m
unfolding read_claims print_claims
read-print now m h =
    let fresh : leb m.exp now ≡ false = ground arith in rw fresh (ap ok (read_texts_lem m))

read_expired :
    (now : ℕ) (m : MapClaims) → m.exp ≤ now → read_claims now (print_claims m) ≡ err expired
unfolding read_claims print_claims
read_expired now m h = let old : leb m.exp now ≡ true = ground arith in rw old refl

pub plain_jwt : Jwt
plain_jwt = record {
  sign = λ secret m. print_claims m;
  parse = λ secret now s. read_claims now s;
  parse-sign = λ secret now m h. read-print now m h;
  parse_expired = λ secret now m h. read_expired now m h;
}

-- A key is the beginning of the password, filled up.
abbrev filled : ℕ → Str → Str
filled zero s = []
filled (suc n) [] = 0 ∷ filled n []
filled (suc n) (b ∷ s) = b ∷ filled n s

length-filled : (n : ℕ) (s : Str) → length (filled n s) ≡ n
length-filled zero s = refl
length-filled (suc n) [] = ap suc (length-filled n [])
length-filled (suc n) (b ∷ s) = ap suc (length-filled n s)

abbrev raised : Str → Str
raised [] = []
raised (b ∷ s) = (b + 37) ∷ raised s

abbrev lowered : Str → Str
lowered [] = []
lowered (b ∷ s) = (b - 37) ∷ lowered s

lowered-raised : (s : Str) → lowered (raised s) ≡ s
lowered-raised [] = refl
lowered-raised (b ∷ s) =
    let e : b + 37 - 37 ≡ b = omega arith in
    ap (λ k. k ∷ lowered (raised s)) e ∙ ap (◌∷◌ b) (lowered-raised s)

raised_clean : (s : Str) → has_byte dollar (raised s) ≡ false
unfolding has_byte
raised_clean [] = refl
raised_clean (b ∷ s) = ground (arith, raised_clean s)

abbrev scan_numbers : Str → Option PhcParams
scan_numbers (m ∷ t ∷ p ∷ []) = some (record { memory = m - 37; time = t - 37; threads = p - 37 })
scan_numbers _ = none

pub plain_codec : Codec
plain_codec = record {
  id_key = λ plain salt p n. filled n plain;
  encode = raised;
  decode = λ s. some (lowered s);
  print_params = λ p. raised (p.memory ∷ p.time ∷ p.threads ∷ []);
  scan_params = scan_numbers;
  length-id_key = λ plain salt p n. length-filled n plain;
  decode-encode = λ s. ap some (lowered-raised s);
  encode_clean = raised_clean;
  scan-print = λ p. ground arith;
  print_clean = λ p. raised_clean (p.memory ∷ p.time ∷ p.threads ∷ []);
}
