-- ===== src/Redis/Keys.antt =====
-- redisstore/keys.go: the keys and field names of the schema, by the function that builds each, and
-- the values stored under them, by what their text encodes.
use call_it.Prelude.{
  ℤ, Str, str_eq, str_eq_iff, eqb_ℤ, List, Bool, true, false, ◌&&◌, Option, none, some, ◌≡◌, ◌↔◌,
  arith,
}

-- One constructor for each function of keys.go.
pub data Key : Type 0 where
  room room_wallets room_code round room_round room_opening : Str → Key
  round_pools round_wagers round_bettors idem user email : Str → Key
  rate_limit : Str → Str → Key

-- A field of a hash: a literal name or a user's ID, an outcome index in decimal, or `WagerField`.
pub data Field : Type 0 where
  name : Str → Field
  index : ℤ → Field
  wager : Str → ℤ → Field

-- A stored text: a number in decimal, any other text, or the JSON of labels or of payouts.
pub data Text : Type 0 where
  int : ℤ → Text
  str : Str → Text
  json_labels : List Str → Text
  json_payouts : List (Str × ℤ) → Text

-- `strconv.ParseInt` in base ten, and Lua's `tonumber`.
abbrev pub parse_int : Text → Option ℤ
parse_int (int z) = some z
parse_int _ = none

-- A text read as a plain string.
abbrev pub is_str : Text → Str → Bool
is_str (str s) t = str_eq s t
is_str _ t = false

unfoldable pub key_eq : Key → Key → Bool
key_eq (room a) (room b) = str_eq a b
key_eq (room_wallets a) (room_wallets b) = str_eq a b
key_eq (room_code a) (room_code b) = str_eq a b
key_eq (round a) (round b) = str_eq a b
key_eq (room_round a) (room_round b) = str_eq a b
key_eq (room_opening a) (room_opening b) = str_eq a b
key_eq (round_pools a) (round_pools b) = str_eq a b
key_eq (round_wagers a) (round_wagers b) = str_eq a b
key_eq (round_bettors a) (round_bettors b) = str_eq a b
key_eq (idem a) (idem b) = str_eq a b
key_eq (user a) (user b) = str_eq a b
key_eq (email a) (email b) = str_eq a b
key_eq (rate_limit a c) (rate_limit b d) = str_eq a b && str_eq c d
key_eq _ _ = false

unfoldable pub field_eq : Field → Field → Bool
field_eq (name a) (name b) = str_eq a b
field_eq (index i) (index j) = eqb_ℤ i j
field_eq (wager a i) (wager b j) = str_eq a b && eqb_ℤ i j
field_eq _ _ = false

pub key_eq_refl : (k : Key) → key_eq k k ≡ true
unfolding key_eq
key_eq_refl (rate_limit a b) = ground (arith, str_eq_iff a a, str_eq_iff b b)
key_eq_refl (room a) = ground (arith, str_eq_iff a a)
key_eq_refl (room_wallets a) = ground (arith, str_eq_iff a a)
key_eq_refl (room_code a) = ground (arith, str_eq_iff a a)
key_eq_refl (round a) = ground (arith, str_eq_iff a a)
key_eq_refl (room_round a) = ground (arith, str_eq_iff a a)
key_eq_refl (room_opening a) = ground (arith, str_eq_iff a a)
key_eq_refl (round_pools a) = ground (arith, str_eq_iff a a)
key_eq_refl (round_wagers a) = ground (arith, str_eq_iff a a)
key_eq_refl (round_bettors a) = ground (arith, str_eq_iff a a)
key_eq_refl (idem a) = ground (arith, str_eq_iff a a)
key_eq_refl (user a) = ground (arith, str_eq_iff a a)
key_eq_refl (email a) = ground (arith, str_eq_iff a a)

pub key_eq_sound : (k l : Key) → key_eq k l ≡ true → k ≡ l
unfolding key_eq
key_eq_sound (room a) (room b) h = ground (arith, str_eq_iff a b)
key_eq_sound (room_wallets a) (room_wallets b) h = ground (arith, str_eq_iff a b)
key_eq_sound (room_code a) (room_code b) h = ground (arith, str_eq_iff a b)
key_eq_sound (round a) (round b) h = ground (arith, str_eq_iff a b)
key_eq_sound (room_round a) (room_round b) h = ground (arith, str_eq_iff a b)
key_eq_sound (room_opening a) (room_opening b) h = ground (arith, str_eq_iff a b)
key_eq_sound (round_pools a) (round_pools b) h = ground (arith, str_eq_iff a b)
key_eq_sound (round_wagers a) (round_wagers b) h = ground (arith, str_eq_iff a b)
key_eq_sound (round_bettors a) (round_bettors b) h = ground (arith, str_eq_iff a b)
key_eq_sound (idem a) (idem b) h = ground (arith, str_eq_iff a b)
key_eq_sound (user a) (user b) h = ground (arith, str_eq_iff a b)
key_eq_sound (email a) (email b) h = ground (arith, str_eq_iff a b)
key_eq_sound (rate_limit a c) (rate_limit b d) h = ground (arith, str_eq_iff a b, str_eq_iff c d)
key_eq_sound _ _ h = cc

pub field_eq_iff : (f g : Field) → (field_eq f g ≡ true) ↔ (f ≡ g)
unfolding field_eq
field_eq_iff (name a) (name b) = ground (arith, str_eq_iff a b)
field_eq_iff (index i) (index j) = ground arith
field_eq_iff (wager a i) (wager b j) = ground (arith, str_eq_iff a b)
field_eq_iff _ _ = ground arith
