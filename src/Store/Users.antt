-- ===== src/Store/Users.antt =====
-- redisstore/user.go with claim_unique.lua and top_up_balance.lua.
pub mod Claims
pub mod TopUp
use call_it.Prelude.{
  ℤ, pos, ◌-ℤ◌, leb_ℤ, Str, bytes, List, [], ◌∷◌, Bool, true, false, ◌≡◌, Option, none, some,
  Result, Done, ok, err, if◌then◌else◌,
}
use call_it.Domain.Economy.{Tokens}
use call_it.Redis.Keys.{
  Key, Field, name, user, email, Text, int, str, json_labels, json_payouts, is_str, parse_int,
}
use call_it.Redis.Server.{Redis, Db, Stored, text, json_reply}
use call_it.Redis.Script.{Script, Fault, nil_value, wrong_arguments}
use call_it.Store.Errors.{StoreError, not_found, already_exists, malformed}
use call_it.Store.Op.{
  Op, ◌>>=◌, ◌>>◌, pure, fail, lift, run, gets, require_int, text_int, field_str,
}

pub record User : Type 0 where
  pub id : Str
  pub email : Str
  pub display_name : Str
  pub password_hash : Str
  pub balance : Tokens
  pub created_at_ms : ℤ

abbrev pub email_field : Field
email_field = name (bytes "email")

abbrev pub display_name_field : Field
display_name_field = name (bytes "display_name")

abbrev pub password_hash_field : Field
password_hash_field = name (bytes "password_hash")

abbrev pub balance_field : Field
balance_field = name (bytes "balance")

abbrev pub created_at_field : Field
created_at_field = name (bytes "created_at")

module _ (redis : Redis) where
  open redis use {strings.{get, put}, hashes.{hget, hset, hgetall}}

  -- HSET with several fields.
  unfoldable pub set_fields : Key → List (Field × Text) → redis.hashes.T → redis.hashes.T
  set_fields key [] t = t
  set_fields key ((f, v) ∷ rest) t = set_fields key rest (hset key f v t)

  -- claim_unique.lua; an HSET without fields is an error, after the SETNX.
  unfoldable pub claim_unique : Key → Key → Str → List (Field × Text) → Script redis (List Text)
  unfolding set_fields
  claim_unique index_key entity_key id fields db =
      let claimed = put index_key (text (str id)) db.strings in
      let written = set_fields entity_key fields db.hashes in
      elim (get index_key db.strings) [
        | some (text existing) ↦ (ok (str (bytes "TAKEN") ∷ existing ∷ []), db)
        | some (json_reply _ _) ↦ (ok (str (bytes "TAKEN") ∷ []), db)
        | none ↦ elim fields [
          | [] ↦ (err wrong_arguments, record db { strings = claimed })
          | _ ∷ _ ↦ (ok (str (bytes "OK") ∷ []), record db { strings = claimed; hashes = written })
        ]
      ]

  -- The switch on the reply of claim_unique.lua.
  unfoldable pub claim_reply : List Text → Result StoreError Done
  claim_reply [] = err malformed
  claim_reply (code ∷ _) =
      if is_str code (bytes "OK")
      then ok tt
      else if is_str code (bytes "TAKEN")
      then err already_exists
      else err malformed

  -- `now` is the clock of the process.
  unfoldable pub create_user : ℤ → User → Op redis Done
  unfolding claim_unique claim_reply
  create_user now u =
      run (
        claim_unique (email u.email) (user u.id) u.id (
          (email_field, str u.email)
          ∷ (display_name_field, str u.display_name)
          ∷ (password_hash_field, str u.password_hash)
          ∷ (balance_field, int u.balance)
          ∷ (created_at_field, int now)
          ∷ []))
      >>= λ reply. lift (claim_reply reply)

  unfoldable pub read_user : Str → Op redis User
  read_user user_id db =
      let field = λ (f : Field). hget (user user_id) f db.hashes in
      elim (hgetall (user user_id) db.hashes) [
        | [] ↦ (err not_found, db)
        | _ ∷ _ ↦
            (do
              balance ← lift (require_int (field balance_field))
              created_at ← lift (require_int (field created_at_field))
              pure (record {
                id = user_id;
                email = field_str (field email_field);
                display_name = field_str (field display_name_field);
                password_hash = field_str (field password_hash_field);
                balance = balance;
                created_at_ms = created_at;
              }))
              db
      ]

  unfoldable pub user_by_email : Str → Op redis User
  unfolding read_user
  user_by_email normalized_email db = elim (get (email normalized_email) db.strings) [
    | some (text (str user_id)) ↦ read_user user_id db
    | some _ ↦ (err malformed, db)
    | none ↦ (err not_found, db)
  ]

  unfoldable pub set_balance : Str → Tokens → Op redis Done
  set_balance user_id balance db = elim (hget (user user_id) balance_field db.hashes) [
    | none ↦ (err not_found, db)
    | some _ ↦
        (ok tt, record db { hashes = hset (user user_id) balance_field (int balance) db.hashes })
  ]

  -- top_up_balance.lua; a balance that is no number is an error of the comparison.
  unfoldable pub top_up_script : Str → Tokens → Script redis (List Text)
  top_up_script user_id target db = elim (hget (user user_id) balance_field db.hashes) [
    | none ↦ (ok (str (bytes "NOT_FOUND") ∷ []), db)
    | some stored ↦ elim (parse_int stored) [
      | none ↦ (err nil_value, db)
      | some balance ↦
          if leb_ℤ target balance
          then (ok (str (bytes "OK") ∷ int (pos 0) ∷ int balance ∷ []), db)
          else (
            ok (str (bytes "OK") ∷ int (target -ℤ balance) ∷ int target ∷ []),
            record db { hashes = hset (user user_id) balance_field (int target) db.hashes },
          )
    ]
  ]

  -- What was credited, and the new balance.
  unfoldable pub top_up_reply : List Text → Result StoreError (Tokens × Tokens)
  top_up_reply [] = err malformed
  top_up_reply (code ∷ int credited ∷ int balance ∷ _) =
      if is_str code (bytes "OK")
      then ok (credited, balance)
      else if is_str code (bytes "NOT_FOUND")
      then err not_found
      else err malformed
  top_up_reply (code ∷ _) =
      if is_str code (bytes "OK")
      then err malformed
      else if is_str code (bytes "NOT_FOUND")
      then err not_found
      else err malformed

  unfoldable pub top_up_balance : Str → Tokens → Op redis (Tokens × Tokens)
  unfolding top_up_script top_up_reply
  top_up_balance user_id target =
      run (top_up_script user_id target) >>= λ reply. lift (top_up_reply reply)
