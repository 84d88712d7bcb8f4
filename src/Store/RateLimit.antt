-- ===== src/Store/RateLimit.antt =====
-- redisstore/ratelimit.go and scripts/lua/rate_limit.lua: the sliding-window limiter.
pub mod Window
use call_it.Prelude.{
  ℕ, ◌+◌, ◌-◌, leb, ℤ, pos, ◌-ℤ◌, ◌+ℤ◌, leb_ℤ, ltb_ℤ, Str, bytes, List, [], ◌∷◌, length, Bool, true,
  false, ◌≡◌, Option, none, some, Result, Done, ok, err, if◌then◌else◌,
}
use call_it.Redis.Keys.{Key, rate_limit, Text, int, str, is_str}
use call_it.Redis.Server.{Redis, Db, Scores}
use call_it.Redis.Script.{Script}
use call_it.Store.Errors.{StoreError, malformed}
use call_it.Store.Op.{Op, ◌>>=◌, ◌>>◌, pure, fail, lift, run, text_int}

-- Times are milliseconds; `retry_after_ms` is 0 when allowed, `member` is empty when denied.
pub record Decision : Type 0 where
  pub allowed : Bool
  pub remaining : ℤ
  pub retry_after_ms : ℤ
  pub member : Str
  pub reset_at_ms : ℤ

-- `if retryAfter < 1 then retryAfter = 1`
abbrev pub at_least_one : ℤ → ℤ
at_least_one z = if ltb_ℤ z (pos 1) then pos 1 else z

-- The reply of a full window.
unfoldable pub denied_reply : ℕ → ℕ → Scores → List Text
denied_reply now window [] =
    str (bytes "DENIED") ∷ int (pos 0) ∷ str [] ∷ int (pos window) ∷ int (pos (now + window)) ∷ []
denied_reply now window ((_, oldest) ∷ _) =
    str (bytes "DENIED")
    ∷ int (pos 0)
    ∷ str []
    ∷ int (at_least_one (pos (oldest + window) -ℤ pos now))
    ∷ int (pos (oldest + window))
    ∷ []

unfoldable pub allowed_reply : ℕ → ℕ → ℤ → Str → Scores → List Text
allowed_reply now window remaining member [] =
    str (bytes "ALLOWED") ∷ int remaining ∷ str member ∷ int (pos (now + window)) ∷ []
allowed_reply now window remaining member ((_, oldest) ∷ _) =
    str (bytes "ALLOWED") ∷ int remaining ∷ str member ∷ int (pos (oldest + window)) ∷ []

module _ (redis : Redis) where
  open redis use {zsets.{zrange, zadd, zrem, zremrangebyscore}}

  -- `now` is the clock of the server in milliseconds. A window that reaches back before 0 removes
  -- nothing. (PEXPIRE only drops a key whose members have all aged out.)
  unfoldable pub drop_old : Key → ℕ → ℕ → redis.zsets.T → redis.zsets.T
  drop_old key now window t = if leb window now then zremrangebyscore key (now - window) t else t

  unfoldable pub rate_limit_script : Key → ℕ → ℕ → ℤ → Str → Script redis (List Text)
  unfolding drop_old denied_reply allowed_reply
  rate_limit_script key now window limit member db =
      let kept = drop_old key now window db.zsets in
      let count = pos (length (zrange key kept)) in
      if leb_ℤ limit count
      then (ok (denied_reply now window (zrange key kept)), record db { zsets = kept })
      else (let added = zadd key now member kept in
          (
            ok (allowed_reply now window (limit -ℤ count -ℤ pos 1) member (zrange key added)),
            record db { zsets = added },
          ))

  -- `decodeRateLimitReply`
  unfoldable pub decode_denied : List Text → Result StoreError Decision
  decode_denied (int retry_after ∷ int reset_at ∷ _) = ok (record {
    allowed = false;
    remaining = pos 0;
    retry_after_ms = retry_after;
    member = [];
    reset_at_ms = reset_at;
  })
  decode_denied _ = err malformed

  unfoldable pub decode_rate_limit_reply : List Text → Result StoreError Decision
  unfolding decode_denied
  decode_rate_limit_reply (code ∷ remaining ∷ member ∷ rest) =
      if is_str code (bytes "ALLOWED")
      then elim rest [
        | [] ↦ err malformed
        | reset_at ∷ _ ↦ elim remaining [
          | int left ↦ elim member [
            | str m ↦ elim reset_at [
              | int at ↦ ok (record {
                allowed = true;
                remaining = left;
                retry_after_ms = pos 0;
                member = m;
                reset_at_ms = at;
              })
              | _ ↦ err malformed
            ]
            | _ ↦ err malformed
          ]
          | _ ↦ err malformed
        ]
      ]
      else if is_str code (bytes "DENIED")
      then decode_denied rest
      else err malformed
  decode_rate_limit_reply _ = err malformed

  -- `member` is the fresh UUID of the call.
  unfoldable pub allow : ℕ → Str → Str → Str → ℤ → ℕ → Op redis Decision
  unfolding rate_limit_script decode_rate_limit_reply
  allow now member scope id limit window =
      run (rate_limit_script (rate_limit scope id) now window limit member) >>= λ reply.
      lift (decode_rate_limit_reply reply)

  unfoldable pub revoke : Str → Str → Str → Op redis Done
  revoke scope id member db =
      (ok tt, record db { zsets = zrem (rate_limit scope id) member db.zsets })
