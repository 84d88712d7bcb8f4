-- ===== src/Tests/Requests.antt =====
-- Credentials, tokens, the address of a caller and the latencies at concrete inputs.
use mathlib.Core.List.{reverse}
use call_it.Prelude.{
  ℕ, ℤ, pos, negsuc, ◌==◌, ltb, Str, bytes, str_eq, split_on, List, [], ◌∷◌, length, true, false,
  none, some, ok, err, ◌≡◌, refl, arith, if◌then◌else◌,
}
use call_it.Auth.Credentials.{
  validate_email, validate_parts, has_byte, has_blank, cut_at, labels_fit, starts_with_dot,
  ends_with_dot, has_two_dots, token_expired, password_mismatch,
}
use call_it.Auth.Address.{IsAddress, validate_email-IsAddress}
use call_it.Auth.Token.{Claims, Issuer, issue, verify, verify-issue}
use call_it.Auth.Password.{
  hash_password, verify_password, argon2_params, argon2_key_len, verify-hash_password,
}
use call_it.Auth.Reference.{plain_jwt, plain_codec}
use call_it.HttpApi.ClientIp.{
  NetIp, client_ip, stops, entries_of, join_values, is_trusted, any_contains, client_ip-forged,
}
use call_it.Metrics.{quantile, bounds}
use call_it.Metrics.Quantiles.{observe_all, kept, first_bound, quantile_exact}

ann_ok : validate_email (bytes "ann@a.io") ≡ ok tt
unfolding validate_email cut_at validate_parts has_byte has_blank starts_with_dot ends_with_dot
    has_two_dots labels_fit split_on
ann_ok = refl

validate_email-IsAddress_example : (local domain : Str) × IsAddress (bytes "ann@a.io") local domain
validate_email-IsAddress_example = validate_email-IsAddress (bytes "ann@a.io") ann_ok

abbrev test_issuer : Issuer
test_issuer = record { secret = bytes "0123456789abcdef0123456789abcdef"; ttl = 7200 }

abbrev ann_claims : Claims
ann_claims = record {
  user_id = bytes "ann";
  display_name = bytes "Ann";
  room_id = bytes "r";
  guest = false;
  host = true;
}

verify-issue_example :
    verify plain_jwt test_issuer 1500 (issue plain_jwt test_issuer 1000 ann_claims)
    ≡ (if ltb 1500 8200 then ok ann_claims else err token_expired)
verify-issue_example = verify-issue plain_jwt test_issuer ann_claims 1000 1500

verify-hash_password_example :
    verify_password plain_codec
      (hash_password plain_codec (bytes "salt") (bytes "correct horse"))
      (bytes "correct horse")
    ≡ (if str_eq
          (plain_codec.id_key (bytes "correct horse") (bytes "salt") argon2_params argon2_key_len)
          (plain_codec.id_key (bytes "correct horse") (bytes "salt") argon2_params argon2_key_len)
        then ok tt
        else err password_mismatch)
verify-hash_password_example =
    verify-hash_password plain_codec (bytes "salt") (bytes "correct horse") (bytes "correct horse")

-- Addresses that are their own texts.
abbrev plain_net : NetIp
plain_net = record {
  Addr = Str;
  Prefix = Str;
  split_host_port = λ s. some s;
  parse_addr = λ s. if str_eq s [] then none else some s;
  unmap = λ a. a;
  contains = λ p a. str_eq p a;
  addr_string = λ a. a;
  trim_space = λ s. s;
}

abbrev proxies : List Str
proxies = bytes "10.0.0.1" ∷ []

proxy_stops :
    stops plain_net proxies (entries_of plain_net proxies (bytes "198.51.100.7" ∷ [])) ≡ true
unfolding stops entries_of join_values split_on is_trusted any_contains str_eq reverse
proxy_stops = refl

client_ip-forged_example :
    client_ip plain_net proxies (bytes "10.0.0.1") (bytes "1.2.3.4" ∷ bytes "198.51.100.7" ∷ [])
    ≡ client_ip plain_net proxies (bytes "10.0.0.1") (bytes "198.51.100.7" ∷ [])
client_ip-forged_example =
    client_ip-forged plain_net proxies (bytes "10.0.0.1") (bytes "1.2.3.4") (bytes "198.51.100.7")
      [] proxy_stops

-- The quantile of all samples.
abbrev whole : ℕ → ℕ → ℕ
whole q n = n

abbrev samples : List ℤ
samples = pos 40000000 ∷ negsuc 5 ∷ pos 3000000 ∷ []

quantile_exact_example : quantile whole 1 (observe_all samples) ≡ (
    if length (kept samples) == 0
    then none
    else some (first_bound (whole 1 (length (kept samples))) (kept samples) bounds))
quantile_exact_example = quantile_exact whole 1 samples (omega arith) (omega arith)
