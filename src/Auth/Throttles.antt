-- ===== src/Auth/Throttles.antt =====
-- auth.py: the counters of attempts, by a key made of an address or an IP.
use money_flow_service.Session.{
  query, ◌>>=◌, rollback, raise_if, modify, pure, ◌>>◌, raise, Handler, commit, try_commit, Verdict,
}
use money_flow_service.Prelude.{
  zero, nat_eq, ◌*◌, suc, ◌&&◌, none, ◌%◌, [], ltb, leb, ◌+◌, if◌then◌else◌, not, ◌==◌, ◌∷◌, Bool,
  List, max, some, ◌++◌, Option, ℕ,
}
use money_flow_service.Errors.{
  auth_resend_throttle_unavailable, app_error, auth_verification_code_throttle_unavailable,
  auth_register_throttle_unavailable, auth_register_rate_limited, Violation,
  auth_verification_code_rate_limited, auth_resend_rate_limited, Code,
}
use money_flow_service.Prelude.Text.{text_eq, text, Text, lower}
use money_flow_service.Models.{LoginThrottle, Database, RegisterThrottle}
use money_flow_service.Prelude.Tables.{delete, find?, update, count}
use money_flow_service.Auth.Requests.{AuthSettings}

-- `_LOGIN_WINDOW_SECONDS`, `_LOGIN_MAX_ATTEMPTS`, `_LOGIN_IP_MAX_ATTEMPTS` and their like.
abbrev pub login_window_seconds : ℕ
login_window_seconds = 300

abbrev pub login_max_attempts : ℕ
login_max_attempts = 5

abbrev pub login_ip_max_attempts : ℕ
login_ip_max_attempts = 40

abbrev pub resend_max_attempts : ℕ
resend_max_attempts = 5

abbrev pub verification_code_max_attempts : ℕ
verification_code_max_attempts = 5

abbrev host_or_unknown : Option Text → Text
host_or_unknown none = text "unknown"
host_or_unknown (some []) = text "unknown"
host_or_unknown (some (c ∷ cs)) = c ∷ cs

-- `_login_attempt_key` and `_login_ip_attempt_key`, which are the keys of registrations too.
unfoldable pub login_attempt_key : (email : Text) → (ip : Option Text) → Text
unfolding lower
login_attempt_key email ip = lower email ++ text "::" ++ host_or_unknown ip

unfoldable pub login_ip_attempt_key : (ip : Option Text) → Text
login_ip_attempt_key ip = text "ip::" ++ host_or_unknown ip

-- `_should_enforce_ip_global_auth_throttle`
abbrev pub enforces_ip_throttle : AuthSettings → Bool
enforces_ip_throttle settings = not (lower settings.env == text "test")

abbrev pub has_login_key : Text → LoginThrottle → Bool
has_login_key key row = row.key == key

abbrev pub has_register_key : Text → RegisterThrottle → Bool
has_register_key key row = row.key == key

abbrev pub register_window : AuthSettings → ℕ
register_window settings = max 60 settings.register_rate_limit_window_seconds

-- `_maybe_cleanup_auth_artifacts`, twice a minute. A time is before another less some seconds if it is
-- before the other once they are added.
unfoldable pub maybe_cleanup_auth_artifacts : AuthSettings → (now : ℕ) → Database → Database
unfolding delete
maybe_cleanup_auth_artifacts settings now db =
    if now % 30 == 0
    then record db {
      revoked_tokens = delete (λ row. leb row.expires_at now) db.revoked_tokens;
      login_throttles =
          delete (λ row. ltb (row.window_started_at + max 3600 (login_window_seconds * 4)) now)
            db.login_throttles;
      register_throttles =
          delete (λ row. ltb (row.window_started_at + max 3600 (register_window settings * 4)) now)
            db.register_throttles;
    }
    else db

-- The two `case` expressions of the UPDATE: a window that is over starts again with one attempt.
abbrev pub count_attempt : (window now : ℕ) → RegisterThrottle → RegisterThrottle
count_attempt window now row =
    if ltb (row.window_started_at + window) now
    then record row { attempt_count = 1; window_started_at = now }
    else record row { attempt_count = row.attempt_count + 1 }

unfoldable pub count_register_attempt :
    (window now : ℕ) → (key : Text) → List RegisterThrottle → List RegisterThrottle
unfolding count update
count_register_attempt window now key rows =
    if count (has_register_key key) rows == 0
    then rows ++ record { key = key; attempt_count = 1; window_started_at = now } ∷ []
    else update (has_register_key key) (count_attempt window now) rows

-- `now - started_at <= window and attempt_count > max_attempts`
abbrev pub is_over_limit : (window now max_attempts : ℕ) → RegisterThrottle → Bool
is_over_limit window now max_attempts row =
    leb now (row.window_started_at + window) && ltb max_attempts row.attempt_count

abbrev pub judge_attempt :
    (window now max_attempts : ℕ)
    → (rate_limited_code : Code) → Option RegisterThrottle
    → Handler Unit
judge_attempt window now max_attempts rate_limited_code none = pure tt
judge_attempt window now max_attempts rate_limited_code (some row) =
    raise_if (is_over_limit window now max_attempts row) (app_error 429 rate_limited_code)

-- One round of the loop: the attempt is counted and committed, or the round is lost.
abbrev pub register_round : Verdict → (window now : ℕ) → (key : Text) → Handler (Option Violation)
register_round verdict window now key =
    modify (λ db. record db {
      register_throttles = count_register_attempt window now key db.register_throttles;
    })
    >> try_commit verdict

-- After a round: `retry` is the rest of the loop.
abbrev pub after_register_round :
    (window now max_attempts : ℕ)
    → (key : Text) → (rate_limited_code : Code) → (retry : Handler Unit) → Option Violation
    → Handler Unit
after_register_round window now max_attempts key rate_limited_code retry none = do
  row ← query (λ db. find? (has_register_key key) db.register_throttles)
  judge_attempt window now max_attempts rate_limited_code row
after_register_round window now max_attempts key rate_limited_code retry (some v) = do
  rollback
  retry

-- `for _ in range(4)`, with the rounds that are left; each has its own verdict.
unfoldable pub register_rounds :
    (ℕ → Verdict)
    → (window now max_attempts : ℕ) → (key : Text) → (rate_limited_code unavailable_code : Code)
    → (rounds : ℕ) → Handler Unit
unfolding count_register_attempt find? try_commit
register_rounds verdicts window now max_attempts key rate_limited_code unavailable_code zero =
    raise (app_error 503 unavailable_code)
register_rounds verdicts window now max_attempts key rate_limited_code unavailable_code
      (suc rounds) =
    register_round (verdicts rounds) window now key
    >>= after_register_round window now max_attempts key rate_limited_code (
        register_rounds verdicts window now max_attempts key rate_limited_code unavailable_code
          rounds)

unfoldable pub consume_register_throttle_attempt :
    AuthSettings
    → (ℕ → Verdict)
    → (now max_attempts : ℕ) → (key : Text) → (rate_limited_code unavailable_code : Code)
    → Handler Unit
unfolding register_rounds maybe_cleanup_auth_artifacts
consume_register_throttle_attempt settings verdicts now max_attempts key rate_limited_code
      unavailable_code =
    do
      modify (maybe_cleanup_auth_artifacts settings now)
      register_rounds verdicts (register_window settings) now (max 1 max_attempts) key
          rate_limited_code unavailable_code 4

-- `max_attempts_override or ...`
abbrev override_or : ℕ → Option ℕ → ℕ
override_or standard none = standard
override_or standard (some n) = if n == 0 then standard else n

unfoldable pub consume_register_attempt :
    AuthSettings → (ℕ → Verdict) → (now : ℕ) → (key : Text) → Option ℕ → Handler Unit
unfolding consume_register_throttle_attempt
consume_register_attempt settings verdicts now key override =
    consume_register_throttle_attempt settings verdicts now
      (override_or settings.register_rate_limit_max_attempts override) key
      auth_register_rate_limited auth_register_throttle_unavailable

unfoldable pub consume_resend_attempt :
    AuthSettings → (ℕ → Verdict) → (now : ℕ) → (key : Text) → Option ℕ → Handler Unit
unfolding consume_register_throttle_attempt
consume_resend_attempt settings verdicts now key override =
    consume_register_throttle_attempt settings verdicts now
      (override_or resend_max_attempts override) key auth_resend_rate_limited
      auth_resend_throttle_unavailable

unfoldable pub consume_verification_code_attempt :
    AuthSettings → (ℕ → Verdict) → (now : ℕ) → (key : Text) → Option ℕ → Handler Unit
unfolding consume_register_throttle_attempt
consume_verification_code_attempt settings verdicts now key override =
    consume_register_throttle_attempt settings verdicts now
      (override_or verification_code_max_attempts override) key auth_verification_code_rate_limited
      auth_verification_code_throttle_unavailable

-- `UPDATE ... SET failed_count = failed_count + 1`
unfoldable pub count_failure : (key : Text) → List LoginThrottle → List LoginThrottle
unfolding update
count_failure key =
    update (has_login_key key) (λ row. record row { failed_count = row.failed_count + 1 })

unfoldable pub count_or_add_failure :
    (now : ℕ) → (key : Text) → List LoginThrottle → List LoginThrottle
unfolding count count_failure
count_or_add_failure now key rows =
    if count (has_login_key key) rows == 0
    then rows ++ record { key = key; failed_count = 1; window_started_at = now } ∷ []
    else count_failure key rows

abbrev pub after_failure_round : (retry : Handler Unit) → Option Violation → Handler Unit
after_failure_round retry none = pure tt
after_failure_round retry (some v) = do rollback; retry

-- `for _ in range(3)`, and the UPDATE after it.
unfoldable pub failure_rounds :
    (ℕ → Verdict) → (now : ℕ) → (key : Text) → (rounds : ℕ) → Handler Unit
unfolding count_or_add_failure count_failure try_commit commit
failure_rounds verdicts now key zero = do
  modify (λ db. record db { login_throttles = count_failure key db.login_throttles })
  commit (verdicts 0)
failure_rounds verdicts now key (suc rounds) =
    (modify (λ db. record db { login_throttles = count_or_add_failure now key db.login_throttles })
      >> try_commit (verdicts (suc rounds)))
    >>= after_failure_round (failure_rounds verdicts now key rounds)

-- `_record_login_failure`
unfoldable pub record_login_failure :
    AuthSettings → (ℕ → Verdict) → (now : ℕ) → (key : Text) → Handler Unit
unfolding maybe_cleanup_auth_artifacts failure_rounds
record_login_failure settings verdicts now key = do
  modify (maybe_cleanup_auth_artifacts settings now)
  failure_rounds verdicts now key 3
