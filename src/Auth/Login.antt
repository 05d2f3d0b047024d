-- ===== src/Auth/Login.antt =====
-- auth.py, `login`.
use money_flow_service.Auth.Throttles.{
  login_ip_max_attempts, login_max_attempts, login_window_seconds, has_login_key,
  enforces_ip_throttle, login_ip_attempt_key, record_login_failure, login_attempt_key,
}
use money_flow_service.Errors.{
  auth_rate_limited, auth_invalid_credentials, auth_email_not_verified, app_error,
}
use money_flow_service.Session.{
  query, ◌>>=◌, ok, raise, raise_if, modify, pure, ◌>>◌, Handler, Verdict,
}
use money_flow_service.Prelude.{
  ◌+◌, not, true, ◌||◌, none, leb, ltb, if◌then◌else◌, false, some, ◌==◌, ◌&&◌, Bool, List, ℕ,
  Option,
}
use money_flow_service.Prelude.Text.{lower, text_eq, Text}
use money_flow_service.Auth.Requests.{HttpRequest, AuthSettings}
use money_flow_service.Auth.Tokens.{create_refresh_token, create_access_token, Jwt}
use money_flow_service.Prelude.Tables.{delete, update, find?}
use money_flow_service.Models.{LoginThrottle, User, Database}
use money_flow_service.Auth.Origins.{verify_allowed_origin}

pub record LoginRequest : Type 0 where
  pub email : Text
  pub password : Text
  pub remember_me : Bool

-- The clock, the ids that are drawn, the password function, and the verdicts on the commits in turn.
pub record LoginSurroundings : Type 0 where
  pub now : ℕ
  pub access_jti : ℕ
  pub refresh_jti : ℕ
  pub verify_password : Text → ℕ → Bool
  pub reset_verdict : Verdict
  pub failure_verdicts : ℕ → Verdict
  pub ip_failure_verdicts : ℕ → Verdict
  pub clear_verdict : Verdict

-- The tokens that the response sets as cookies
pub record IssuedTokens : Type 0 where
  pub access : Text
  pub refresh : Text
  pub user_id : ℕ

-- `commit`, or `rollback` if a constraint is broken.
abbrev pub commit_or_rollback : Verdict → Handler Unit
commit_or_rollback verdict s = elim (verdict s.working) [
  | none ↦ (ok tt, record s { stored = s.working })
  | some v ↦ (ok tt, record s { working = s.stored })
]

abbrev pub is_limited_key : AuthSettings → (key ip_key : Text) → LoginThrottle → Bool
is_limited_key settings key ip_key row =
    row.key == key || (enforces_ip_throttle settings && row.key == ip_key)

-- Counters whose window is over start again.
unfoldable pub reset_old_windows :
    AuthSettings → (now : ℕ) → (key ip_key : Text) → List LoginThrottle → List LoginThrottle
unfolding update
reset_old_windows settings now key ip_key =
    update
      (λ row.
        is_limited_key settings key ip_key row
        && ltb (row.window_started_at + login_window_seconds) now)
      (λ row. record row { failed_count = 0; window_started_at = now })

abbrev pub has_failed : (max_attempts : ℕ) → Option LoginThrottle → Bool
has_failed max_attempts none = false
has_failed max_attempts (some row) = leb max_attempts row.failed_count

abbrev pub ip_throttle_of : AuthSettings → (ip_key : Text) → Database → Option LoginThrottle
ip_throttle_of settings ip_key db =
    if enforces_ip_throttle settings then find? (has_login_key ip_key) db.login_throttles else none

-- `user is None or not verify_password(...)`
abbrev pub authenticate : (Text → ℕ → Bool) → (password : Text) → Option User → Option User
authenticate verify_password password none = none
authenticate verify_password password (some user) =
    if verify_password password user.password_hash then some user else none

abbrev pub record_ip_failure :
    AuthSettings → LoginSurroundings → (ip_key : Text) → (enforced : Bool) → Handler Unit
record_ip_failure settings env ip_key true =
    record_login_failure settings env.ip_failure_verdicts env.now ip_key
record_ip_failure settings env ip_key false = pure tt

abbrev pub refuse_login :
    AuthSettings → LoginSurroundings → (key ip_key : Text) → Handler IssuedTokens
refuse_login settings env key ip_key = do
  record_login_failure settings env.failure_verdicts env.now key
  record_ip_failure settings env ip_key (enforces_ip_throttle settings)
  raise (app_error 401 auth_invalid_credentials)

-- A success forgets the failures.
abbrev pub clear_throttle : LoginSurroundings → Option LoginThrottle → Handler Unit
clear_throttle env none = pure tt
clear_throttle env (some row) = do
  modify (λ db. record db { login_throttles = delete (has_login_key row.key) db.login_throttles })
  commit_or_rollback env.clear_verdict

abbrev pub issue_tokens :
    Jwt → AuthSettings → LoginSurroundings → User → (remember_me : Bool) → IssuedTokens
issue_tokens jwt settings env user remember_me = record {
  access = create_access_token jwt settings env.now env.access_jti user.id;
  refresh = create_refresh_token jwt settings env.now env.refresh_jti user.id remember_me;
  user_id = user.id;
}

abbrev pub grant_login :
    Jwt
    → AuthSettings
    → LoginSurroundings
    → LoginRequest
    → (key ip_key : Text) → Option LoginThrottle
    → Option User
    → Handler IssuedTokens
grant_login jwt settings env payload key ip_key throttle none = refuse_login settings env key ip_key
grant_login jwt settings env payload key ip_key throttle (some user) = do
  raise_if (settings.auth_email_verification_required && not user.email_verified)
      (app_error 403 auth_email_not_verified)
  clear_throttle env throttle
  pure (issue_tokens jwt settings env user payload.remember_me)

-- `login` from the look at the counters on.
unfoldable pub login_checked :
    Jwt
    → AuthSettings
    → LoginSurroundings
    → LoginRequest
    → (key ip_key : Text) → Handler IssuedTokens
unfolding find? record_login_failure delete create_access_token create_refresh_token lower
login_checked jwt settings env payload key ip_key = do
  throttle ← query (λ db. find? (has_login_key key) db.login_throttles)
  ip_throttle ← query (ip_throttle_of settings ip_key)
  raise_if (has_failed login_max_attempts throttle) (app_error 429 auth_rate_limited)
  raise_if (has_failed login_ip_max_attempts ip_throttle) (app_error 429 auth_rate_limited)
  user ← query (λ db. find? (λ (u : User). lower u.email == lower payload.email) db.users)
  grant_login jwt settings env payload key ip_key throttle
      (authenticate env.verify_password payload.password user)

-- `login` once the origin is allowed.
abbrev pub login_allowed :
    Jwt
    → AuthSettings
    → LoginSurroundings
    → LoginRequest
    → (key ip_key : Text) → Handler IssuedTokens
login_allowed jwt settings env payload key ip_key = do
  modify (λ db. record db {
    login_throttles = reset_old_windows settings env.now key ip_key db.login_throttles;
  })
  commit_or_rollback env.reset_verdict
  login_checked jwt settings env payload key ip_key

unfoldable pub login :
    Jwt → AuthSettings → LoginSurroundings → LoginRequest → HttpRequest → Handler IssuedTokens
unfolding verify_allowed_origin reset_old_windows login_checked login_attempt_key
    login_ip_attempt_key
login jwt settings env payload request =
    verify_allowed_origin settings request false
    >> login_allowed jwt settings env payload (login_attempt_key payload.email request.client_host)
        (login_ip_attempt_key request.client_host)
