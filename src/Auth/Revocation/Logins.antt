-- ===== src/Auth/Revocation/Logins.antt =====
-- Rows of revoked tokens through `login` (auth.py).
use money_flow_service.Prelude.Text.{text_eq, lower, Text}
use money_flow_service.Auth.Throttles.{
  login_ip_max_attempts, login_max_attempts, record_login_failure, login_ip_attempt_key,
  has_login_key, login_attempt_key, enforces_ip_throttle,
}
use money_flow_service.Errors.{
  auth_rate_limited, auth_invalid_credentials, auth_email_not_verified, app_error,
}
use money_flow_service.Session.Keeps.{Keeps-raise_if, Keeps-bind, Keeps}
use money_flow_service.Auth.Login.{
  has_failed, authenticate, issue_tokens, reset_old_windows, commit_or_rollback, IssuedTokens,
  login_allowed, ip_throttle_of, grant_login, clear_throttle, record_ip_failure, refuse_login,
  LoginRequest, login_checked, login, LoginSurroundings,
}
use money_flow_service.Session.{◌>>=◌, pure, query, raise, raise_if, ◌>>◌, Handler}
use money_flow_service.Prelude.{◌==◌, none, not, ◌&&◌, false, true, some, Option, Bool, ◌<◌, ℕ}
use money_flow_service.Auth.Origins.Guards.{verify_allowed_origin-IsGuard}
use money_flow_service.Session.Guards.{IsGuard-Keeps}
use money_flow_service.Auth.Origins.{verify_allowed_origin}
use money_flow_service.Auth.Revocation.Handlers.{commit_or_rollback-Keeps}
use money_flow_service.Auth.Revocation.Counters.{record_login_failure-Keeps}
use money_flow_service.Models.{User, LoginThrottle, Database}
use money_flow_service.Prelude.Tables.{find?, delete}
use money_flow_service.Auth.Requests.{HttpRequest, AuthSettings}
use money_flow_service.Auth.Tokens.{Jwt}
use money_flow_service.Auth.Revocation.{IsRevokedUntil}

module _ (jti exp : ℕ) where
  abbrev Revoked : Database → Type 0
  Revoked = IsRevokedUntil jti exp

  module _ (settings : AuthSettings) (env : LoginSurroundings) (before : env.now < exp) where
    record_ip_failure-Keeps :
        (ip_key : Text) (enforced : Bool)
        → Keeps Revoked (record_ip_failure settings env ip_key enforced)
    record_ip_failure-Keeps ip_key true =
        record_login_failure-Keeps jti exp env.now before settings env.ip_failure_verdicts ip_key
    record_ip_failure-Keeps ip_key false = λ s h. h

    refuse_login-Keeps : (key ip_key : Text) → Keeps Revoked (refuse_login settings env key ip_key)
    refuse_login-Keeps key ip_key =
        let enforced = enforces_ip_throttle settings in
        Keeps-bind Revoked (record_login_failure settings env.failure_verdicts env.now key)
          (λ _.
            record_ip_failure settings env ip_key enforced
            >> raise (app_error 401 auth_invalid_credentials))
          (record_login_failure-Keeps jti exp env.now before settings env.failure_verdicts key)
          (λ _.
            Keeps-bind Revoked (record_ip_failure settings env ip_key enforced)
              (λ _. raise (app_error 401 auth_invalid_credentials))
              (record_ip_failure-Keeps ip_key enforced) (λ _ s h. h))

    clear_throttle-Keeps : (o : Option LoginThrottle) → Keeps Revoked (clear_throttle env o)
    unfolding delete
    clear_throttle-Keeps none = λ s h. h
    clear_throttle-Keeps (some row) = λ s h.
        commit_or_rollback-Keeps Revoked env.clear_verdict
          (record s {
            working = record s.working {
              login_throttles = delete (has_login_key row.key) s.working.login_throttles;
            };
          })
          h

    grant_login-Keeps :
        (jwt : Jwt) (payload : LoginRequest) (key ip_key : Text) (row : Option LoginThrottle)
        (user : Option User)
        → Keeps Revoked (grant_login jwt settings env payload key ip_key row user)
    grant_login-Keeps jwt payload key ip_key row none = refuse_login-Keeps key ip_key
    grant_login-Keeps jwt payload key ip_key row (some user) =
        let unverified = settings.auth_email_verification_required && not user.email_verified in
        Keeps-bind Revoked (raise_if unverified (app_error 403 auth_email_not_verified))
          (λ _.
            clear_throttle env row >> pure (issue_tokens jwt settings env user payload.remember_me))
          (Keeps-raise_if Revoked unverified (app_error 403 auth_email_not_verified))
          (λ _.
            Keeps-bind Revoked (clear_throttle env row)
              (λ _. pure (issue_tokens jwt settings env user payload.remember_me))
              (clear_throttle-Keeps row) (λ _ s h. h))

    login_checked-Keeps :
        (jwt : Jwt) (payload : LoginRequest) (key ip_key : Text)
        → Keeps Revoked (login_checked jwt settings env payload key ip_key)
    unfolding login_checked
    login_checked-Keeps jwt payload key ip_key s h =
        let row = find? (has_login_key key) s.working.login_throttles in
        let ip_row = ip_throttle_of settings ip_key s.working in
        let granted : Handler IssuedTokens =
          query (λ db. find? (λ (u : User). lower u.email == lower payload.email) db.users)
          >>= (λ user.
              grant_login jwt settings env payload key ip_key row
                (authenticate env.verify_password payload.password user)) in
        let first =
          raise_if (has_failed login_max_attempts row) (app_error 429 auth_rate_limited) in
        let second =
          raise_if (has_failed login_ip_max_attempts ip_row) (app_error 429 auth_rate_limited) in
        Keeps-bind Revoked first (λ _. second >> granted)
          (Keeps-raise_if Revoked (has_failed login_max_attempts row)
            (app_error 429 auth_rate_limited))
          (λ _.
            Keeps-bind Revoked second (λ _. granted)
              (Keeps-raise_if Revoked (has_failed login_ip_max_attempts ip_row)
                (app_error 429 auth_rate_limited))
              (λ _ s h.
                grant_login-Keeps jwt payload key ip_key row
                  (authenticate env.verify_password payload.password
                    (find? (λ (u : User). lower u.email == lower payload.email) s.working.users))
                  s h))
          s h

    pub login-Keeps :
        (jwt : Jwt) (payload : LoginRequest) (request : HttpRequest)
        → Keeps Revoked (login jwt settings env payload request)
    unfolding login
    login-Keeps jwt payload request =
        let key = login_attempt_key payload.email request.client_host in
        let ip_key = login_ip_attempt_key request.client_host in
        let guard = verify_allowed_origin settings request false in
        let rest = login_checked jwt settings env payload key ip_key in
        Keeps-bind Revoked guard (λ _. login_allowed jwt settings env payload key ip_key)
          (IsGuard-Keeps Revoked guard (verify_allowed_origin-IsGuard settings request false))
          (λ _ s h.
            Keeps-bind Revoked (commit_or_rollback env.reset_verdict) (λ _. rest)
              (commit_or_rollback-Keeps Revoked env.reset_verdict)
              (λ _. login_checked-Keeps jwt payload key ip_key)
              (record s {
                working = record s.working {
                  login_throttles =
                      reset_old_windows settings env.now key ip_key s.working.login_throttles;
                };
              })
              h)
