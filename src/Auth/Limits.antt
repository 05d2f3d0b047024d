-- ===== src/Auth/Limits.antt =====
-- auth.py, `login`, for an address and a client with too many failures.
use money_flow_service.Prelude.{
  ◌∙◌, ap, inr, [], refl, arith, inl, ltb, ◌&&◌, Option-cases, true, leb, Bool, ◌+◌, ◌≤◌, some, ◌≡◌,
  false, List, ℕ,
}
use money_flow_service.Auth.Login.{
  IssuedTokens, login_allowed, commit_or_rollback, is_limited_key, LoginRequest, LoginSurroundings,
  login_checked, login, reset_old_windows,
}
use money_flow_service.Session.{Outcome, outcome, raised, open_session, Session, ok}
use money_flow_service.Session.Guards.{guard_granted}
use money_flow_service.Prelude.Tables.Finding.{find?-update}
use money_flow_service.Auth.Throttles.{
  login_ip_attempt_key, login_window_seconds, login_max_attempts, login_attempt_key, has_login_key,
}
use money_flow_service.Errors.{auth_rate_limited, app_error}
use money_flow_service.Auth.Origins.{verify_allowed_origin}
use money_flow_service.Prelude.Tables.{find?}
use money_flow_service.Models.{Database, LoginThrottle}
use money_flow_service.Auth.Requests.{HttpRequest, AuthSettings}
use money_flow_service.Prelude.Text.{Text}
use money_flow_service.Auth.Tokens.{Jwt}

-- A counter that the reset leaves: its window is not over.
reset_old_windows-kept :
    (settings : AuthSettings) (now : ℕ) (key ip_key : Text) (rows : List LoginThrottle)
    (row : LoginThrottle)
    → find? (has_login_key key) rows ≡ some row
    → now ≤ row.window_started_at + login_window_seconds
    → find? (has_login_key key) (reset_old_windows settings now key ip_key rows) ≡ some row
unfolding reset_old_windows
reset_old_windows-kept settings now key ip_key rows row found recent =
    let is_old : LoginThrottle → Bool = λ row.
      is_limited_key settings key ip_key row
      && ltb (row.window_started_at + login_window_seconds) now in
    let updated =
      find?-update is_old (has_login_key key)
        (λ row. record row { failed_count = 0; window_started_at = now }) rows (λ _ _. refl)
        found in
    let fresh : is_old row ≡ false = ground arith in rw fresh at updated

login_checked-limited :
    (jwt : Jwt) (settings : AuthSettings) (env : LoginSurroundings) (payload : LoginRequest)
    (key ip_key : Text) (row : LoginThrottle) (s : Session)
    → find? (has_login_key key) s.working.login_throttles ≡ some row
    → login_max_attempts ≤ row.failed_count
    → (login_checked jwt settings env payload key ip_key s).0
      ≡ raised (app_error 429 auth_rate_limited)
unfolding login_checked
login_checked-limited jwt settings env payload key ip_key row s found many =
    let limited : leb login_max_attempts row.failed_count ≡ true = ground arith in
    rw (found, limited) refl

login_allowed-limited :
    (jwt : Jwt) (settings : AuthSettings) (env : LoginSurroundings) (payload : LoginRequest)
    (key ip_key : Text) (row : LoginThrottle) (db : Database)
    → find? (has_login_key key) db.login_throttles ≡ some row
    → login_max_attempts ≤ row.failed_count
    → env.now ≤ row.window_started_at + login_window_seconds
    → outcome (login_allowed jwt settings env payload key ip_key) db
      ≡ raised (app_error 429 auth_rate_limited)
login_allowed-limited jwt settings env payload key ip_key row db found many recent =
    let rows = reset_old_windows settings env.now key ip_key db.login_throttles in
    let db' : Database = record db { login_throttles = rows } in
    let kept =
      reset_old_windows-kept settings env.now key ip_key db.login_throttles row found recent in
    elim (Option-cases (env.reset_verdict db')) [
      | inl e ↦
          rw (e, outcome, commit_or_rollback)
            (login_checked-limited jwt settings env payload key ip_key row
              (record { stored = db'; working = db'; events = [] }) kept many)
      | inr (v, e) ↦
          rw (e, outcome, commit_or_rollback)
            (login_checked-limited jwt settings env payload key ip_key row (open_session db) found
              many)
    ]

-- If the counter of an address and a client has five failures and its window is not over, then a login
-- from an allowed origin is answered with 429, whatever the password is and whether or not the
-- database takes its commits.
pub login-limited :
    (jwt : Jwt) (settings : AuthSettings) (env : LoginSurroundings) (payload : LoginRequest)
    (request : HttpRequest) (row : LoginThrottle) (db : Database)
    → verify_allowed_origin settings request false (open_session db) ≡ (ok tt, open_session db)
    → find? (has_login_key (login_attempt_key payload.email request.client_host)) db.login_throttles
      ≡ some row
    → login_max_attempts ≤ row.failed_count
    → env.now ≤ row.window_started_at + login_window_seconds
    → outcome (login jwt settings env payload request) db ≡ raised (app_error 429 auth_rate_limited)
unfolding login
login-limited jwt settings env payload request row db allowed found many recent =
    let key = login_attempt_key payload.email request.client_host in
    let ip_key = login_ip_attempt_key request.client_host in
    let granted =
      guard_granted (verify_allowed_origin settings request false)
        (login_allowed jwt settings env payload key ip_key) (open_session db) allowed in
    ap (λ (r : Outcome IssuedTokens × Session). r.0) granted
    ∙ login_allowed-limited jwt settings env payload key ip_key row db found many recent
