-- ===== src/Auth/Granted.antt =====
-- auth.py and deps.py: the tokens that a login answers with.
use money_flow_service.Session.Guards.{pair-eq, guard_passed}
use money_flow_service.Auth.Origins.Guards.{verify_allowed_origin-IsGuard}
use money_flow_service.Prelude.{
  false, [], sym, ap, not, ◌&&◌, Bool-cases, inl, inr, Option-cases, true, some, ◌≡◌, ◌==◌, List,
  Option, Bool,
}
use money_flow_service.Auth.Origins.{verify_allowed_origin}
use money_flow_service.Auth.Throttles.{
  login_ip_max_attempts, login_max_attempts, login_ip_attempt_key, login_attempt_key, has_login_key,
  enforces_ip_throttle, record_login_failure,
}
use money_flow_service.Auth.Login.{
  commit_or_rollback, has_failed, reset_old_windows, ip_throttle_of, login_allowed, login,
  issue_tokens, login_checked, clear_throttle, record_ip_failure, authenticate, grant_login,
  refuse_login, LoginRequest, IssuedTokens, LoginSurroundings,
}
use money_flow_service.Session.{Outcome, open_session, outcome, outcome_cases, Session, ok}
use money_flow_service.Auth.Requests.{HttpRequest, AuthSettings}
use money_flow_service.Models.{Database, LoginThrottle, User}
use money_flow_service.Auth.Tokens.{create_access_token, Jwt}
use money_flow_service.Prelude.Text.{text_eq, lower, Text}
use money_flow_service.Prelude.Tables.{find?}

refuse_login-raises :
    (settings : AuthSettings) (env : LoginSurroundings) (key ip_key : Text) (tokens : IssuedTokens)
    (s s' : Session)
    → ¬ (refuse_login settings env key ip_key s ≡ (ok tokens, s'))
refuse_login-raises settings env key ip_key tokens s s' =
    elim (outcome_cases (record_login_failure settings env.failure_verdicts env.now key s)) [
      | inr (err, t, e) ↦ λ h. cc (rw e at h)
      | inl (_, t, e) ↦
          elim (outcome_cases
            (record_ip_failure settings env ip_key (enforces_ip_throttle settings) t)) [
              | inr (err, u, d) ↦ λ h. cc (rw (e, d) at h)
              | inl (_, u, d) ↦ λ h. cc (rw (e, d) at h)
            ]
    ]

ok-injective : {a b : IssuedTokens} → ok a ≡ ok b → a ≡ b
ok-injective h = cc

abbrev pub with_email : Text → User → Bool
with_email email u = lower u.email == lower email

module _ (jwt : Jwt) (settings : AuthSettings) (env : LoginSurroundings) (payload : LoginRequest)
    (tokens : IssuedTokens) where
  -- The user has the address, the password is theirs, and the tokens are for them.
  abbrev pub IsAuthenticated : List User → Type 0
  IsAuthenticated users =
      (user : User) × (find? (with_email payload.email) users ≡ some user)
      × (env.verify_password payload.password user.password_hash ≡ true)
      × (tokens.user_id ≡ user.id)
      × (tokens.access ≡ create_access_token jwt settings env.now env.access_jti user.id)

module _ (jwt : Jwt) (settings : AuthSettings) (env : LoginSurroundings) (payload : LoginRequest)
    (key ip_key : Text) (tokens : IssuedTokens) where
  abbrev Granted : List User → Type 0
  Granted = IsAuthenticated jwt settings env payload tokens

  grant_login-IsAuthenticated :
      (row : Option LoginThrottle) (s s' : Session)
      → grant_login jwt settings env payload key ip_key row
          (authenticate env.verify_password payload.password
            (find? (with_email payload.email) s.working.users))
          s
        ≡ (ok tokens, s')
      → Granted s.working.users
  grant_login-IsAuthenticated row s s' h =
      elim (Option-cases (find? (with_email payload.email) s.working.users)) [
        | inl e ↦ absurd (refuse_login-raises settings env key ip_key tokens s s' (rw e at h))
        | inr (user, e) ↦
            elim (Bool-cases (env.verify_password payload.password user.password_hash)) [
              | inr k ↦
                  absurd (refuse_login-raises settings env key ip_key tokens s s' (rw (e, k) at h))
              | inl k ↦
                  elim (Bool-cases
                    (settings.auth_email_verification_required && not user.email_verified)) [
                      | inl v ↦ cc (rw (e, k, v) at h)
                      | inr v ↦ elim (outcome_cases (clear_throttle env row s)) [
                        | inr (err, t, c) ↦ cc (rw (e, k, v, c) at h)
                        | inl (_, t, c) ↦
                            let done = rw (e, k, v, c) at h in
                            let same : ok (issue_tokens jwt settings env user payload.remember_me)
                                ≡ ok tokens =
                              ap (λ (x : Outcome IssuedTokens × Session). x.0) done in
                            let issued : issue_tokens jwt settings env user payload.remember_me
                                ≡ tokens =
                              ok-injective same in
                            (
                              user,
                              e,
                              k,
                              sym (ap (λ (x : IssuedTokens). x.user_id) issued),
                              sym (ap (λ (x : IssuedTokens). x.access) issued),
                            )
                      ]
                    ]
            ]
      ]

  login_checked-IsAuthenticated :
      (s s' : Session)
      → login_checked jwt settings env payload key ip_key s ≡ (ok tokens, s')
      → Granted s.working.users
  unfolding login_checked
  login_checked-IsAuthenticated s s' h =
      let row = find? (has_login_key key) s.working.login_throttles in
      let ip_row = ip_throttle_of settings ip_key s.working in
      elim (Bool-cases (has_failed login_max_attempts row)) [
        | inl e ↦ cc (rw e at h)
        | inr e ↦ elim (Bool-cases (has_failed login_ip_max_attempts ip_row)) [
          | inl d ↦ cc (rw (e, d) at h)
          | inr d ↦ grant_login-IsAuthenticated row s s' (rw (e, d) at h)
        ]
      ]

  login_allowed-IsAuthenticated :
      (db : Database) (s' : Session)
      → login_allowed jwt settings env payload key ip_key (open_session db) ≡ (ok tokens, s')
      → Granted db.users
  login_allowed-IsAuthenticated db s' h =
      let rows = reset_old_windows settings env.now key ip_key db.login_throttles in
      let db' : Database = record db { login_throttles = rows } in
      elim (Option-cases (env.reset_verdict db')) [
        | inl e ↦
            login_checked-IsAuthenticated (record { stored = db'; working = db'; events = [] }) s'
              (rw (e, commit_or_rollback) at h)
        | inr (v, e) ↦
            login_checked-IsAuthenticated (open_session db) s' (rw (e, commit_or_rollback) at h)
      ]

-- If a login is answered with tokens, then the first user with the address, up to case, has the
-- password, and the access token is the one that is made for this user.
pub login-IsAuthenticated :
    (jwt : Jwt) (settings : AuthSettings) (env : LoginSurroundings) (payload : LoginRequest)
    (request : HttpRequest) (tokens : IssuedTokens) (db : Database)
    → outcome (login jwt settings env payload request) db ≡ ok tokens
    → IsAuthenticated jwt settings env payload tokens db.users
unfolding login
login-IsAuthenticated jwt settings env payload request tokens db h =
    let key = login_attempt_key payload.email request.client_host in
    let ip_key = login_ip_attempt_key request.client_host in
    let whole = login jwt settings env payload request (open_session db) in
    let passed =
      guard_passed (verify_allowed_origin settings request false)
        (login_allowed jwt settings env payload key ip_key) (open_session db) whole.1 tokens
        (verify_allowed_origin-IsGuard settings request false) (pair-eq whole h) in
    login_allowed-IsAuthenticated jwt settings env payload key ip_key tokens db whole.1 passed
