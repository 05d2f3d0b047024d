-- ===== src/Auth/Sessions.antt =====
-- auth.py, `refresh_session` and `logout`.
use money_flow_service.Prelude.{
  [], ◌∷◌, ◌++◌, ◌||◌, max, nat_eq, ◌*◌, not, none, false, ◌+◌, ◌==◌, ◌&&◌, true, some,
  if◌then◌else◌, Bool, ℕ, Option,
}
use money_flow_service.Errors.{
  auth_email_not_verified, auth_token_missing, auth_token_invalid, auth_user_not_found, Violation,
  Code,
}
use money_flow_service.Session.{
  modify, try_commit, ◌>>◌, query, ◌>>=◌, pure, rollback, Handler, Verdict,
}
use money_flow_service.Prelude.Tables.{find?, exists}
use money_flow_service.Auth.Tokens.{
  exp_or, create_refresh_token, decode_access_token, revoke_token, has_jti_of, decode_refresh_token,
  create_access_token, Jwt, Claims,
}
use money_flow_service.Models.{User, Database}
use money_flow_service.Prelude.Text.{is_empty, or_empty, strip, Text}
use money_flow_service.Auth.Login.{commit_or_rollback}
use money_flow_service.Auth.Requests.{AuthSettings, HttpRequest}
use money_flow_service.Auth.Origins.{verify_csrf_for_cookie_request}

-- The clock, the ids that are drawn, and the verdict on the commit.
pub record SessionSurroundings : Type 0 where
  pub now : ℕ
  pub access_jti : ℕ
  pub refresh_jti : ℕ
  pub verdict : Verdict

-- A JSON response with an error does not raise; it may clear the cookies.
pub data RefreshResult : Type 0 where
  refreshed : (access refresh : Text) → RefreshResult
  refused : (status_code : ℕ) → Code → (clear_cookies : Bool) → RefreshResult

abbrev pub is_revoked : (jti : ℕ) → Database → Bool
is_revoked jti db = exists (has_jti_of jti) db.revoked_tokens

-- `_try_revoke_refresh_token_once`: the flush fails if the `jti`, the primary key, is there.
unfoldable pub try_revoke_refresh_token_once : (jti exp : ℕ) → Handler Bool
unfolding exists
try_revoke_refresh_token_once jti exp s =
    if is_revoked jti s.working
    then (rollback >> pure false) s
    else (modify (λ db. record db {
      revoked_tokens = db.revoked_tokens ++ record { jti = jti; expires_at = exp } ∷ [];
    })
          >> pure true)
        s

-- `payload.get("remember_me", True)`
abbrev pub remember_me_of : Claims → Bool
remember_me_of claims = elim claims.remember_me [ none ↦ true | some b ↦ b ]

-- The current access token is revoked as well, if there is one.
abbrev pub revoke_access : Jwt → AuthSettings → SessionSurroundings → HttpRequest → Handler Bool
revoke_access jwt settings env request =
    revoke_token (decode_access_token jwt env.now)
      (env.now + max 60 (settings.access_token_minutes * 60)) request.access_cookie

abbrev pub issue_refreshed :
    Jwt → AuthSettings → SessionSurroundings → (user_id : ℕ) → Claims → RefreshResult
issue_refreshed jwt settings env user_id claims =
    refreshed (create_access_token jwt settings env.now env.access_jti user_id)
      (create_refresh_token jwt settings env.now env.refresh_jti user_id (remember_me_of claims))

-- After the last commit
abbrev pub finish_refresh :
    Jwt
    → AuthSettings
    → SessionSurroundings
    → (user_id jti : ℕ) → Claims
    → Option Violation
    → Handler RefreshResult
finish_refresh jwt settings env user_id jti claims none =
    pure (issue_refreshed jwt settings env user_id claims)
finish_refresh jwt settings env user_id jti claims (some v) = do
  rollback
  replayed ← query (is_revoked jti)
  pure (refused 401 auth_token_invalid (not replayed))

abbrev pub spend_refresh :
    Jwt
    → AuthSettings
    → SessionSurroundings
    → HttpRequest
    → (user_id jti : ℕ) → Claims
    → (fresh : Bool) → Handler RefreshResult
spend_refresh jwt settings env request user_id jti claims false = do
  replayed ← query (is_revoked jti)
  pure (refused 401 auth_token_invalid (not replayed))
spend_refresh jwt settings env request user_id jti claims true = do
  revoke_access jwt settings env request
  violation ← try_commit env.verdict
  finish_refresh jwt settings env user_id jti claims violation

-- `refresh_session` once the user is found. `decode_refresh_token` gives only claims with a `jti`.
abbrev pub refresh_of_user :
    Jwt
    → AuthSettings
    → SessionSurroundings
    → HttpRequest
    → Claims
    → (user_id jti : ℕ) → Handler RefreshResult
refresh_of_user jwt settings env request claims user_id jti = do
  fresh ←
      try_revoke_refresh_token_once jti
        (exp_or (env.now + settings.refresh_token_days * 86400) claims.exp)
  spend_refresh jwt settings env request user_id jti claims fresh

abbrev pub verified_or_refused :
    Jwt
    → AuthSettings
    → SessionSurroundings
    → HttpRequest
    → Claims
    → (jti : ℕ) → Option User
    → Handler RefreshResult
verified_or_refused jwt settings env request claims jti none =
    pure (refused 401 auth_user_not_found true)
verified_or_refused jwt settings env request claims jti (some user) =
    if settings.auth_email_verification_required && not user.email_verified
    then pure (refused 403 auth_email_not_verified true)
    else refresh_of_user jwt settings env request claims user.id jti

-- The user that the claims name, if any.
abbrev pub claimed_user : Option ℕ → Database → Option User
claimed_user none db = none
claimed_user (some user_id) db = find? (λ (u : User). u.id == user_id) db.users

-- The claims that a refresh goes by, with their `jti`.
abbrev pub jti_of : Option Claims → Option (Claims × ℕ)
jti_of none = none
jti_of (some claims) = elim claims.jti [ none ↦ none | some jti ↦ some (claims, jti) ]

abbrev pub refresh_with :
    Jwt
    → AuthSettings
    → SessionSurroundings
    → HttpRequest
    → Option (Claims × ℕ)
    → Handler RefreshResult
refresh_with jwt settings env request none = pure (refused 401 auth_token_invalid true)
refresh_with jwt settings env request (some (claims, jti)) = do
  user ← query (claimed_user claims.sub)
  verified_or_refused jwt settings env request claims jti user

-- The cookie, trimmed.
abbrev pub refresh_cookie_of : HttpRequest → Text
refresh_cookie_of request = strip (or_empty request.refresh_cookie)

unfoldable pub refresh_session :
    Jwt → AuthSettings → SessionSurroundings → HttpRequest → Handler RefreshResult
unfolding verify_csrf_for_cookie_request strip decode_refresh_token find?
    try_revoke_refresh_token_once revoke_token decode_access_token try_commit exists
    create_access_token create_refresh_token
refresh_session jwt settings env request =
    verify_csrf_for_cookie_request settings request false
    >> (if is_empty (refresh_cookie_of request)
        then pure (refused 401 auth_token_missing true)
        else refresh_with jwt settings env request
            (jti_of (decode_refresh_token jwt env.now (refresh_cookie_of request))))

-- The bearer token, or the cookie.
abbrev pub access_token_of : HttpRequest → Text
access_token_of request =
    if is_empty (or_empty request.bearer)
    then or_empty request.access_cookie
    else or_empty request.bearer

abbrev pub commit_if : Verdict → (changed : Bool) → Handler Unit
commit_if verdict true = commit_or_rollback verdict
commit_if verdict false = pure tt

-- Both tokens, whichever come with the request.
abbrev pub revoke_both : Jwt → AuthSettings → SessionSurroundings → HttpRequest → Handler Unit
revoke_both jwt settings env request = do
  access ←
      revoke_token (decode_access_token jwt env.now)
        (env.now + max 60 (settings.access_token_minutes * 60)) (some (access_token_of request))
  refresh ←
      revoke_token (decode_refresh_token jwt env.now)
        (env.now + max 60 (settings.refresh_token_days * 86400)) request.refresh_cookie
  commit_if env.verdict (access || refresh)

-- A request with cookies alone is tested for forgery.
abbrev pub logout_guard : AuthSettings → HttpRequest → Handler Unit
logout_guard settings request =
    if is_empty (strip (or_empty request.bearer))
    then verify_csrf_for_cookie_request settings request true
    else pure tt

unfoldable pub logout : Jwt → AuthSettings → SessionSurroundings → HttpRequest → Handler Unit
unfolding verify_csrf_for_cookie_request strip revoke_token decode_access_token decode_refresh_token
logout jwt settings env request =
    logout_guard settings request >> revoke_both jwt settings env request
