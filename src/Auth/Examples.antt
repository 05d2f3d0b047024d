-- ===== src/Auth/Examples.antt =====
-- Sessions and attempts of one user (auth.py, deps.py), with a decoder that knows two tokens.
use money_flow_service.Auth.Tokens.{has_jti_of, leeway_seconds, Jwt, Claims}
use money_flow_service.Prelude.Tables.{find?, count}
use money_flow_service.Auth.Granted.{IsAuthenticated, login-IsAuthenticated}
use money_flow_service.Auth.Login.{IssuedTokens, LoginSurroundings, LoginRequest, login}
use money_flow_service.Auth.Attempts.{
  consume_register_throttle_attempt-bound, attempt_all, AreUntil,
}
use money_flow_service.Prelude.{
  inr, inl, ◌+◌, Bool-cases, ◌==◌, ltb, [], arith, ◌∷◌, none, ◌≡◌, if◌then◌else◌, true, Option,
  some, ℕ, List, refl,
}
use money_flow_service.Auth.Revocation.Rotation.{refresh_session-once}
use money_flow_service.Auth.Revocation.Leeway.{get_current_user-forgets}
use money_flow_service.Auth.Limits.{login-limited}
use money_flow_service.Auth.Revocation.Leaving.{logout-refuses}
use money_flow_service.Auth.Sessions.{refreshed, SessionSurroundings, refresh_session, logout}
use money_flow_service.Session.{ok, stored_after, raised, outcome, Verdict}
use money_flow_service.Errors.{
  auth_token_invalid, auth_rate_limited, auth_register_throttle_unavailable,
  auth_register_rate_limited, app_error,
}
use money_flow_service.Prelude.Text.{text_eq, text, Text}
use money_flow_service.Auth.Revocation.Traffic.{
  logs_out, asks_user, serve_auth, AuthRequest, AreBefore,
}
use money_flow_service.Auth.Throttles.{consume_register_throttle_attempt}
use money_flow_service.Auth.Revocation.{HasOneExpiry}
use money_flow_service.Models.{empty_database, LoginThrottle, User, Database}
use money_flow_service.Auth.CurrentUser.{get_current_user}
use money_flow_service.Auth.Requests.{HttpRequest, AuthSettings}

abbrev refresh_of_ana : Claims
refresh_of_ana = record {
  sub = some 1;
  typ = text "refresh";
  jti = some 7;
  iat = 40;
  exp = some 100;
  remember_me = none;
}

abbrev access_of_ana : Claims
access_of_ana = record {
  sub = some 1;
  typ = text "access";
  jti = some 8;
  iat = 40;
  exp = some 100;
  remember_me = none;
}

abbrev known_claims : Text → Option Claims
known_claims token =
    if token == text "r"
    then some refresh_of_ana
    else if token == text "a"
    then some access_of_ana
    else none

abbrev two_tokens : Jwt
two_tokens = record {
  encode = λ claims. claims.typ;
  decode = λ now token. if ltb now (100 + leeway_seconds) then known_claims token else none;
}

known_claims-expiry :
    (token : Text) (claims : Claims) → known_claims token ≡ some claims → claims.exp ≡ some 100
known_claims-expiry token claims h = ground arith

two_tokens-HasOneExpiry : (jti : ℕ) → HasOneExpiry two_tokens jti 100
two_tokens-HasOneExpiry jti now token claims h _ =
    elim (Bool-cases (ltb now (100 + leeway_seconds))) [
      | inl e ↦ known_claims-expiry token claims (rw e at h)
      | inr e ↦ cc (rw e at h)
    ]

abbrev settings : AuthSettings
settings = record {
  env = text "prod";
  allowed_origins = text "http://a.kr" ∷ [];
  access_token_minutes = 1;
  refresh_token_days = 1;
  auth_email_verification_required = true;
  register_rate_limit_window_seconds = 60;
  register_rate_limit_max_attempts = 2;
}

abbrev ana : User
ana = record {
  id = 1;
  email = text "ana@a.kr";
  password_hash = 0;
  display_name = text "Ana";
  email_verified = true;
  active_household_id = none;
}

abbrev with_ana : Database
with_ana = record empty_database { users = ana ∷ [] }

abbrev by_cookies : HttpRequest
by_cookies = record {
  method = text "POST";
  origin = some (text "http://A.kr");
  referer = none;
  bearer = none;
  access_cookie = none;
  refresh_cookie = some (text " r");
  csrf_cookie = some (text "c");
  csrf_header = some (text "c");
  client_host = none;
}

abbrev by_bearer : HttpRequest
by_bearer = record by_cookies { bearer = some (text "a"); refresh_cookie = none }

abbrev accepting : Verdict
accepting db = none

abbrev at_time : ℕ → SessionSurroundings
at_time now = record { now = now; access_jti = 20; refresh_jti = 21; verdict = accepting }

abbrev asking : List AuthRequest
asking = asks_user accepting 60 by_bearer ∷ logs_out (at_time 90) by_bearer ∷ []

asking-AreBefore : AreBefore 100 asking
unfolding AreBefore
asking-AreBefore = (omega arith, (omega arith, tt))

refresh_session-once_example : ¬ (
    outcome (refresh_session two_tokens settings (at_time 95) by_cookies) (
      serve_auth two_tokens settings asking
        (stored_after (refresh_session two_tokens settings (at_time 50) by_cookies) with_ana))
    ≡ ok (refreshed (text "access") (text "refresh")))
unfolding refresh_session
refresh_session-once_example =
    refresh_session-once 7 100 two_tokens (two_tokens-HasOneExpiry 7) settings (omega arith)
      (at_time 50) (at_time 95) by_cookies by_cookies with_ana asking refresh_of_ana refresh_of_ana
      (text "access") (text "refresh") (text "access") (text "refresh") refl refl refl
      asking-AreBefore refl refl

logout-refuses_example : ¬ (
    outcome (get_current_user two_tokens settings accepting 99 by_bearer) (
      serve_auth two_tokens settings asking
        (stored_after (logout two_tokens settings (at_time 50) by_bearer) with_ana))
    ≡ ok ana)
unfolding logout get_current_user
logout-refuses_example =
    logout-refuses 8 100 two_tokens (two_tokens-HasOneExpiry 8) settings (omega arith) (at_time 50)
      by_bearer by_bearer with_ana asking access_of_ana access_of_ana accepting 99 ana (λ _. refl)
      refl refl refl refl asking-AreBefore refl refl

abbrev revoked_ana : Database
revoked_ana = record with_ana { revoked_tokens = record { jti = 8; expires_at = 100 } ∷ [] }

get_current_user-forgets_example :
    (outcome (get_current_user two_tokens settings accepting 102 by_bearer) revoked_ana
      ≡ raised (app_error 401 auth_token_invalid))
    × (find?
          (has_jti_of 8)
          (stored_after
            (get_current_user two_tokens settings accepting 102 by_bearer)
            revoked_ana).revoked_tokens
        ≡ none)
    × (outcome
          (get_current_user two_tokens settings accepting 102 by_bearer)
          (stored_after (get_current_user two_tokens settings accepting 102 by_bearer) revoked_ana)
        ≡ ok ana)
unfolding get_current_user
get_current_user-forgets_example =
    get_current_user-forgets two_tokens settings accepting 102 by_bearer access_of_ana ana 1 8
      (record { jti = 8; expires_at = 100 }) revoked_ana refl refl refl refl refl refl refl
      (omega arith) (λ _. refl)

abbrev failing_login : LoginSurroundings
failing_login = record {
  now = 200;
  access_jti = 20;
  refresh_jti = 21;
  verify_password = λ password hash. true;
  reset_verdict = accepting;
  failure_verdicts = λ _. accepting;
  ip_failure_verdicts = λ _. accepting;
  clear_verdict = accepting;
}

abbrev ana_login : LoginRequest
ana_login = record { email = text "Ana@a.kr"; password = text "secret"; remember_me = true }

abbrev five_failures : LoginThrottle
five_failures = record { key = text "ana@a.kr::unknown"; failed_count = 5; window_started_at = 10 }

abbrev after_failures : Database
after_failures = record with_ana { login_throttles = five_failures ∷ [] }

login-limited_example :
    outcome (login two_tokens settings failing_login ana_login by_cookies) after_failures
    ≡ raised (app_error 429 auth_rate_limited)
unfolding login
login-limited_example =
    login-limited two_tokens settings failing_login ana_login by_cookies five_failures
      after_failures refl refl (omega arith) (omega arith)

consume_register_throttle_attempt-bound_example :
    outcome
      (consume_register_throttle_attempt settings
        (λ _. accepting)
        55
        2
        (text "k")
        auth_register_rate_limited
        auth_register_throttle_unavailable)
      (attempt_all settings
        (λ _. accepting)
        2
        (text "k")
        auth_register_rate_limited
        auth_register_throttle_unavailable
        (10 ∷ 30 ∷ [])
        empty_database)
    ≡ raised (app_error 429 auth_register_rate_limited)
unfolding count AreUntil
consume_register_throttle_attempt-bound_example =
    consume_register_throttle_attempt-bound settings (λ _. accepting) 2 (text "k")
      auth_register_rate_limited auth_register_throttle_unavailable (λ _ _. refl) 10 55 (30 ∷ [])
      empty_database refl (omega arith, tt) (omega arith)

abbrev ana_tokens : IssuedTokens
ana_tokens = record { access = text "access"; refresh = text "refresh"; user_id = 1 }

login-IsAuthenticated_example :
    IsAuthenticated two_tokens settings failing_login ana_login ana_tokens with_ana.users
unfolding login
login-IsAuthenticated_example =
    login-IsAuthenticated two_tokens settings failing_login ana_login by_cookies ana_tokens with_ana
      refl
