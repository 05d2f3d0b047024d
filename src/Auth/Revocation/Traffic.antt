-- ===== src/Auth/Revocation/Traffic.antt =====
-- The requests on authentication one after the other (auth.py, deps.py), each over the database that
-- those before it have stored.
use money_flow_service.Auth.Revocation.Logins.{login-Keeps}
use money_flow_service.Auth.Revocation.Counters.{consume_register_throttle_attempt-Keeps}
use money_flow_service.Auth.Revocation.Handlers.{logout-Keeps, refresh_session-Keeps}
use money_flow_service.Prelude.{arith, [], ◌<◌, ◌∷◌, List, ℕ}
use money_flow_service.Session.{stored_after, Verdict}
use money_flow_service.Auth.Revocation.CurrentUser.{get_current_user-Keeps}
use money_flow_service.Errors.{Code}
use money_flow_service.Session.Keeps.{stored-Keeps}
use money_flow_service.Auth.Throttles.{consume_register_throttle_attempt}
use money_flow_service.Prelude.Text.{Text}
use money_flow_service.Auth.Sessions.{SessionSurroundings, logout, refresh_session}
use money_flow_service.Auth.Revocation.{IsRevokedUntil, HasOneExpiry}
use money_flow_service.Models.{Database}
use money_flow_service.Auth.Login.{LoginRequest, LoginSurroundings, login}
use money_flow_service.Auth.Requests.{AuthSettings, HttpRequest}
use money_flow_service.Auth.Tokens.{Jwt}
use money_flow_service.Auth.CurrentUser.{get_current_user}

pub data AuthRequest : Type 0 where
  asks_user : Verdict → (now : ℕ) → HttpRequest → AuthRequest
  logs_in : LoginSurroundings → LoginRequest → HttpRequest → AuthRequest
  refreshes : SessionSurroundings → HttpRequest → AuthRequest
  logs_out : SessionSurroundings → HttpRequest → AuthRequest
  registers :
      (ℕ → Verdict)
      → (now max_attempts : ℕ) → (key : Text) → (rate_limited unavailable : Code) → AuthRequest

abbrev pub time_of : AuthRequest → ℕ
time_of (asks_user verdict now request) = now
time_of (logs_in env payload request) = env.now
time_of (refreshes env request) = env.now
time_of (logs_out env request) = env.now
time_of (registers verdicts now max_attempts key rate_limited unavailable) = now

unfoldable pub handle_auth : Jwt → AuthSettings → AuthRequest → Database → Database
unfolding get_current_user login refresh_session logout consume_register_throttle_attempt
handle_auth jwt settings (asks_user verdict now request) db =
    stored_after (get_current_user jwt settings verdict now request) db
handle_auth jwt settings (logs_in env payload request) db =
    stored_after (login jwt settings env payload request) db
handle_auth jwt settings (refreshes env request) db =
    stored_after (refresh_session jwt settings env request) db
handle_auth jwt settings (logs_out env request) db =
    stored_after (logout jwt settings env request) db
handle_auth jwt settings (registers verdicts now max_attempts key rate_limited unavailable) db =
    stored_after
      (consume_register_throttle_attempt settings verdicts now max_attempts key rate_limited
        unavailable)
      db

unfoldable pub serve_auth : Jwt → AuthSettings → List AuthRequest → Database → Database
unfolding handle_auth
serve_auth jwt settings [] db = db
serve_auth jwt settings (r ∷ rs) db = serve_auth jwt settings rs (handle_auth jwt settings r db)

unfoldable pub AreBefore : (time : ℕ) → List AuthRequest → Type 0
AreBefore time [] = Unit
AreBefore time (r ∷ rs) = (time_of r < time) × AreBefore time rs

module _ (jwt : Jwt) (settings : AuthSettings) (jti exp : ℕ) (one : HasOneExpiry jwt jti exp) where
  handle_auth-IsRevokedUntil :
      (r : AuthRequest) (db : Database)
      → time_of r < exp
      → IsRevokedUntil jti exp db
      → IsRevokedUntil jti exp (handle_auth jwt settings r db)
  unfolding handle_auth
  handle_auth-IsRevokedUntil (asks_user verdict now request) db before h =
      stored-Keeps (IsRevokedUntil jti exp) (get_current_user jwt settings verdict now request) db
        (get_current_user-Keeps jti exp now before jwt settings verdict request) h
  handle_auth-IsRevokedUntil (logs_in env payload request) db before h =
      stored-Keeps (IsRevokedUntil jti exp) (login jwt settings env payload request) db
        (login-Keeps jti exp settings env before jwt payload request) h
  handle_auth-IsRevokedUntil (refreshes env request) db before h =
      stored-Keeps (IsRevokedUntil jti exp) (refresh_session jwt settings env request) db
        (refresh_session-Keeps jti exp jwt one settings env request (omega arith)) h
  handle_auth-IsRevokedUntil (logs_out env request) db before h =
      stored-Keeps (IsRevokedUntil jti exp) (logout jwt settings env request) db
        (logout-Keeps jti exp jwt one settings env request (omega arith)) h
  handle_auth-IsRevokedUntil (registers verdicts now n key limited unavailable) db before h =
      stored-Keeps (IsRevokedUntil jti exp)
        (consume_register_throttle_attempt settings verdicts now n key limited unavailable) db
        (consume_register_throttle_attempt-Keeps jti exp now before settings verdicts n key limited
          unavailable)
        h

  pub serve_auth-IsRevokedUntil :
      (rs : List AuthRequest) (db : Database)
      → AreBefore exp rs
      → IsRevokedUntil jti exp db
      → IsRevokedUntil jti exp (serve_auth jwt settings rs db)
  unfolding serve_auth AreBefore
  serve_auth-IsRevokedUntil [] db before h = h
  serve_auth-IsRevokedUntil (r ∷ rs) db before h =
      serve_auth-IsRevokedUntil rs (handle_auth jwt settings r db) before.1
        (handle_auth-IsRevokedUntil r db before.0 h)
