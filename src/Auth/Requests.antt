-- ===== src/Auth/Requests.antt =====
-- What authentication reads of a request and of app/core/config.py.
use money_flow_service.Prelude.{Bool, ℕ, Option, List}
use money_flow_service.Prelude.Text.{Text}

-- Headers and cookies, by what they are used for.
pub record HttpRequest : Type 0 where
  pub method : Text
  pub origin : Option Text
  pub referer : Option Text
  pub bearer : Option Text
  pub access_cookie : Option Text
  pub refresh_cookie : Option Text
  pub csrf_cookie : Option Text
  pub csrf_header : Option Text
  pub client_host : Option Text

pub record AuthSettings : Type 0 where
  pub env : Text
  pub allowed_origins : List Text
  pub access_token_minutes : ℕ
  pub refresh_token_days : ℕ
  pub auth_email_verification_required : Bool
  pub register_rate_limit_window_seconds : ℕ
  pub register_rate_limit_max_attempts : ℕ
