-- ===== src/Auth/Revocation.antt =====
-- What holds of a token once it is revoked (auth.py and deps.py).
pub mod Rows
pub mod Keeping
pub mod Handlers
pub mod CurrentUser
pub mod Counters
pub mod Logins
pub mod Spent
pub mod Refused
pub mod Traffic
pub mod Rotation
pub mod Leaving
pub mod Leeway
use money_flow_service.Prelude.{◌≡◌, ℕ, some, Option}
use money_flow_service.Prelude.Tables.{find?}
use money_flow_service.Prelude.Text.{Text}
use money_flow_service.Models.{Database}
use money_flow_service.Auth.Tokens.{Jwt, Claims, has_jti_of}

-- The row that a query by the `jti` finds.
abbrev pub IsRevokedUntil : (jti exp : ℕ) → Database → Type 0
IsRevokedUntil jti exp db =
    find? (has_jti_of jti) db.revoked_tokens ≡ some (record { jti = jti; expires_at = exp })

-- The claims that a decoder gives with the `jti` expire at that time.
abbrev pub HasExpiry : (Text → Option Claims) → (jti exp : ℕ) → Type 0
HasExpiry decode jti exp =
    (token : Text) (claims : Claims)
    → decode token ≡ some claims
    → claims.jti ≡ some jti
    → claims.exp ≡ some exp

-- A `jti` is drawn once, and the claims that are signed with it are never changed.
abbrev pub HasOneExpiry : Jwt → (jti exp : ℕ) → Type 0
HasOneExpiry jwt jti exp = (now : ℕ) → HasExpiry (jwt.decode now) jti exp
