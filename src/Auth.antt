-- ===== src/Auth.antt =====
-- backend/app/api/routes/auth.py with backend/app/core/security.py and `get_current_user` of
-- backend/app/api/deps.py: who a request comes from.
pub mod Requests
pub mod Origins
pub mod Tokens
pub mod CurrentUser
pub mod Throttles
pub mod Login
pub mod Sessions
pub mod Revocation
pub mod Limits
pub mod Granted
pub mod Attempts
mod Examples
