-- ===== src/Auth/Revocation/Rotation.antt =====
-- auth.py, `refresh_session`: a refresh token after its use.
use money_flow_service.Auth.Revocation.Spent.{refresh_of_user-IsSpent, IsSpent}
use money_flow_service.Auth.Tokens.{has_jti_of, decode_refresh_token, Claims, Jwt}
use money_flow_service.Prelude.Tables.Finding.{find?-exists}
use money_flow_service.Auth.Revocation.Traffic.{
  serve_auth-IsRevokedUntil, serve_auth, AreBefore, AuthRequest,
}
use money_flow_service.Prelude.{
  not, ◌&&◌, Bool-cases, inr, inl, false, Option-cases, List, ◌≡◌, ◌<◌, ℕ, some,
}
use money_flow_service.Session.{raised, open_session, stored_after, outcome, ok, Session, Outcome}
use money_flow_service.Auth.Sessions.{
  refused, claimed_user, is_revoked, refresh_cookie_of, refreshed, refresh_with, refresh_session,
  SessionSurroundings, RefreshResult,
}
use money_flow_service.Prelude.Text.{is_empty, Text}
use money_flow_service.Auth.Revocation.{IsRevokedUntil, HasOneExpiry}
use money_flow_service.Auth.Origins.Guards.{verify_csrf-IsGuard}
use money_flow_service.Auth.Revocation.Keeping.{refresh-HasExpiry}
use money_flow_service.Auth.Requests.{HttpRequest, AuthSettings}
use money_flow_service.Models.{Database}

IsSpent-refreshed :
    (jti exp : ℕ) (db : Database) (r : Outcome RefreshResult × Session) (access refresh : Text)
    → IsSpent jti exp db r
    → r.0 ≡ ok (refreshed access refresh)
    → (is_revoked jti db ≡ false) × IsRevokedUntil jti exp r.1.stored
IsSpent-refreshed jti exp db (ok (refreshed a b), s) access refresh h k = h
IsSpent-refreshed jti exp db (ok (refused status code clear), s) access refresh h k = cc
IsSpent-refreshed jti exp db (raised e, s) access refresh h k = cc

module _ (jti exp : ℕ) (jwt : Jwt) (one : HasOneExpiry jwt jti exp) (settings : AuthSettings)
    (pos : 0 < exp) where
  refresh_with-IsSpent :
      (env : SessionSurroundings) (request : HttpRequest) (claims : Claims) (s : Session)
      → claims.exp ≡ some exp
      → IsSpent jti exp s.working (refresh_with jwt settings env request (some (claims, jti)) s)
  refresh_with-IsSpent env request claims s expires =
      elim (Option-cases (claimed_user claims.sub s.working)) [
        | inl e ↦ rw e tt
        | inr (user, e) ↦
            elim (Bool-cases
              (settings.auth_email_verification_required && not user.email_verified)) [
                | inl d ↦ rw (e, d) tt
                | inr d ↦
                    rw (e, d)
                      (refresh_of_user-IsSpent jti exp jwt one settings env request pos claims
                        user.id s expires)
              ]
      ]

  refresh_session-IsSpent :
      (env : SessionSurroundings) (request : HttpRequest) (claims : Claims) (s : Session)
      → decode_refresh_token jwt env.now (refresh_cookie_of request) ≡ some claims
      → claims.jti ≡ some jti
      → IsSpent jti exp s.working (refresh_session jwt settings env request s)
  unfolding refresh_session
  refresh_session-IsSpent env request claims s decoded has =
      let expires =
        refresh-HasExpiry jwt env.now jti exp one (refresh_cookie_of request) claims decoded has in
      elim (verify_csrf-IsGuard settings request false s) [
        | inl k ↦ elim (Bool-cases (is_empty (refresh_cookie_of request))) [
          | inl e ↦ rw (k, e) tt
          | inr e ↦ rw (k, e, decoded, has) (refresh_with-IsSpent env request claims s expires)
        ]
        | inr (err, k) ↦ rw k tt
      ]

  -- If a refresh has answered with new tokens, then after any requests before its token expires, the
  -- same token, or another with its `jti`, gets no new tokens. A `jti` is given with one time of
  -- expiry only.
  pub refresh_session-once :
      (env later : SessionSurroundings) (request again : HttpRequest) (db : Database)
      (rs : List AuthRequest) (claims other : Claims) (access refresh access' refresh' : Text)
      → decode_refresh_token jwt env.now (refresh_cookie_of request) ≡ some claims
      → claims.jti ≡ some jti
      → outcome (refresh_session jwt settings env request) db ≡ ok (refreshed access refresh)
      → AreBefore exp rs
      → decode_refresh_token jwt later.now (refresh_cookie_of again) ≡ some other
      → other.jti ≡ some jti
      → ¬ (
          outcome (refresh_session jwt settings later again) (
            serve_auth jwt settings rs (stored_after (refresh_session jwt settings env request) db))
          ≡ ok (refreshed access' refresh'))
  refresh_session-once env later request again db rs claims other access refresh access' refresh'
        decoded has done before decoded' has' done' =
      let first =
        IsSpent-refreshed jti exp db (refresh_session jwt settings env request (open_session db))
          access refresh (refresh_session-IsSpent env request claims (open_session db) decoded has)
          done in
      let db' = stored_after (refresh_session jwt settings env request) db in
      let db'' = serve_auth jwt settings rs db' in
      let revoked : IsRevokedUntil jti exp db'' =
        serve_auth-IsRevokedUntil jwt settings jti exp one rs db' before first.1 in
      let second =
        IsSpent-refreshed jti exp db''
          (refresh_session jwt settings later again (open_session db'')) access' refresh'
          (refresh_session-IsSpent later again other (open_session db'') decoded' has') done' in
      let there = find?-exists (has_jti_of jti) db''.revoked_tokens revoked in cc (there, second.0)
