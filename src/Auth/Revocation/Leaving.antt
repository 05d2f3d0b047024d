-- ===== src/Auth/Revocation/Leaving.antt =====
-- auth.py, `logout`: the access token afterwards.
use money_flow_service.Session.{
  IsAccepting, open_session, stored_after, outcome, ◌>>=◌, ok, Session, Verdict,
}
use money_flow_service.Auth.Tokens.{
  exp_or, upsert_revoked_token, decode_refresh_token, revoke_token, decode_access_token, Claims,
  Jwt,
}
use money_flow_service.Auth.Revocation.Refused.{get_current_user-revoked}
use money_flow_service.Auth.Revocation.Traffic.{
  serve_auth-IsRevokedUntil, serve_auth, AreBefore, AuthRequest,
}
use money_flow_service.Session.Guards.{pair-eq, guard_passed}
use money_flow_service.Auth.Revocation.Handlers.{logout_guard-IsGuard}
use money_flow_service.Auth.Sessions.{
  logout_guard, commit_if, revoke_both, access_token_of, SessionSurroundings, logout,
}
use money_flow_service.Auth.CurrentUser.{get_current_user, raw_access_token}
use money_flow_service.Prelude.{inr, inl, List, ◌||◌, true, ◌*◌, max, ◌+◌, false, ◌<◌, ◌≡◌, ℕ, some}
use money_flow_service.Auth.Login.{commit_or_rollback}
use money_flow_service.Models.{User, Database}
use money_flow_service.Auth.Revocation.Spent.{revoke_token_cases, revoke_token-working}
use money_flow_service.Auth.Revocation.Keeping.{refresh-HasExpiry, exp_or-same, access-HasExpiry}
use money_flow_service.Auth.Revocation.Rows.{upsert_revoked_token-written}
use money_flow_service.Auth.Revocation.{IsRevokedUntil, HasOneExpiry}
use money_flow_service.Prelude.Text.{strip, is_empty}
use money_flow_service.Auth.Requests.{HttpRequest, AuthSettings}

module _ (jti exp : ℕ) (jwt : Jwt) (one : HasOneExpiry jwt jti exp) (settings : AuthSettings)
    (pos : 0 < exp) where
  module _ (env : SessionSurroundings) (request : HttpRequest)
      (accepts : IsAccepting env.verdict) where
    -- What the second half does once the access token is revoked.
    rest_of_logout :
        (s : Session)
        → IsRevokedUntil jti exp s.working
        → IsRevokedUntil jti exp
            ((revoke_token
                  (decode_refresh_token jwt env.now)
                  (env.now + max 60 (settings.refresh_token_days * 86400))
                  request.refresh_cookie
                >>= λ changed. commit_if env.verdict (true || changed))
              s).1.stored
    rest_of_logout s h =
        let fallback = env.now + max 60 (settings.refresh_token_days * 86400) in
        let decode = decode_refresh_token jwt env.now in
        let kept =
          revoke_token-working jti exp decode fallback request.refresh_cookie s
            (refresh-HasExpiry jwt env.now jti exp one) pos h in
        elim (revoke_token_cases decode fallback request.refresh_cookie s) [
          | inl e ↦ rw (e, accepts s.working, commit_or_rollback) h
          | inr (claims, other, _, _, e) ↦
              let rows =
                upsert_revoked_token other (exp_or fallback claims.exp) s.working.revoked_tokens in
              rw (e, accepts (record s.working { revoked_tokens = rows }), commit_or_rollback)
                (rw e at kept)
        ]

    revoke_both-IsRevokedUntil :
        (claims : Claims) (s : Session)
        → is_empty (strip (access_token_of request)) ≡ false
        → decode_access_token jwt env.now (strip (access_token_of request)) ≡ some claims
        → claims.jti ≡ some jti
        → IsRevokedUntil jti exp (revoke_both jwt settings env request s).1.stored
    unfolding revoke_token
    revoke_both-IsRevokedUntil claims s given decoded has =
        let fallback = env.now + max 60 (settings.access_token_minutes * 60) in
        let expires =
          access-HasExpiry jwt env.now jti exp one (strip (access_token_of request)) claims decoded
            has in
        let same = exp_or-same jti exp fallback claims.exp pos expires in
        let written = upsert_revoked_token-written jti exp s.working.revoked_tokens in
        let rows = upsert_revoked_token jti exp s.working.revoked_tokens in
        rw (given, decoded, has, same)
          (rest_of_logout (record s { working = record s.working { revoked_tokens = rows } })
            written)

  -- If a logout with an access token has answered, and the database has taken its commit, then after
  -- any requests before the token expires, a request with the same token, or another with its `jti`,
  -- has no user. A `jti` is given with one time of expiry only.
  pub logout-refuses :
      (env : SessionSurroundings) (request again : HttpRequest) (db : Database)
      (rs : List AuthRequest) (claims other : Claims) (verdict : Verdict) (now : ℕ) (answer : User)
      → IsAccepting env.verdict
      → is_empty (strip (access_token_of request)) ≡ false
      → decode_access_token jwt env.now (strip (access_token_of request)) ≡ some claims
      → claims.jti ≡ some jti
      → outcome (logout jwt settings env request) db ≡ ok tt
      → AreBefore exp rs
      → decode_access_token jwt now (raw_access_token again).0 ≡ some other
      → other.jti ≡ some jti
      → ¬ (
          outcome
            (get_current_user jwt settings verdict now again)
            (serve_auth jwt settings rs (stored_after (logout jwt settings env request) db))
          ≡ ok answer)
  unfolding logout
  logout-refuses env request again db rs claims other verdict now answer accepts given decoded has
        done before decoded' has' =
      let body = revoke_both jwt settings env request in
      let passed =
        guard_passed (logout_guard settings request) body (open_session db)
          (logout jwt settings env request (open_session db)).1 tt
          (logout_guard-IsGuard settings request)
          (pair-eq (logout jwt settings env request (open_session db)) done) in
      let both =
        revoke_both-IsRevokedUntil env request accepts claims (open_session db) given decoded has in
      let db' = stored_after (logout jwt settings env request) db in
      let first : IsRevokedUntil jti exp db' = rw passed at both in
      let db'' = serve_auth jwt settings rs db' in
      let revoked : IsRevokedUntil jti exp db'' =
        serve_auth-IsRevokedUntil jwt settings jti exp one rs db' before first in
      get_current_user-revoked jwt settings verdict now again db'' other jti
        (record { jti = jti; expires_at = exp }) answer decoded' has' revoked
