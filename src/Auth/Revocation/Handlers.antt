-- ===== src/Auth/Revocation/Handlers.antt =====
-- Rows of revoked tokens through each handler (auth.py, deps.py).
use money_flow_service.Session.Guards.{IsGuard-pure, IsGuard-if, IsGuard, IsGuard-Keeps}
use money_flow_service.Auth.Sessions.{
  logout_guard, revoke_both, commit_if, access_token_of, logout, refused, refresh_cookie_of,
  revoke_access, claimed_user, jti_of, verified_or_refused, spend_refresh, finish_refresh,
  refresh_of_user, refresh_with, refresh_session, SessionSurroundings, is_revoked,
  try_revoke_refresh_token_once,
}
use money_flow_service.Auth.Revocation.Keeping.{
  refresh-HasExpiry, access-HasExpiry, revoke_token-Keeps,
}
use money_flow_service.Prelude.{
  ◌||◌, max, true, if◌then◌else◌, not, ◌&&◌, ◌*◌, ◌+◌, [], none, some, false, ◌∷◌, Bool, Option,
  ◌<◌, inr, inl, Option-cases, Bool-cases, ℕ,
}
use money_flow_service.Session.{Handler, pure, ◌>>=◌, try_commit, Verdict}
use money_flow_service.Auth.Tokens.{
  revoke_token, decode_access_token, decode_refresh_token, exp_or, has_jti_of, Claims, Jwt,
}
use money_flow_service.Prelude.Text.{or_empty, strip, is_empty}
use money_flow_service.Session.Keeps.{Keeps-try_commit, Keeps-bind, Keeps-if, Keeps}
use money_flow_service.Auth.Origins.Guards.{verify_csrf-IsGuard}
use money_flow_service.Errors.{auth_token_missing, auth_email_not_verified, Violation}
use money_flow_service.Auth.Origins.{verify_csrf_for_cookie_request}
use money_flow_service.Models.{User, Database}
use money_flow_service.Prelude.Tables.Finding.{find?-append}
use money_flow_service.Prelude.Tables.{exists}
use money_flow_service.Auth.Requests.{HttpRequest, AuthSettings}
use money_flow_service.Auth.Login.{commit_or_rollback}
use money_flow_service.Auth.Revocation.{HasOneExpiry, IsRevokedUntil}

pub commit_or_rollback-Keeps :
    (Inv : Database → Type 0) (verdict : Verdict) → Keeps Inv (commit_or_rollback verdict)
commit_or_rollback-Keeps Inv verdict s h = elim (Option-cases (verdict s.working)) [
  | inl e ↦ rw (e, commit_or_rollback) (h.1, h.1)
  | inr (v, e) ↦ rw (e, commit_or_rollback) (h.0, h.0)
]

commit_if-Keeps :
    (Inv : Database → Type 0) (verdict : Verdict) (changed : Bool)
    → Keeps Inv (commit_if verdict changed)
commit_if-Keeps Inv verdict true = commit_or_rollback-Keeps Inv verdict
commit_if-Keeps Inv verdict false = λ s h. h

pub logout_guard-IsGuard :
    (settings : AuthSettings) (request : HttpRequest) → IsGuard (logout_guard settings request)
logout_guard-IsGuard settings request =
    IsGuard-if (is_empty (strip (or_empty request.bearer)))
      (verify_csrf_for_cookie_request settings request true) (pure tt)
      (verify_csrf-IsGuard settings request true) IsGuard-pure

module _ (jti exp : ℕ) where
  abbrev Revoked : Database → Type 0
  Revoked = IsRevokedUntil jti exp

  try_revoke_refresh_token_once-Keeps :
      (other other_exp : ℕ) → Keeps Revoked (try_revoke_refresh_token_once other other_exp)
  unfolding try_revoke_refresh_token_once
  try_revoke_refresh_token_once-Keeps other other_exp s h =
      elim (Bool-cases (is_revoked other s.working)) [
        | inl e ↦ rw e (h.0, h.0)
        | inr e ↦ rw e (
          h.0,
          find?-append (has_jti_of jti) s.working.revoked_tokens
              (record { jti = other; expires_at = other_exp } ∷ []) h.1,
        )
      ]

  module _ (jwt : Jwt) (one : HasOneExpiry jwt jti exp) (settings : AuthSettings) where
    module _ (env : SessionSurroundings) (request : HttpRequest) (pos : 0 < exp) where
      finish_refresh-Keeps :
          (user_id other : ℕ) (claims : Claims) (violation : Option Violation)
          → Keeps Revoked (finish_refresh jwt settings env user_id other claims violation)
      unfolding exists
      finish_refresh-Keeps user_id other claims none s h = h
      finish_refresh-Keeps user_id other claims (some v) s h = (h.0, h.0)

      spend_refresh-Keeps :
          (user_id other : ℕ) (claims : Claims) (fresh : Bool)
          → Keeps Revoked (spend_refresh jwt settings env request user_id other claims fresh)
      spend_refresh-Keeps user_id other claims false = λ s h. h
      spend_refresh-Keeps user_id other claims true =
          Keeps-bind Revoked (revoke_access jwt settings env request)
            (λ _. try_commit env.verdict >>= finish_refresh jwt settings env user_id other claims)
            (revoke_token-Keeps jti exp (decode_access_token jwt env.now)
              (access-HasExpiry jwt env.now jti exp one) pos
              (env.now + max 60 (settings.access_token_minutes * 60)) request.access_cookie)
            (λ _.
              Keeps-bind Revoked (try_commit env.verdict)
                (finish_refresh jwt settings env user_id other claims)
                (Keeps-try_commit Revoked env.verdict) (finish_refresh-Keeps user_id other claims))

      refresh_of_user-Keeps :
          (claims : Claims) (user_id other : ℕ)
          → Keeps Revoked (refresh_of_user jwt settings env request claims user_id other)
      refresh_of_user-Keeps claims user_id other =
          let other_exp = exp_or (env.now + settings.refresh_token_days * 86400) claims.exp in
          Keeps-bind Revoked (try_revoke_refresh_token_once other other_exp)
            (spend_refresh jwt settings env request user_id other claims)
            (try_revoke_refresh_token_once-Keeps other other_exp)
            (spend_refresh-Keeps user_id other claims)

      verified_or_refused-Keeps :
          (claims : Claims) (other : ℕ) (user : Option User)
          → Keeps Revoked (verified_or_refused jwt settings env request claims other user)
      verified_or_refused-Keeps claims other none = λ s h. h
      verified_or_refused-Keeps claims other (some user) =
          Keeps-if Revoked (settings.auth_email_verification_required && not user.email_verified)
            (pure (refused 403 auth_email_not_verified true))
            (refresh_of_user jwt settings env request claims user.id other) (λ s h. h)
            (refresh_of_user-Keeps claims user.id other)

      refresh_with-Keeps :
          (o : Option (Claims × ℕ)) → Keeps Revoked (refresh_with jwt settings env request o)
      refresh_with-Keeps none s h = h
      refresh_with-Keeps (some (claims, other)) s h =
          verified_or_refused-Keeps claims other (claimed_user claims.sub s.working) s h

      pub refresh_session-Keeps : Keeps Revoked (refresh_session jwt settings env request)
      unfolding refresh_session
      refresh_session-Keeps =
          let guard = verify_csrf_for_cookie_request settings request false in
          let decoded = jti_of (decode_refresh_token jwt env.now (refresh_cookie_of request)) in
          let body =
            if is_empty (refresh_cookie_of request)
            then pure (refused 401 auth_token_missing true)
            else refresh_with jwt settings env request decoded in
          Keeps-bind Revoked guard (λ _. body)
            (IsGuard-Keeps Revoked guard (verify_csrf-IsGuard settings request false))
            (λ _.
              Keeps-if Revoked (is_empty (refresh_cookie_of request))
                (pure (refused 401 auth_token_missing true))
                (refresh_with jwt settings env request decoded) (λ s h. h)
                (refresh_with-Keeps decoded))

      revoke_both-Keeps : Keeps Revoked (revoke_both jwt settings env request)
      revoke_both-Keeps =
          let access =
            revoke_token (decode_access_token jwt env.now)
              (env.now + max 60 (settings.access_token_minutes * 60))
              (some (access_token_of request)) in
          let refresh =
            revoke_token (decode_refresh_token jwt env.now)
              (env.now + max 60 (settings.refresh_token_days * 86400)) request.refresh_cookie in
          let close : Bool → Bool → Handler Unit =
            λ changed changed_too. commit_if env.verdict (changed || changed_too) in
          Keeps-bind Revoked access (λ a. refresh >>= close a)
            (revoke_token-Keeps jti exp (decode_access_token jwt env.now)
              (access-HasExpiry jwt env.now jti exp one) pos
              (env.now + max 60 (settings.access_token_minutes * 60))
              (some (access_token_of request)))
            (λ a.
              Keeps-bind Revoked refresh (close a)
                (revoke_token-Keeps jti exp (decode_refresh_token jwt env.now)
                  (refresh-HasExpiry jwt env.now jti exp one) pos
                  (env.now + max 60 (settings.refresh_token_days * 86400)) request.refresh_cookie)
                (λ b. commit_if-Keeps Revoked env.verdict (a || b)))

      pub logout-Keeps : Keeps Revoked (logout jwt settings env request)
      unfolding logout
      logout-Keeps =
          Keeps-bind Revoked (logout_guard settings request)
            (λ _. revoke_both jwt settings env request)
            (IsGuard-Keeps Revoked (logout_guard settings request)
              (logout_guard-IsGuard settings request))
            (λ _. revoke_both-Keeps)
