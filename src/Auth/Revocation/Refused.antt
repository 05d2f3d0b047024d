-- ===== src/Auth/Revocation/Refused.antt =====
-- deps.py: requests with a token whose `jti` stands in a row of revoked tokens.
use money_flow_service.Session.Guards.{pair-eq, guard_passed}
use money_flow_service.Auth.Revocation.CurrentUser.{enforce_csrf_for_cookie-IsGuard}
use money_flow_service.Session.{
  open_session, outcome, outcome_cases, ok, Session, Verdict, try_commit, commit,
}
use money_flow_service.Auth.CurrentUser.{
  enforce_csrf_for_cookie, raw_access_token, get_current_user, find_user, delete_if_expired,
  user_of_raw, refuse_if_revoked,
}
use money_flow_service.Models.{Database, RevokedToken, User}
use money_flow_service.Auth.Requests.{HttpRequest, AuthSettings}
use money_flow_service.Prelude.{Option-cases, Bool-cases, inr, inl, ◌≡◌, ℕ, some}
use money_flow_service.Prelude.Text.{is_empty, Text}
use money_flow_service.Auth.Tokens.{has_jti_of, decode_access_token, Claims, Jwt}
use money_flow_service.Prelude.Tables.{find?, delete}

refuse_if_revoked-raises :
    (verdict : Verdict) (now : ℕ) (user answer : User) (row : RevokedToken) (s s' : Session)
    → ¬ (refuse_if_revoked verdict now user (some row) s ≡ (ok answer, s'))
unfolding delete commit try_commit
refuse_if_revoked-raises verdict now user answer row s s' =
    elim (outcome_cases (delete_if_expired verdict now row s)) [
      | inl (u, t, e) ↦ λ h. cc (rw e at h)
      | inr (err, t, e) ↦ λ h. cc (rw e at h)
    ]

pub user_of_raw-revoked :
    (jwt : Jwt) (verdict : Verdict) (now : ℕ) (raw : Text) (s s' : Session) (claims : Claims)
    (jti : ℕ) (row : RevokedToken) (answer : User)
    → decode_access_token jwt now raw ≡ some claims
    → claims.jti ≡ some jti
    → find? (has_jti_of jti) s.working.revoked_tokens ≡ some row
    → ¬ (user_of_raw jwt verdict now raw s ≡ (ok answer, s'))
unfolding user_of_raw find?
user_of_raw-revoked jwt verdict now raw s s' claims jti row answer decoded has found h =
    elim (Bool-cases (is_empty raw)) [
      | inl e ↦ cc (rw e at h)
      | inr e ↦ elim (Option-cases claims.sub) [
        | inl k ↦ cc (rw (e, decoded, k) at h)
        | inr (user_id, k) ↦ elim (Option-cases (find_user user_id s.working)) [
          | inl u ↦ cc (rw (e, decoded, k, u) at h)
          | inr (user, u) ↦
              refuse_if_revoked-raises verdict now user answer row s s'
                (rw (e, decoded, k, u, has, found) at h)
        ]
      ]
    ]

pub get_current_user-revoked :
    (jwt : Jwt) (settings : AuthSettings) (verdict : Verdict) (now : ℕ) (request : HttpRequest)
    (db : Database) (claims : Claims) (jti : ℕ) (row : RevokedToken) (answer : User)
    → decode_access_token jwt now (raw_access_token request).0 ≡ some claims
    → claims.jti ≡ some jti
    → find? (has_jti_of jti) db.revoked_tokens ≡ some row
    → ¬ (outcome (get_current_user jwt settings verdict now request) db ≡ ok answer)
unfolding get_current_user
get_current_user-revoked jwt settings verdict now request db claims jti row answer decoded has found
      h =
    let guard = enforce_csrf_for_cookie settings request (raw_access_token request).1 in
    let raw = (raw_access_token request).0 in
    let whole = get_current_user jwt settings verdict now request (open_session db) in
    let passed =
      guard_passed guard (user_of_raw jwt verdict now raw) (open_session db) whole.1 answer
        (enforce_csrf_for_cookie-IsGuard settings request (raw_access_token request).1)
        (pair-eq whole h) in
    user_of_raw-revoked jwt verdict now raw (open_session db) whole.1 claims jti row answer decoded
      has found passed
