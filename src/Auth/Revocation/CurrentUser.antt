-- ===== src/Auth/Revocation/CurrentUser.antt =====
-- Rows of revoked tokens through `get_current_user` (deps.py).
use money_flow_service.Session.Guards.{IsGuard-pure, IsGuard, IsGuard-Keeps}
use money_flow_service.Session.Keeps.{
  Keeps-or_raise, Keeps-raise_if, Keeps-bind, Keeps-commit, Keeps,
}
use money_flow_service.Prelude.{
  true, Bool, nat_beq_iff, ◌∙◌, sym, Option-cases, inr, arith, false, nat_beq, inl, leb, none, some,
  Bool-cases, Option, ◌≡◌, ◌<◌, ℕ,
}
use money_flow_service.Auth.CurrentUser.{
  find_user, subject_of, user_of_token, enforce_csrf_for_cookie, raw_access_token, user_of_raw,
  get_current_user, delete_if_expired, check_revoked,
}
use money_flow_service.Auth.Tokens.{decode_access_token, Claims, Jwt, has_jti_of}
use money_flow_service.Auth.Origins.Guards.{enforce_cookie_csrf-IsGuard}
use money_flow_service.Errors.{
  auth_user_not_found, auth_token_missing, auth_token_invalid, app_error,
}
use money_flow_service.Session.{or_raise, raise_if, raise, Verdict}
use money_flow_service.Prelude.Text.{is_empty, Text}
use money_flow_service.Models.{User, RevokedToken, Database}
use money_flow_service.Auth.Requests.{HttpRequest, AuthSettings}
use money_flow_service.Prelude.Tables.{find?-holds, find?, delete}
use money_flow_service.Prelude.Tables.Finding.{find?-delete}
use money_flow_service.Auth.Revocation.{IsRevokedUntil}

pub enforce_csrf_for_cookie-IsGuard :
    (settings : AuthSettings) (request : HttpRequest) (from_cookie : Bool)
    → IsGuard (enforce_csrf_for_cookie settings request from_cookie)
enforce_csrf_for_cookie-IsGuard settings request true = enforce_cookie_csrf-IsGuard settings request
enforce_csrf_for_cookie-IsGuard settings request false = IsGuard-pure

module _ (jti exp : ℕ) where
  abbrev Revoked : Database → Type 0
  Revoked = IsRevokedUntil jti exp

  found_row :
      (other : ℕ) (row : RevokedToken) (db : Database)
      → row.jti ≡ other
      → row.jti ≡ jti
      → find? (has_jti_of other) db.revoked_tokens ≡ some row
      → IsRevokedUntil jti exp db
      → row.expires_at ≡ exp
  found_row other row db of_other of_jti found revoked =
      let same : other ≡ jti = sym of_other ∙ of_jti in
      let again : find? (has_jti_of jti) db.revoked_tokens ≡ some row = rw same at found in
      let rows : some row ≡ some (record { jti = jti; expires_at = exp }) = sym again ∙ revoked in
      ground (arith)

  module _ (now : ℕ) (before : now < exp) where
    delete_if_expired-Keeps :
        (verdict : Verdict) (other : RevokedToken)
        → (other.jti ≡ jti → other.expires_at ≡ exp)
        → Keeps Revoked (delete_if_expired verdict now other)
    delete_if_expired-Keeps verdict other same s h = elim (Bool-cases (leb other.expires_at now)) [
      | inl e ↦
          let differs : nat_beq jti other.jti ≡ false = ground (arith, same) in
          rw e (
            Keeps-commit Revoked verdict
              (record s {
                working = record s.working {
                  revoked_tokens = delete (has_jti_of other.jti) s.working.revoked_tokens;
                };
              })
              (
                h.0,
                find?-delete (has_jti_of other.jti) (has_jti_of jti) s.working.revoked_tokens h.1
                    differs,
              ))
      | inr e ↦ rw e h
    ]

    check_revoked-Keeps :
        (verdict : Verdict) (user : User) (other : Option ℕ)
        → Keeps Revoked (check_revoked verdict now user other)
    check_revoked-Keeps verdict user none s h = h
    check_revoked-Keeps verdict user (some other) s h =
        elim (Option-cases (find? (has_jti_of other) s.working.revoked_tokens)) [
          | inl e ↦ rw e h
          | inr (row, e) ↦
              let found = find?-holds (has_jti_of other) s.working.revoked_tokens e in
              let same : row.jti ≡ jti → row.expires_at ≡ exp = λ eq.
                found_row other row s.working ((nat_beq_iff row.jti other).0 found) eq e h.1 in
              rw e (
                Keeps-bind Revoked (delete_if_expired verdict now row)
                  (λ _. raise (app_error 401 auth_token_invalid))
                  (delete_if_expired-Keeps verdict row same) (λ _ s h. h) s h)
        ]

    enforce_csrf_for_cookie-Keeps :
        (settings : AuthSettings) (request : HttpRequest) (from_cookie : Bool)
        → Keeps Revoked (enforce_csrf_for_cookie settings request from_cookie)
    enforce_csrf_for_cookie-Keeps settings request from_cookie =
        IsGuard-Keeps Revoked (enforce_csrf_for_cookie settings request from_cookie)
          (enforce_csrf_for_cookie-IsGuard settings request from_cookie)

    user_of_token-Keeps :
        (verdict : Verdict) (o : Option (Claims × ℕ)) → Keeps Revoked (user_of_token verdict now o)
    user_of_token-Keeps verdict none s h = h
    user_of_token-Keeps verdict (some (claims, user_id)) s h =
        Keeps-bind Revoked
          (or_raise (app_error 401 auth_user_not_found) (find_user user_id s.working))
          (λ user. check_revoked verdict now user claims.jti)
          (Keeps-or_raise Revoked (app_error 401 auth_user_not_found) (find_user user_id s.working))
          (λ user. check_revoked-Keeps verdict user claims.jti) s h

    pub user_of_raw-Keeps :
        (jwt : Jwt) (verdict : Verdict) (raw : Text)
        → Keeps Revoked (user_of_raw jwt verdict now raw)
    unfolding user_of_raw
    user_of_raw-Keeps jwt verdict raw =
        Keeps-bind Revoked (raise_if (is_empty raw) (app_error 401 auth_token_missing))
          (λ _. user_of_token verdict now (subject_of (decode_access_token jwt now raw)))
          (Keeps-raise_if Revoked (is_empty raw) (app_error 401 auth_token_missing))
          (λ _. user_of_token-Keeps verdict (subject_of (decode_access_token jwt now raw)))

    pub get_current_user-Keeps :
        (jwt : Jwt) (settings : AuthSettings) (verdict : Verdict) (request : HttpRequest)
        → Keeps Revoked (get_current_user jwt settings verdict now request)
    unfolding get_current_user
    get_current_user-Keeps jwt settings verdict request =
        Keeps-bind Revoked (enforce_csrf_for_cookie settings request (raw_access_token request).1)
          (λ _. user_of_raw jwt verdict now (raw_access_token request).0)
          (enforce_csrf_for_cookie-Keeps settings request (raw_access_token request).1)
          (λ _. user_of_raw-Keeps jwt verdict (raw_access_token request).0)
