-- ===== src/Auth/CurrentUser.antt =====
-- deps.py, `get_current_user`: the user whose access token a request carries.
use money_flow_service.Errors.{
  auth_user_not_found, auth_token_missing, auth_token_invalid, app_error,
}
use money_flow_service.Auth.Tokens.{has_jti_of, Jwt, Claims, decode_access_token}
use money_flow_service.Session.{
  or_raise, query, modify, ◌>>=◌, raise_if, raise, ◌>>◌, commit, pure, Handler, Verdict,
}
use money_flow_service.Prelude.{
  none, not, false, leb, true, nat_eq, if◌then◌else◌, some, Bool, ◌==◌, Option, ℕ,
}
use money_flow_service.Prelude.Text.{is_empty, or_empty, Text, strip}
use money_flow_service.Prelude.Tables.{delete, find?}
use money_flow_service.Auth.Requests.{HttpRequest, AuthSettings}
use money_flow_service.Models.{Database, User, RevokedToken}
use money_flow_service.Auth.Origins.{enforce_cookie_csrf}

-- The token, and whether it comes from a cookie.
abbrev pub raw_access_token : HttpRequest → Text × Bool
raw_access_token request =
    let bearer = strip (or_empty request.bearer) in
    let cookie = strip (or_empty request.access_cookie) in
    if is_empty bearer then (cookie, not (is_empty cookie)) else (bearer, false)

abbrev pub enforce_csrf_for_cookie :
    AuthSettings → HttpRequest → (used_cookie_auth : Bool) → Handler Unit
enforce_csrf_for_cookie settings request true = enforce_cookie_csrf settings request
enforce_csrf_for_cookie settings request false = pure tt

-- A row that is out of date is deleted, and the request is refused all the same.
abbrev pub delete_if_expired : Verdict → (now : ℕ) → RevokedToken → Handler Unit
delete_if_expired verdict now row =
    if leb row.expires_at now
    then modify (λ db. record db { revoked_tokens = delete (has_jti_of row.jti) db.revoked_tokens })
      >> commit verdict
    else pure tt

abbrev pub refuse_if_revoked : Verdict → (now : ℕ) → User → Option RevokedToken → Handler User
refuse_if_revoked verdict now user none = pure user
refuse_if_revoked verdict now user (some row) =
    delete_if_expired verdict now row >> raise (app_error 401 auth_token_invalid)

abbrev pub check_revoked : Verdict → (now : ℕ) → User → (jti : Option ℕ) → Handler User
check_revoked verdict now user none = pure user
check_revoked verdict now user (some jti) = do
  row ← query (λ db. find? (has_jti_of jti) db.revoked_tokens)
  refuse_if_revoked verdict now user row

abbrev pub find_user : (user_id : ℕ) → Database → Option User
find_user user_id db = find? (λ (u : User). u.id == user_id) db.users

-- `payload["sub"]`
abbrev pub subject_of : Option Claims → Option (Claims × ℕ)
subject_of none = none
subject_of (some claims) = elim claims.sub [ none ↦ none | some user_id ↦ some (claims, user_id) ]

abbrev pub user_of_token : Verdict → (now : ℕ) → Option (Claims × ℕ) → Handler User
user_of_token verdict now none = raise (app_error 401 auth_token_invalid)
user_of_token verdict now (some (claims, user_id)) = do
  row ← query (find_user user_id)
  user ← or_raise (app_error 401 auth_user_not_found) row
  check_revoked verdict now user claims.jti

unfoldable pub user_of_raw : Jwt → Verdict → (now : ℕ) → Text → Handler User
unfolding decode_access_token find? delete commit
user_of_raw jwt verdict now raw_token = do
  raise_if (is_empty raw_token) (app_error 401 auth_token_missing)
  user_of_token verdict now (subject_of (decode_access_token jwt now raw_token))

unfoldable pub get_current_user :
    Jwt → AuthSettings → Verdict → (now : ℕ) → HttpRequest → Handler User
unfolding user_of_raw enforce_cookie_csrf strip
get_current_user jwt settings verdict now request = do
  enforce_csrf_for_cookie settings request (raw_access_token request).1
  user_of_raw jwt verdict now (raw_access_token request).0
