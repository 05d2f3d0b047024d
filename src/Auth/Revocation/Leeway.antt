-- ===== src/Auth/Revocation/Leeway.antt =====
-- deps.py, `get_current_user`: a revoked token that is out of date, but not yet for PyJWT.
use money_flow_service.Session.{
  Session, Outcome, stored_after, raised, ok, open_session, outcome, try_commit, commit, Verdict,
  IsAccepting,
}
use money_flow_service.Prelude.{
  ap, arith, nat_beq_iff, [], refl, true, none, ◌≤◌, leb, some, false, ◌≡◌, ℕ,
}
use money_flow_service.Prelude.Tables.Finding.{find?-delete_all}
use money_flow_service.Prelude.Tables.{find?-holds, find?, delete}
use money_flow_service.Errors.{auth_token_invalid, app_error}
use money_flow_service.Auth.CurrentUser.{find_user, user_of_raw, raw_access_token, get_current_user}
use money_flow_service.Auth.Tokens.{decode_access_token, Claims, has_jti_of, Jwt}
use money_flow_service.Prelude.Text.{is_empty}
use money_flow_service.Models.{RevokedToken, User, Database}
use money_flow_service.Auth.Requests.{HttpRequest, AuthSettings}

abbrev forgotten : (jti : ℕ) → Database → Database
forgotten jti db = record db { revoked_tokens = delete (has_jti_of jti) db.revoked_tokens }

module _ (jwt : Jwt) (settings : AuthSettings) (verdict : Verdict) (now : ℕ) (request : HttpRequest)
    (claims : Claims) (user : User) (user_id jti : ℕ) (row : RevokedToken) where
  first_request :
      (db : Database)
      → (raw_access_token request).1 ≡ false
      → is_empty (raw_access_token request).0 ≡ false
      → decode_access_token jwt now (raw_access_token request).0 ≡ some claims
      → claims.sub ≡ some user_id
      → claims.jti ≡ some jti
      → find_user user_id db ≡ some user
      → find? (has_jti_of jti) db.revoked_tokens ≡ some row
      → leb row.expires_at now ≡ true
      → row.jti ≡ jti
      → verdict (forgotten jti db) ≡ none
      → get_current_user jwt settings verdict now request (open_session db) ≡ (
        raised (app_error 401 auth_token_invalid),
        record { stored = forgotten jti db; working = forgotten jti db; events = [] },
      )
  unfolding get_current_user user_of_raw commit try_commit
  first_request db bearer given decoded names has known found late same accepts =
      rw (bearer, given, decoded, names, has, known, found, late, same, accepts) refl

  second_request :
      (db : Database)
      → (raw_access_token request).1 ≡ false
      → is_empty (raw_access_token request).0 ≡ false
      → decode_access_token jwt now (raw_access_token request).0 ≡ some claims
      → claims.sub ≡ some user_id
      → claims.jti ≡ some jti
      → find_user user_id db ≡ some user
      → find? (has_jti_of jti) db.revoked_tokens ≡ none
      → outcome (get_current_user jwt settings verdict now request) db ≡ ok user
  unfolding get_current_user user_of_raw
  second_request db bearer given decoded names has known missing =
      rw (bearer, given, decoded, names, has, known, missing) refl

  -- Let a bearer token that is not blank name a stored user and decode at a time at which its row of
  -- revoked tokens is out of date, as it does in the seconds of leeway, and let the database accept
  -- every commit. Then the first request with it is refused, after it no revoked token has that jti,
  -- and the same request made again has the user.
  pub get_current_user-forgets :
      (db : Database)
      → (raw_access_token request).1 ≡ false
      → is_empty (raw_access_token request).0 ≡ false
      → decode_access_token jwt now (raw_access_token request).0 ≡ some claims
      → claims.sub ≡ some user_id
      → claims.jti ≡ some jti
      → find_user user_id db ≡ some user
      → find? (has_jti_of jti) db.revoked_tokens ≡ some row
      → row.expires_at ≤ now
      → IsAccepting verdict
      → (outcome (get_current_user jwt settings verdict now request) db
          ≡ raised (app_error 401 auth_token_invalid))
        × (find?
              (has_jti_of jti)
              (stored_after (get_current_user jwt settings verdict now request) db).revoked_tokens
            ≡ none)
        × (outcome
              (get_current_user jwt settings verdict now request)
              (stored_after (get_current_user jwt settings verdict now request) db)
            ≡ ok user)
  get_current_user-forgets db bearer given decoded names has known found late accepts =
      let same : row.jti ≡ jti =
        (nat_beq_iff row.jti jti).0 (find?-holds (has_jti_of jti) db.revoked_tokens found) in
      let first =
        first_request db bearer given decoded names has known found (ground (arith, late)) same
          (accepts (forgotten jti db)) in
      let gone : find? (has_jti_of jti) (forgotten jti db).revoked_tokens ≡ none =
        find?-delete_all (has_jti_of jti) db.revoked_tokens in
      let second = second_request (forgotten jti db) bearer given decoded names has known gone in
      let stored : stored_after (get_current_user jwt settings verdict now request) db
          ≡ forgotten jti db =
        ap (λ (r : Outcome User × Session). r.1.stored) first in
      (ap (λ (r : Outcome User × Session). r.0) first, rw stored gone, rw stored second)
