-- ===== src/Auth/Tokens.antt =====
-- app/core/security.py: access and refresh tokens. Signing and the test of `exp` are PyJWT's.
use money_flow_service.Prelude.{
  true, [], nat_eq, ◌∷◌, option_eq, false, max, ◌*◌, ◌++◌, ◌&&◌, none, ◌+◌, List, if◌then◌else◌,
  ◌==◌, not, some, ℕ, Bool, Option,
}
use money_flow_service.Session.{◌>>◌, modify, pure, Handler}
use money_flow_service.Prelude.Text.{or_empty, text_eq, is_empty, text, Text, strip}
use money_flow_service.Prelude.Tables.{update, exists}
use money_flow_service.Models.{RevokedToken}
use money_flow_service.Auth.Requests.{AuthSettings}

-- The claims of a token that the program reads; a `jti` that is blank counts as missing.
pub record Claims : Type 0 where
  pub sub : Option ℕ
  pub typ : Text
  pub jti : Option ℕ
  pub iat : ℕ
  pub exp : Option ℕ
  pub remember_me : Option Bool

-- PyJWT with the secret key, the algorithm and the leeway: `decode` gives the claims of a token at
-- some time, or fails.
pub record Jwt : Type 0 where
  pub encode : Claims → Text
  pub decode : (now : ℕ) → Text → Option Claims

-- `JWT_CLOCK_SKEW_LEEWAY_SECONDS`
abbrev pub leeway_seconds : ℕ
leeway_seconds = 5

abbrev pub has_jti : Claims → Bool
has_jti claims = not (claims.jti == none)

abbrev pub only_typed : Text → Option Claims → Option Claims
only_typed typ none = none
only_typed typ (some claims) = if claims.typ == typ && has_jti claims then some claims else none

unfoldable pub decode_access_token : Jwt → (now : ℕ) → Text → Option Claims
decode_access_token jwt now token = only_typed (text "access") (jwt.decode now token)

unfoldable pub decode_refresh_token : Jwt → (now : ℕ) → Text → Option Claims
decode_refresh_token jwt now token = only_typed (text "refresh") (jwt.decode now token)

-- The claims of the tokens that are issued, with the `jti` that is drawn.
abbrev pub access_claims : AuthSettings → (now jti user_id : ℕ) → Claims
access_claims settings now jti user_id = record {
  sub = some user_id;
  typ = text "access";
  jti = some jti;
  iat = now;
  exp = some (now + settings.access_token_minutes * 60);
  remember_me = none;
}

abbrev pub refresh_claims : AuthSettings → (now jti user_id : ℕ) → (remember_me : Bool) → Claims
refresh_claims settings now jti user_id remember_me = record {
  sub = some user_id;
  typ = text "refresh";
  jti = some jti;
  iat = now;
  exp = some (now + max 1 settings.refresh_token_days * 86400);
  remember_me = some remember_me;
}

-- `create_access_token` and `create_refresh_token`
unfoldable pub create_access_token : Jwt → AuthSettings → (now jti user_id : ℕ) → Text
create_access_token jwt settings now jti user_id =
    jwt.encode (access_claims settings now jti user_id)

unfoldable pub create_refresh_token :
    Jwt → AuthSettings → (now jti user_id : ℕ) → (remember_me : Bool) → Text
create_refresh_token jwt settings now jti user_id remember_me =
    jwt.encode (refresh_claims settings now jti user_id remember_me)

-- The rows of revoked tokens.
abbrev pub has_jti_of : ℕ → RevokedToken → Bool
has_jti_of jti row = row.jti == jti

-- `_upsert_revoked_token`
unfoldable pub upsert_revoked_token : (jti exp : ℕ) → List RevokedToken → List RevokedToken
unfolding exists update
upsert_revoked_token jti exp rows =
    if exists (has_jti_of jti) rows
    then update (has_jti_of jti) (λ row. record row { expires_at = exp }) rows
    else rows ++ record { jti = jti; expires_at = exp } ∷ []

-- `int(payload.get("exp") or ...)`
abbrev pub exp_or : ℕ → Option ℕ → ℕ
exp_or fallback none = fallback
exp_or fallback (some exp) = if exp == 0 then fallback else exp

abbrev pub revoke_claims : (fallback_exp : ℕ) → Option Claims → Handler Bool
revoke_claims fallback_exp none = pure false
revoke_claims fallback_exp (some claims) = elim claims.jti [
  | none ↦ pure false
  | some jti ↦
      modify (λ db. record db {
        revoked_tokens =
            upsert_revoked_token jti (exp_or fallback_exp claims.exp) db.revoked_tokens;
      })
      >> pure true
]

-- `_revoke_token`, with the decoder applied to the time; whether a row was written.
unfoldable pub revoke_token :
    (decode : Text → Option Claims) → (fallback_exp : ℕ) → Option Text → Handler Bool
unfolding upsert_revoked_token strip
revoke_token decode fallback_exp raw_token =
    if is_empty (strip (or_empty raw_token))
    then pure false
    else revoke_claims fallback_exp (decode (strip (or_empty raw_token)))
