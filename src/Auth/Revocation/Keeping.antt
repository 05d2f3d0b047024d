-- ===== src/Auth/Revocation/Keeping.antt =====
-- Rows of revoked tokens through sequences of requests (auth.py, deps.py).
use money_flow_service.Prelude.Text.{text, or_empty, strip, is_empty, Text}
use money_flow_service.Auth.Revocation.{HasOneExpiry, HasExpiry, IsRevokedUntil}
use money_flow_service.Auth.Tokens.{
  Jwt, decode_refresh_token, decode_access_token, revoke_claims, revoke_token, exp_or, only_typed,
  upsert_revoked_token, Claims,
}
use money_flow_service.Prelude.{
  false, inr, inl, Option-cases, none, arith, some, ◌<◌, Option, ◌≡◌, ℕ,
}
use money_flow_service.Session.{pure, modify}
use money_flow_service.Auth.Revocation.Rows.{upsert_revoked_token-kept}
use money_flow_service.Session.Keeps.{Keeps-if, Keeps-modify, Keeps}
use money_flow_service.Models.{Database}

only_typed-decoded :
    (typ : Text) (o : Option Claims) (claims : Claims)
    → only_typed typ o ≡ some claims
    → o ≡ some claims
only_typed-decoded typ none claims h = cc
only_typed-decoded typ (some c) claims h = ground (arith)

module _ (jti exp : ℕ) where
  abbrev Revoked : Database → Type 0
  Revoked = IsRevokedUntil jti exp

  pub exp_or-same : (fallback : ℕ) (o : Option ℕ) → 0 < exp → o ≡ some exp → exp_or fallback o ≡ exp
  exp_or-same fallback none pos h = cc
  exp_or-same fallback (some e) pos h = ground (arith)

  upsert-Keeps :
      (other other_exp : ℕ)
      → (other ≡ jti → other_exp ≡ exp)
      → Keeps Revoked (
          modify (λ db. record db {
            revoked_tokens = upsert_revoked_token other other_exp db.revoked_tokens;
          }))
  upsert-Keeps other other_exp same =
      Keeps-modify Revoked
        (λ db. record db {
          revoked_tokens = upsert_revoked_token other other_exp db.revoked_tokens;
        })
        (λ db h. upsert_revoked_token-kept jti exp other other_exp db.revoked_tokens same h)

  module _ (decode : Text → Option Claims) (has_expiry : HasExpiry decode jti exp)
      (pos : 0 < exp) where
    revoke_claims-Keeps :
        (fallback : ℕ) (token : Text) → Keeps Revoked (revoke_claims fallback (decode token))
    revoke_claims-Keeps fallback token s h = elim (Option-cases (decode token)) [
      | inl e ↦ rw e h
      | inr (claims, e) ↦ elim (Option-cases claims.jti) [
        | inl d ↦ rw (e, d) h
        | inr (other, d) ↦
            let same : other ≡ jti → exp_or fallback claims.exp ≡ exp =
              λ eq. exp_or-same fallback claims.exp pos (has_expiry token claims e (rw eq at d)) in
            rw (e, d) (upsert-Keeps other (exp_or fallback claims.exp) same s h)
      ]
    ]

    pub revoke_token-Keeps :
        (fallback : ℕ) (raw_token : Option Text)
        → Keeps Revoked (revoke_token decode fallback raw_token)
    unfolding revoke_token
    revoke_token-Keeps fallback raw_token =
        Keeps-if Revoked (is_empty (strip (or_empty raw_token))) (pure false)
          (revoke_claims fallback (decode (strip (or_empty raw_token)))) (λ s h. h)
          (revoke_claims-Keeps fallback (strip (or_empty raw_token)))

-- What PyJWT decodes is decoded as an access token or as a refresh token only with its claims.
pub access-HasExpiry :
    (jwt : Jwt) (now jti exp : ℕ)
    → HasOneExpiry jwt jti exp
    → HasExpiry (decode_access_token jwt now) jti exp
unfolding decode_access_token
access-HasExpiry jwt now jti exp one token claims h =
    one now token claims (only_typed-decoded (text "access") (jwt.decode now token) claims h)

pub refresh-HasExpiry :
    (jwt : Jwt) (now jti exp : ℕ)
    → HasOneExpiry jwt jti exp
    → HasExpiry (decode_refresh_token jwt now) jti exp
unfolding decode_refresh_token
refresh-HasExpiry jwt now jti exp one token claims h =
    one now token claims (only_typed-decoded (text "refresh") (jwt.decode now token) claims h)
