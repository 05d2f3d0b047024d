-- ===== src/Auth/Revocation/Spent.antt =====
-- auth.py: what a refresh or a logout revokes.
use money_flow_service.Prelude.{
  [], ◌∷◌, ◌++◌, nat_beq_refl, ◌*◌, max, ◌+◌, ◌<◌, refl, Option-cases, inr, inl, Bool-cases, true,
  ◌⊎◌, false, ◌≡◌, ℕ, Option, some,
}
use money_flow_service.Auth.Sessions.{
  revoke_access, spend_refresh, refresh_of_user, try_revoke_refresh_token_once, refused,
  finish_refresh, is_revoked, refreshed, RefreshResult, SessionSurroundings,
}
use money_flow_service.Auth.Tokens.{
  has_jti_of, decode_access_token, Jwt, exp_or, upsert_revoked_token, Claims, revoke_token,
}
use money_flow_service.Prelude.Tables.Finding.{find?-new}
use money_flow_service.Session.{outcome_cases, raised, Outcome, ◌>>=◌, try_commit, ok, Session}
use money_flow_service.Auth.Revocation.Keeping.{access-HasExpiry, exp_or-same}
use money_flow_service.Models.{RevokedToken, Database}
use money_flow_service.Prelude.Tables.{exists}
use money_flow_service.Auth.Revocation.Rows.{upsert_revoked_token-kept}
use money_flow_service.Auth.Requests.{HttpRequest, AuthSettings}
use money_flow_service.Auth.Revocation.{IsRevokedUntil, HasOneExpiry, HasExpiry}
use money_flow_service.Prelude.Text.{is_empty, or_empty, strip, Text}

pub revoke_token_cases :
    (decode : Text → Option Claims) (fallback : ℕ) (raw : Option Text) (s : Session)
    → (revoke_token decode fallback raw s ≡ (ok false, s))
      ⊎ ((claims : Claims) × (other : ℕ) × (decode (strip (or_empty raw)) ≡ some claims)
          × (claims.jti ≡ some other)
          × (revoke_token decode fallback raw s ≡ (
            ok true,
            record s {
              working = record s.working {
                revoked_tokens =
                    upsert_revoked_token other
                      (exp_or fallback claims.exp)
                      s.working.revoked_tokens;
              };
            },
          )))
unfolding revoke_token
revoke_token_cases decode fallback raw s = elim (Bool-cases (is_empty (strip (or_empty raw)))) [
  | inl e ↦ inl (rw e refl)
  | inr e ↦ elim (Option-cases (decode (strip (or_empty raw)))) [
    | inl d ↦ inl (rw (e, d) refl)
    | inr (claims, d) ↦ elim (Option-cases claims.jti) [
      | inl k ↦ inl (rw (e, d, k) refl)
      | inr (other, k) ↦ inr (claims, other, d, k, rw (e, d, k) refl)
    ]
  ]
]

-- What an answer with new tokens says of the token that was given for them.
abbrev pub IsSpent : (jti exp : ℕ) → Database → Outcome RefreshResult × Session → Type 0
IsSpent jti exp db (ok (refreshed access refresh), s) =
    (is_revoked jti db ≡ false) × IsRevokedUntil jti exp s.stored
IsSpent jti exp db (ok (refused status code clear), s) = Unit
IsSpent jti exp db (raised e, s) = Unit

module _ (jti exp : ℕ) where
  -- In what the request works on, a token stays revoked while another is.
  pub revoke_token-working :
      (decode : Text → Option Claims) (fallback : ℕ) (raw : Option Text) (s : Session)
      → HasExpiry decode jti exp
      → 0 < exp
      → IsRevokedUntil jti exp s.working
      → IsRevokedUntil jti exp (revoke_token decode fallback raw s).1.working
  revoke_token-working decode fallback raw s has pos h =
      elim (revoke_token_cases decode fallback raw s) [
        | inl e ↦ rw e h
        | inr (claims, other, d, k, e) ↦
            let same : other ≡ jti → exp_or fallback claims.exp ≡ exp = λ eq.
              exp_or-same jti exp fallback claims.exp pos
                (has (strip (or_empty raw)) claims d (rw eq at k)) in
            rw e (
              upsert_revoked_token-kept jti exp other (exp_or fallback claims.exp)
                s.working.revoked_tokens same h)
      ]

  module _ (jwt : Jwt) (one : HasOneExpiry jwt jti exp) (settings : AuthSettings)
      (env : SessionSurroundings) (request : HttpRequest) (pos : 0 < exp) where
    abbrev SpendsIn : Database → Outcome RefreshResult × Session → Type 0
    SpendsIn = IsSpent jti exp

    finished :
        (user_id : ℕ) (claims : Claims) (db : Database) (s : Session)
        → is_revoked jti db ≡ false
        → IsRevokedUntil jti exp s.working
        → SpendsIn db
            ((try_commit env.verdict >>= finish_refresh jwt settings env user_id jti claims) s)
    unfolding try_commit exists
    finished user_id claims db s fresh h = elim (Option-cases (env.verdict s.working)) [
      | inl e ↦ rw e (fresh, h)
      | inr (v, e) ↦ rw e tt
    ]

    spent :
        (user_id : ℕ) (claims : Claims) (db : Database) (s : Session)
        → is_revoked jti db ≡ false
        → IsRevokedUntil jti exp s.working
        → SpendsIn db (spend_refresh jwt settings env request user_id jti claims true s)
    spent user_id claims db s fresh h =
        let kept =
          revoke_token-working (decode_access_token jwt env.now)
            (env.now + max 60 (settings.access_token_minutes * 60)) request.access_cookie s
            (access-HasExpiry jwt env.now jti exp one) pos h in
        elim (outcome_cases (revoke_access jwt settings env request s)) [
          | inl (changed, s', e) ↦ rw e (finished user_id claims db s' fresh (rw e at kept))
          | inr (err, s', e) ↦ rw e tt
        ]

    pub refresh_of_user-IsSpent :
        (claims : Claims) (user_id : ℕ) (s : Session)
        → claims.exp ≡ some exp
        → SpendsIn s.working (refresh_of_user jwt settings env request claims user_id jti s)
    unfolding try_revoke_refresh_token_once
    refresh_of_user-IsSpent claims user_id s expires =
        elim (Bool-cases (is_revoked jti s.working)) [
          | inl e ↦ rw e tt
          | inr e ↦
              let row_exp =
                exp_or-same jti exp (env.now + settings.refresh_token_days * 86400) claims.exp pos
                  expires in
              let row : RevokedToken = record { jti = jti; expires_at = exp } in
              let found =
                find?-new (has_jti_of jti) s.working.revoked_tokens row e (nat_beq_refl jti) in
              let rows = s.working.revoked_tokens ++ row ∷ [] in
              rw (e, row_exp)
                (spent user_id claims s.working
                  (record s { working = record s.working { revoked_tokens = rows } }) e found)
        ]
