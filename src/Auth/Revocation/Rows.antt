-- ===== src/Auth/Revocation/Rows.antt =====
-- The rows of revoked tokens after each way to write them.
use money_flow_service.Prelude.{
  nat_beq_refl, ◌++◌, false, true, refl, [], ◌∷◌, arith, leb, some, ◌≡◌, ◌<◌, List, ℕ,
}
use money_flow_service.Prelude.Tables.Finding.{find?-new, find?-append, find?-update, find?-delete}
use money_flow_service.Prelude.Tables.{exists, update, find?}
use money_flow_service.Auth.Tokens.{has_jti_of, upsert_revoked_token}
use money_flow_service.Auth.Revocation.{IsRevokedUntil}
use money_flow_service.Models.{Database, RevokedToken}
use money_flow_service.Auth.Requests.{AuthSettings}
use money_flow_service.Auth.Throttles.{maybe_cleanup_auth_artifacts}

abbrev row_of : (jti exp : ℕ) → RevokedToken
row_of jti exp = record { jti = jti; expires_at = exp }

pub upsert_revoked_token-kept :
    (jti exp other other_exp : ℕ) (rows : List RevokedToken)
    → (other ≡ jti → other_exp ≡ exp)
    → find? (has_jti_of jti) rows ≡ some (row_of jti exp)
    → find? (has_jti_of jti) (upsert_revoked_token other other_exp rows) ≡ some (row_of jti exp)
unfolding upsert_revoked_token
upsert_revoked_token-kept jti exp other other_exp rows same h =
    let kept =
      find?-update (has_jti_of other) (has_jti_of jti)
        (λ (row : RevokedToken). record row { expires_at = other_exp }) rows (λ _ _. refl) h in
    let appended = find?-append (has_jti_of jti) rows (row_of other other_exp ∷ []) h in
    ground (arith, same)

overwritten :
    (jti exp : ℕ) (rows : List RevokedToken)
    → exists (has_jti_of jti) rows ≡ true
    → find? (has_jti_of jti) (update (has_jti_of jti) (λ row. record row { expires_at = exp }) rows)
      ≡ some (row_of jti exp)
unfolding find? update exists
overwritten jti exp [] h = cc
overwritten jti exp (row ∷ rows) h = ground (arith, overwritten jti exp rows)

pub upsert_revoked_token-written :
    (jti exp : ℕ) (rows : List RevokedToken)
    → find? (has_jti_of jti) (upsert_revoked_token jti exp rows) ≡ some (row_of jti exp)
unfolding upsert_revoked_token
upsert_revoked_token-written jti exp rows =
    let appended : exists (has_jti_of jti) rows ≡ false
        → find? (has_jti_of jti) (rows ++ row_of jti exp ∷ []) ≡ some (row_of jti exp) =
      λ h. find?-new (has_jti_of jti) rows (row_of jti exp) h (nat_beq_refl jti) in
    ground (arith, appended, overwritten jti exp rows)

pub maybe_cleanup-kept :
    (settings : AuthSettings) (now : ℕ) (db : Database) (jti exp : ℕ)
    → now < exp
    → IsRevokedUntil jti exp db
    → IsRevokedUntil jti exp (maybe_cleanup_auth_artifacts settings now db)
unfolding maybe_cleanup_auth_artifacts
maybe_cleanup-kept settings now db jti exp late h =
    let kept =
      find?-delete (λ (row : RevokedToken). leb row.expires_at now) (has_jti_of jti)
        db.revoked_tokens h in
    ground (arith, kept)
