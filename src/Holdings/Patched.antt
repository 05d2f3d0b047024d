-- ===== src/Holdings/Patched.antt =====
-- holdings.py, `patch_holding`: what a patch stores.
use money_flow_service.Holdings.After.{column_after, value_after-eq}
use money_flow_service.Merge.{applied, conflict, unchanged, merge_patch, MergeResult}
use money_flow_service.Prelude.{
  ◌∙◌, refl, [], ◌∷◌, map, Option-cases, inr, inl, ◌+◌, nat_eq, none, some, ◌&&◌, ◌==◌, ◌⊎◌, List,
  ◌≡◌, Bool, ℕ,
}
use money_flow_service.Prelude.Text.{text}
use money_flow_service.Holdings.Cases.{
  IsOwnerSet, load_found, applied_id, row_after, raise_fields_cases, load_holding_read_cases,
  resolve_holding_owner_cases,
}
use money_flow_service.Session.{
  outcome_cases, broadcast_patched, open_session, Verdict, raised, Session, Outcome, ok,
}
use money_flow_service.Holdings.Patching.{
  blank_fields, holding_null_fields, patch_holding, patch_found_holding, apply_holding_patch,
  write_holding_patch, holding_patch_data, target_identity, HoldingPatch,
}
use money_flow_service.Merge.Effect.{merge_patch-effect}
use money_flow_service.Errors.{
  holding_patch_blank_not_allowed, holding_patch_null_not_allowed, foreign_key_category,
  transaction_source_ref, holding_identity, other_constraint,
}
use money_flow_service.Ledger.Patching.{OwnerPatch}
use money_flow_service.Models.{User, Household, Holding, Database}
use money_flow_service.Holdings.Columns.{field_name, get_column, holding_columns, HoldingField}
use money_flow_service.Holdings.Identity.{find_duplicate_holding, HoldingRead}
use money_flow_service.Prelude.Tables.{find?}

module _ (household_id user_id : ℕ) (payload : HoldingPatch) (db : Database) where
  -- The owner is patched as the payload sets it, the holding has the next version, each column the
  -- value that the payload and the owner give it or its old one, no other holding is the same asset,
  -- and it and its log are what is stored.
  abbrev IsWritten : Holding → OwnerPatch → Session → Type 0
  IsWritten holding owner s =
      (h : Holding) × (merged : Bool) × (fields : List HoldingField) × IsOwnerSet household_id db
        payload.owner_user_id payload.owner_name holding owner
      × (find_duplicate_holding (target_identity payload owner holding) (some holding.id) db ≡ none)
      × (h.version ≡ holding.version + 1)
      × ((f : HoldingField) → get_column f h ≡ column_after payload owner f (get_column f holding))
      × (s.stored
          ≡ write_holding_patch household_id user_id payload.base_version merged fields h db)

  abbrev IsPatchedFrom : Holding → Outcome HoldingRead × Session → Type 0
  IsPatchedFrom holding (raised e, s) = s.stored ≡ db
  IsPatchedFrom holding (ok body, s) =
      (s.stored ≡ db) ⊎ ((owner : OwnerPatch) × IsWritten holding owner s)

  abbrev pub IsPatched : (holding_id : ℕ) → Outcome HoldingRead × Session → Type 0
  IsPatched holding_id (raised e, s) = s.stored ≡ db
  IsPatched holding_id (ok body, s) =
      (holding : Holding) × (find?
          (λ (h : Holding). h.id == holding_id && h.household_id == household_id) db.holdings
        ≡ some holding)
      × ((s.stored ≡ db) ⊎ ((owner : OwnerPatch) × IsWritten holding owner s))

module _ (verdict : Verdict) (household_id user_id : ℕ) (payload : HoldingPatch) (db : Database)
    (holding : Holding) (holding_id : ℕ)
    (found : find?
        (λ (h : Holding). h.id == holding_id && h.household_id == household_id)
        db.holdings
      ≡ some holding) where
  apply_holding_patch-IsPatchedFrom :
      (owner : OwnerPatch)
      → IsOwnerSet household_id db payload.owner_user_id payload.owner_name holding owner
      → (result : MergeResult holding_columns)
      → find_duplicate_holding (target_identity payload owner holding) (some holding.id) db ≡ none
      → merge_patch holding_columns db.patch_logs
          (text "holding")
          payload.base_version
          (holding_patch_data payload owner)
          holding
        ≡ result
      → IsPatchedFrom household_id user_id payload db holding (
          apply_holding_patch verdict household_id user_id payload.base_version holding result
            (open_session db))
  unfolding apply_holding_patch
  apply_holding_patch-IsPatchedFrom owner set unchanged alone e =
      elim (load_holding_read_cases holding.id (open_session db)) [
        | inl (body, r) ↦ rw r (inl refl)
        | inr (err, r) ↦ rw r refl
      ]
  apply_holding_patch-IsPatchedFrom owner set (conflict fields) alone e = refl
  apply_holding_patch-IsPatchedFrom owner set (applied h merged fields) alone e =
      let db' = write_holding_patch household_id user_id payload.base_version merged fields h db in
      let s' : Session = record {
        stored = db';
        working = db';
        events = broadcast_patched household_id h.id h.version (map field_name fields) merged ∷ [];
      } in
      let effect = λ (f : HoldingField).
        merge_patch-effect holding_columns (holding_patch_data payload owner) db.patch_logs
          (text "holding") payload.base_version holding e f in
      let written : IsWritten household_id user_id payload db holding owner s' = (
        h,
        merged,
        fields,
        set,
        alone,
        (effect HoldingField.quantity).0,
        (λ f. (effect f).1 ∙ value_after-eq payload owner holding f),
        refl,
      ) in
      let (z, there) =
        row_after holding_id household_id user_id payload.base_version merged fields holding h db
          found
          (applied_id db.patch_logs payload.base_version (holding_patch_data payload owner) holding
            h merged fields e) in
      elim (Option-cases (verdict db')) [
        | inl v ↦ rw (v, load_found h.id z s' there) (inr (owner, written))
        | inr (holding_identity, v) ↦ rw v refl
        | inr (foreign_key_category, v) ↦ rw v refl
        | inr (transaction_source_ref, v) ↦ rw v refl
        | inr (other_constraint, v) ↦ rw v refl
      ]

  patch_found_holding-IsPatchedFrom :
      IsPatchedFrom household_id user_id payload db holding
        (patch_found_holding verdict household_id user_id payload holding (open_session db))
  unfolding patch_found_holding
  patch_found_holding-IsPatchedFrom =
      elim (resolve_holding_owner_cases household_id db payload holding) [
        | inr (e, r) ↦ rw r refl
        | inl (owner, r, set) ↦
            elim (Option-cases (
              find_duplicate_holding (target_identity payload owner holding) (some holding.id)
                db)) [
                  | inr (other, d) ↦ rw (r, d) refl
                  | inl d ↦ elim (load_holding_read_cases holding.id (open_session db)) [
                    | inr (e, l) ↦ rw (r, d, l) refl
                    | inl (body, l) ↦
                        rw (r, d, l)
                          (apply_holding_patch-IsPatchedFrom owner set
                            (merge_patch holding_columns db.patch_logs (text "holding")
                              payload.base_version (holding_patch_data payload owner) holding)
                            d refl)
                  ]
                ]
      ]

-- A request to patch a holding either raises and stores nothing, or it is about a holding of the
-- household, and stores nothing new, or it stores that holding with the next version and a log, each
-- column as it was or as the payload sets it: texts trimmed, symbol and currency in upper case, the
-- owner only if the payload sets a column of the owner, and then to what those resolve to; and no
-- other holding is the same asset as it is then.
pub patch_holding-IsPatched :
    (verdict : Verdict) (household : Household) (user : User) (holding_id : ℕ)
    (payload : HoldingPatch) (db : Database)
    → IsPatched household.id user.id payload db holding_id
        (patch_holding verdict household user holding_id payload (open_session db))
unfolding patch_holding
patch_holding-IsPatched verdict household user holding_id payload db =
    elim (Option-cases
      (find? (λ (h : Holding). h.id == holding_id && h.household_id == household.id) db.holdings)) [
        | inl e ↦ rw e refl
        | inr (holding, e) ↦
            elim (raise_fields_cases holding_patch_null_not_allowed (holding_null_fields payload)
              (open_session db)) [
                | inr (x, n) ↦ rw (e, n) refl
                | inl n ↦
                    elim (raise_fields_cases holding_patch_blank_not_allowed (blank_fields payload)
                      (open_session db)) [
                        | inr (x, b) ↦ rw (e, n, b) refl
                        | inl b ↦
                            let patched =
                              patch_found_holding-IsPatchedFrom verdict household.id user.id payload
                                db holding holding_id e in
                            elim (outcome_cases (
                              patch_found_holding verdict household.id user.id payload holding
                                (open_session db))) [
                                  | inl (body, s, c) ↦ rw (e, n, b, c) (holding, e, rw c at patched)
                                  | inr (x, s, c) ↦ rw (e, n, b, c) (rw c at patched)
                                ]
                      ]
              ]
      ]
