-- ===== src/Holdings/Cases.antt =====
-- holdings.py: the steps of a patch, case by case.
use money_flow_service.Prelude.{
  false, true, nat_eq, if◌then◌else◌, nat_beq_refl, [], none, sym, ◌∷◌, ◌∙◌, inr, nat_beq_iff, refl,
  Option-cases, ap, inl, ◌&&◌, some, ◌==◌, ◌⊎◌, ◌≡◌, Bool, List, ℕ, Option,
}
use money_flow_service.Errors.{
  holding_owner_invalid, holding_not_found, http_exception, fields_error, AppError, Code,
}
use money_flow_service.Holdings.Patching.{
  without_nulls, write_holding_patch, raise_fields, HoldingPatch, resolve_holding_owner,
  names_owner,
}
use money_flow_service.Ledger.Patching.{get_or, OwnerPatch}
use money_flow_service.Prelude.Tables.Finding.{find?-update, find?-other}
use money_flow_service.Merge.{patch_fields, merge_patch, Patch, applied}
use money_flow_service.Ledger.Cases.{resolve_owner_fields_cases}
use money_flow_service.Merge.Effect.{entity_id-assign_all, merge_patch-applied}
use money_flow_service.Ledger.Reads.{linked_owner_name}
use money_flow_service.Session.{raised, Session, ok, outcome, Outcome, open_session}
use money_flow_service.OwnerLinks.{resolve_owner_fields}
use money_flow_service.Prelude.Text.{text, Text}
use money_flow_service.Holdings.Identity.{
  to_holding_read, has_holding_id, HoldingRead, load_holding_read,
}
use money_flow_service.Holdings.Columns.{holding_columns, HoldingField}
use money_flow_service.Models.{Database, Holding, EntityPatchLog}
use money_flow_service.Prelude.Tables.{find?}

pub load_holding_read_cases :
    (i : ℕ) (s : Session)
    → ((body : HoldingRead) × (load_holding_read i s ≡ (ok body, s)))
      ⊎ ((e : AppError) × (load_holding_read i s ≡ (raised e, s)))
unfolding load_holding_read
load_holding_read_cases i s = elim (Option-cases (find? (has_holding_id i) s.working.holdings)) [
  | inl e ↦ inr (http_exception 404 holding_not_found, rw e)
  | inr (h, e) ↦ inl (to_holding_read h (linked_owner_name s.working h.owner_user_id), rw e)
]

module _ (household_id : ℕ) (db : Database) where
  -- The two columns of the owner that a user and a name resolve to
  abbrev IsResolved : (owner_user_id : Option ℕ) → (owner_name : Option Text) → OwnerPatch → Type 0
  IsResolved owner_user_id owner_name owner =
      (o : Option ℕ × Option Text) × (outcome
          (resolve_owner_fields household_id owner_user_id owner_name holding_owner_invalid) db
        ≡ ok o)
      × (owner ≡ some o)

  -- A payload that sets neither column of the owner patches none; one that sets one or both patches
  -- both, to what they resolve to, a column that is not set being as the holding has it.
  abbrev pub IsOwnerSet :
      (owner_user_id : Option (Option ℕ))
      → (owner_name : Option (Option Text)) → Holding
      → OwnerPatch
      → Type 0
  IsOwnerSet none none holding owner = owner ≡ none
  IsOwnerSet (some u) none holding owner = IsResolved u holding.owner_name owner
  IsOwnerSet none (some n) holding owner = IsResolved holding.owner_user_id n owner
  IsOwnerSet (some u) (some n) holding owner = IsResolved u n owner

  module _ (payload : HoldingPatch) (holding : Holding) where
    abbrev EndsWell : (OwnerPatch → Type 0) → Type 0
    EndsWell P =
        ((owner : OwnerPatch) × (resolve_holding_owner household_id payload holding
              (open_session db)
            ≡ (ok owner, open_session db))
          × P owner)
        ⊎ ((e : AppError) × (resolve_holding_owner household_id payload holding (open_session db)
              ≡ (raised e, open_session db)))

    resolve_named :
        (u : Option ℕ) (n : Option Text)
        → names_owner payload ≡ true
        → get_or payload.owner_user_id holding.owner_user_id ≡ u
        → get_or payload.owner_name holding.owner_name ≡ n
        → EndsWell (IsResolved u n)
    unfolding resolve_holding_owner
    resolve_named u n named user name =
        elim (resolve_owner_fields_cases household_id u n holding_owner_invalid (open_session db)) [
          | inl (owner, r) ↦
              let set : IsResolved u n (some owner) =
                (owner, ap (λ (x : Outcome (Option ℕ × Option Text) × Session). x.0) r, refl) in
              inl (some owner, rw (named, user, name, r) refl, set)
          | inr (e, r) ↦ inr (e, rw (named, user, name, r) refl)
        ]

    resolve_unnamed :
        names_owner payload ≡ false
        → resolve_holding_owner household_id payload holding (open_session db)
          ≡ (ok none, open_session db)
    unfolding resolve_holding_owner
    resolve_unnamed unnamed = rw unnamed refl

    resolve_fields :
        (u : Option (Option ℕ)) (n : Option (Option Text))
        → payload.owner_user_id ≡ u
        → payload.owner_name ≡ n
        → EndsWell (IsOwnerSet u n holding)
    resolve_fields none none user name = inl (none, resolve_unnamed (rw (user, name) refl), refl)
    resolve_fields none (some n) user name =
        resolve_named holding.owner_user_id n (rw (user, name) refl) (rw user refl) (rw name refl)
    resolve_fields (some u) none user name =
        resolve_named u holding.owner_name (rw user refl) (rw user refl) (rw name refl)
    resolve_fields (some u) (some n) user name =
        resolve_named u n (rw user refl) (rw user refl) (rw name refl)

    pub resolve_holding_owner_cases :
        EndsWell (IsOwnerSet payload.owner_user_id payload.owner_name holding)
    resolve_holding_owner_cases = resolve_fields payload.owner_user_id payload.owner_name refl refl

pub load_found :
    (i : ℕ) (h : Holding) (s : Session)
    → find? (has_holding_id i) s.working.holdings ≡ some h
    → load_holding_read i s
      ≡ (ok (to_holding_read h (linked_owner_name s.working h.owner_user_id)), s)
unfolding load_holding_read
load_found i h s found = rw found refl

pub applied_id :
    (logs : List EntityPatchLog) (base_version : ℕ) (patch : Patch holding_columns)
    (holding h : Holding) (merged : Bool) (fields : List HoldingField)
    → merge_patch holding_columns logs (text "holding") base_version patch holding
      ≡ applied h merged fields
    → h.id ≡ holding.id
applied_id logs base_version patch holding h merged fields e =
    let (same, _) =
      merge_patch-applied holding_columns patch logs (text "holding") base_version holding e in
    ap (λ (x : Holding). x.id) same
    ∙ entity_id-assign_all holding_columns patch (patch_fields holding_columns patch holding)
        holding

-- The row that was patched is there after the patch.
pub row_after :
    (holding_id household_id user_id base_version : ℕ) (merged : Bool) (fields : List HoldingField)
    (holding h : Holding) (db : Database)
    → find? (λ (h : Holding). h.id == holding_id && h.household_id == household_id) db.holdings
      ≡ some holding
    → h.id ≡ holding.id
    → (z : Holding) × (find?
          (has_holding_id h.id)
          (write_holding_patch household_id user_id base_version merged fields h db).holdings
        ≡ some z)
row_after holding_id household_id user_id base_version merged fields holding h db found same =
    let (y, there) =
      find?-other (has_holding_id h.id)
        (λ (h : Holding). h.id == holding_id && h.household_id == household_id) db.holdings found
        ((nat_beq_iff holding.id h.id).1 (sym same)) in
    let updated =
      find?-update (has_holding_id h.id) (has_holding_id h.id) (λ _. without_nulls h) db.holdings
        (λ row k. nat_beq_refl h.id ∙ sym k) there in
    (if has_holding_id h.id y then without_nulls h else y, updated)

pub raise_fields_cases :
    (code : Code) (fields : List Text) (s : Session)
    → (raise_fields code fields s ≡ (ok tt, s))
      ⊎ ((e : AppError) × (raise_fields code fields s ≡ (raised e, s)))
raise_fields_cases code [] s = inl refl
raise_fields_cases code (field ∷ fields) s = inr (fields_error code (field ∷ fields), refl)
