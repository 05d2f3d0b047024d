-- ===== src/Holdings/Recording.antt =====
-- holdings.py, `create_holding`: what a creation stores.
use money_flow_service.Prelude.Text.{text_eq, strip, text, Text}
use money_flow_service.Prelude.{
  option_eq, nat_eq, ◌==◌, ◌&&◌, Bool, ◌∙◌, arith, true, ap, some, inl, refl, inr, nat_beq_refl,
  Option-cases, none, false, ◌+◌, ◌≡◌, [], ◌∷◌, ◌++◌, Option, ℕ,
}
use money_flow_service.Holdings.Identity.{
  legacy, holding_owner_identity_key, is_duplicate, same_owner_identity, is_candidate,
  to_holding_read, load_holding_read, has_holding_id, find_duplicate_holding, HoldingRead,
}
use money_flow_service.Prelude.Tables.Finding.{find?-other, find?-new}
use money_flow_service.Prelude.Tables.{find?-holds, find?, exists}
use money_flow_service.Errors.{
  holding_already_exists, app_error, holding_owner_invalid, foreign_key_category,
  transaction_source_ref, holding_identity, other_constraint,
}
use money_flow_service.OwnerLinks.{normalize_optional_text, resolve_owner_fields}
use money_flow_service.Session.{
  outcome_cases, open_session, broadcast_created, try_commit, outcome, raised, Session, Outcome,
  Verdict, ok,
}
use money_flow_service.Ledger.Cases.{resolve_owner_fields_cases}
use money_flow_service.Models.{Household, Database, Holding}
use money_flow_service.Holdings.Creation.{
  create_holding, create_owned, max_display_order, identity_of_payload, new_holding, HoldingCreate,
}
use money_flow_service.Ledger.Reads.{linked_owner_name}

-- The rows after a creation
abbrev pub with_holding : Holding → Database → Database
with_holding h db = record db { holdings = db.holdings ++ h ∷ [] }

abbrev pub created_holding :
    (fresh_id household_id : ℕ) → HoldingCreate → Option ℕ × Option Text → Database → Holding
created_holding fresh_id household_id payload owner db =
    new_holding fresh_id household_id payload owner (max_display_order household_id db.holdings + 1)

-- With the owner that the payload resolves to, there was no such asset, and it is stored after all
-- that were there; the answer shows it.
abbrev pub IsRecordedFor :
    (fresh_id household_id : ℕ)
    → HoldingCreate
    → Database
    → HoldingRead
    → Session
    → Option ℕ × Option Text
    → Type 0
IsRecordedFor fresh_id household_id payload db body s owner =
    (find_duplicate_holding (identity_of_payload household_id payload owner) none db ≡ none)
    × (s.stored ≡ with_holding (created_holding fresh_id household_id payload owner db) db)
    × (body
        ≡ to_holding_read (created_holding fresh_id household_id payload owner db)
            (linked_owner_name db owner.0))

abbrev pub IsRecorded :
    (fresh_id household_id : ℕ) → HoldingCreate → Database → Outcome HoldingRead × Session → Type 0
IsRecorded fresh_id household_id payload db (raised e, s) = s.stored ≡ db
IsRecorded fresh_id household_id payload db (ok body, s) =
    (owner : Option ℕ × Option Text) × (outcome
        (resolve_owner_fields household_id payload.owner_user_id payload.owner_name
          holding_owner_invalid)
        db
      ≡ ok owner)
    × IsRecordedFor fresh_id household_id payload db body s owner

module _ (verdict : Verdict) (fresh_id household_id : ℕ) (payload : HoldingCreate)
    (owner : Option ℕ × Option Text) (db : Database)
    (fresh : exists (has_holding_id fresh_id) db.holdings ≡ false) where
  abbrev new : Holding
  new = created_holding fresh_id household_id payload owner db

  load_created :
      load_holding_read fresh_id (record {
        stored = with_holding new db;
        working = with_holding new db;
        events = broadcast_created household_id fresh_id 1 ∷ [];
      })
      ≡ (
        ok (to_holding_read new (linked_owner_name db owner.0)),
        record {
          stored = with_holding new db;
          working = with_holding new db;
          events = broadcast_created household_id fresh_id 1 ∷ [];
        },
      )
  unfolding load_holding_read
  load_created =
      let found =
        find?-new (has_holding_id fresh_id) db.holdings new fresh (nat_beq_refl fresh_id) in
      rw found refl

  abbrev EndsWell : Outcome HoldingRead × Session → Type 0
  EndsWell (raised e, s) = s.stored ≡ db
  EndsWell (ok body, s) = IsRecordedFor fresh_id household_id payload db body s owner

  create_owned-EndsWell :
      EndsWell (create_owned verdict fresh_id household_id payload owner (open_session db))
  unfolding try_commit max_display_order
  create_owned-EndsWell =
      elim (Option-cases
        (find_duplicate_holding (identity_of_payload household_id payload owner) none db)) [
          | inr (h, e) ↦ rw e refl
          | inl e ↦ elim (Option-cases (verdict (with_holding new db))) [
            | inl v ↦ rw (e, v, load_created) (e, refl, refl)
            | inr (holding_identity, v) ↦ rw (e, v) refl
            | inr (foreign_key_category, v) ↦ rw (e, v) refl
            | inr (transaction_source_ref, v) ↦ rw (e, v) refl
            | inr (other_constraint, v) ↦ rw (e, v) refl
          ]
        ]

-- With a fresh id, a request to create a holding either raises and stores nothing, or the owner that
-- it names is resolved, no holding was the same asset before, and the new holding, after all the
-- others, is all that is stored, and is what the answer shows.
pub create_holding-IsRecorded :
    (verdict : Verdict) (fresh_id : ℕ) (household : Household) (payload : HoldingCreate)
    (db : Database)
    → exists (has_holding_id fresh_id) db.holdings ≡ false
    → IsRecorded fresh_id household.id payload db
        (create_holding verdict fresh_id household payload (open_session db))
unfolding create_holding
create_holding-IsRecorded verdict fresh_id household payload db fresh =
    elim (resolve_owner_fields_cases household.id payload.owner_user_id payload.owner_name
      holding_owner_invalid (open_session db)) [
        | inr (e, r) ↦ rw r refl
        | inl (owner, r) ↦
            let ends = create_owned-EndsWell verdict fresh_id household.id payload owner db fresh in
            elim (outcome_cases
              (create_owned verdict fresh_id household.id payload owner (open_session db))) [
                | inl (body, s, c) ↦
                    rw (r, c)
                      (
                        owner,
                        ap (λ (x : Outcome (Option ℕ × Option Text) × Session). x.0) r,
                        rw c at ends,
                      )
                | inr (err, s, c) ↦ rw (r, c) (rw c at ends)
              ]
      ]

none_key : holding_owner_identity_key none (some (text "None")) ≡ legacy (text "None")
unfolding holding_owner_identity_key normalize_optional_text strip
none_key = refl

unowned_key :
    (owner_name : Option Text)
    → normalize_optional_text owner_name ≡ none
    → holding_owner_identity_key none owner_name ≡ legacy (text "None")
unfolding holding_owner_identity_key
unowned_key owner_name h = rw h refl

unowned-same :
    (holding : Holding)
    → holding.owner_user_id ≡ none
    → normalize_optional_text holding.owner_name ≡ none
    → same_owner_identity holding none (some (text "None")) ≡ true
unowned-same holding unowned nameless =
    let key =
      ap (λ o. holding_owner_identity_key o holding.owner_name) unowned
      ∙ unowned_key holding.owner_name nameless in
    rw (key, none_key) refl

resolved_none :
    (household_id : ℕ) (payload : HoldingCreate) (s : Session)
    → payload.owner_user_id ≡ none
    → payload.owner_name ≡ some (text "None")
    → resolve_owner_fields household_id payload.owner_user_id payload.owner_name
        holding_owner_invalid s
      ≡ (ok (none, some (text "None")), s)
unfolding resolve_owner_fields normalize_optional_text strip
resolved_none household_id payload s no_user named = rw (no_user, named) refl

-- A row that matches the payload except for the owner, and that nobody owns
abbrev pub is_unowned_candidate : (household_id : ℕ) → HoldingCreate → Holding → Bool
is_unowned_candidate household_id payload holding =
    is_candidate (identity_of_payload household_id payload (none, some (text "None"))) holding
    && holding.owner_user_id == none
    && normalize_optional_text holding.owner_name == none

unowned_candidate-holds :
    (household_id : ℕ) (payload : HoldingCreate) (holding : Holding)
    → is_unowned_candidate household_id payload holding ≡ true
    → (is_candidate (identity_of_payload household_id payload (none, some (text "None"))) holding
        ≡ true)
      × (holding.owner_user_id ≡ none)
      × (normalize_optional_text holding.owner_name ≡ none)
unowned_candidate-holds household_id payload holding h = ground arith

refused_duplicate :
    (verdict : Verdict) (fresh_id household_id : ℕ) (payload : HoldingCreate)
    (owner : Option ℕ × Option Text) (holding : Holding) (db : Database)
    → find_duplicate_holding (identity_of_payload household_id payload owner) none db ≡ some holding
    → create_owned verdict fresh_id household_id payload owner (open_session db)
      ≡ (raised (app_error 409 holding_already_exists), open_session db)
refused_duplicate verdict fresh_id household_id payload owner holding db h = rw h refl

-- A holding that nobody owns is taken for one of an owner whose name is the text None: if there is
-- one with the household, the type, the symbol and the account of the payload, a creation for such an
-- owner is refused.
pub create_holding-none :
    (verdict : Verdict) (fresh_id : ℕ) (household : Household) (payload : HoldingCreate)
    (holding : Holding) (db : Database)
    → payload.owner_user_id ≡ none
    → payload.owner_name ≡ some (text "None")
    → find? (is_unowned_candidate household.id payload) db.holdings ≡ some holding
    → outcome (create_holding verdict fresh_id household payload) db
      ≡ raised (app_error 409 holding_already_exists)
unfolding create_holding find_duplicate_holding
create_holding-none verdict fresh_id household payload holding db no_user named found =
    let identity = identity_of_payload household.id payload (none, some (text "None")) in
    let (candidate, unowned, nameless) =
      unowned_candidate-holds household.id payload holding
        (find?-holds (is_unowned_candidate household.id payload) db.holdings found) in
    let same : same_owner_identity holding none (some (text "None")) ≡ true =
      unowned-same holding unowned nameless in
    let duplicate : is_duplicate identity none holding ≡ true = ground arith in
    let (other, there) =
      find?-other (is_duplicate identity none) (is_unowned_candidate household.id payload)
        db.holdings found duplicate in
    let refused =
      refused_duplicate verdict fresh_id household.id payload (none, some (text "None")) other db
        there in
    rw (resolved_none household.id payload (open_session db) no_user named, outcome, refused) refl
