-- ===== src/Merge.antt =====
-- backend/app/services/merge.py: a patch against a version that its author has seen is merged with
-- the patches since, or refused. The entity is a row with typed columns; a patch is a dict from
-- columns to values, so a function into `Option`.
pub mod Effect
pub mod Seen
pub mod Unlogged
use money_flow_service.Prelude.{
  none, nat_eq, ◌-◌, zero, ◌&&◌, ◌++◌, ltb, not, [], ◌≢◌, suc, ◌==◌, ◌+◌, if◌then◌else◌, ◌≡◌, true,
  some, ◌∷◌, false, map, Bool, List, ℕ, Option,
}
use money_flow_service.Prelude.Tables.{exists, select}
use money_flow_service.Prelude.Text.{text_eq, Text}
use money_flow_service.Models.{EntityPatchLog}

-- What the merge uses of an entity. `columns` lists the columns that a patch may name, sorted by name.
pub record Columns (E F : Type 0) : Type 1 where
  pub Cell : F → Type 0
  pub columns : List F
  pub name : F → Text
  pub getattr : (f : F) → E → Cell f
  pub setattr : (f : F) → Cell f → E → E
  pub same : (f : F) → Cell f → Cell f → Bool
  pub entity_id : E → ℕ
  pub version : E → ℕ
  pub set_version : ℕ → E → E
  pub same→eq : (f : F) (a b : Cell f) → same f a b ≡ true → a ≡ b
  pub name-injective : (f g : F) → name f ≡ name g → f ≡ g
  pub is_column : (f : F) → exists (λ g. name g == name f) columns ≡ true
  pub getattr-setattr_self : (f : F) (v : Cell f) (e : E) → getattr f (setattr f v e) ≡ v
  pub getattr-setattr_ne :
      (f g : F) (v : Cell f) (e : E) → name g ≢ name f → getattr g (setattr f v e) ≡ getattr g e
  pub getattr-set_version : (f : F) (n : ℕ) (e : E) → getattr f (set_version n e) ≡ getattr f e
  pub entity_id-setattr : (f : F) (v : Cell f) (e : E) → entity_id (setattr f v e) ≡ entity_id e
  pub entity_id-set_version : (n : ℕ) (e : E) → entity_id (set_version n e) ≡ entity_id e
  pub version-setattr : (f : F) (v : Cell f) (e : E) → version (setattr f v e) ≡ version e
  pub version-set_version : (n : ℕ) (e : E) → version (set_version n e) ≡ n

-- `field in changed`
unfoldable pub contains : List Text → Text → Bool
contains [] field = false
contains (x ∷ xs) field = if x == field then true else contains xs field

abbrev pub contains_version : List ℕ → ℕ → Bool
contains_version [] v = false
contains_version (x ∷ xs) v = if x == v then true else contains_version xs v

-- The patch logs of one entity after a version.
abbrev pub is_log_since :
    (entity_type : Text) → (entity_id base_version : ℕ) → EntityPatchLog → Bool
is_log_since entity_type entity_id base_version row =
    row.entity_type == entity_type
    && row.entity_id == entity_id
    && ltb base_version row.resulting_version

-- `changed_fields_since`: the fields that those logs name, and the versions that they cover.
unfoldable pub changed_since : (EntityPatchLog → Bool) → List EntityPatchLog → List Text
changed_since p [] = []
changed_since p (row ∷ rows) =
    let rest = changed_since p rows in if p row then row.changed_fields ++ rest else rest

unfoldable pub covered_since : (EntityPatchLog → Bool) → List EntityPatchLog → List ℕ
covered_since p [] = []
covered_since p (row ∷ rows) =
    let rest = covered_since p rows in if p row then row.resulting_version ∷ rest else rest

-- No version of `range(base + 1, base + n + 1)` is missing.
unfoldable pub all_covered : (base n : ℕ) → List ℕ → Bool
all_covered base zero covered = true
all_covered base (suc n) covered =
    contains_version covered (base + suc n) && all_covered base n covered

abbrev pub is_nil {ℓ} : {A : Type ℓ} → List A → Bool
is_nil [] = true
is_nil (x ∷ xs) = false

module _ {E F : Type 0} (c : Columns E F) where
  abbrev pub Patch : Type 0
  Patch = (f : F) → Option (c.Cell f)

  -- `value in patch_data ... if getattr(entity, key) != value`
  abbrev pub is_change : (e : E) (f : F) → Option (c.Cell f) → Bool
  is_change e f none = false
  is_change e f (some v) = not (c.same f (c.getattr f e) v)

  unfoldable pub is_effective : Patch → E → F → Bool
  is_effective patch e f = is_change e f (patch f)

  -- `sorted(effective_patch.keys())`
  unfoldable pub patch_fields : Patch → E → List F
  unfolding is_effective select
  patch_fields patch e = select (is_effective patch e) c.columns

  abbrev pub assign : (f : F) → Option (c.Cell f) → E → E
  assign f none e = e
  assign f (some v) e = c.setattr f v e

  -- `for key, value in effective_patch.items(): setattr(entity, key, value)`
  unfoldable pub assign_all : Patch → List F → E → E
  assign_all patch [] e = e
  assign_all patch (f ∷ fs) e = assign_all patch fs (assign f (patch f) e)

  pub data MergeResult : Type 0 where
    unchanged : MergeResult
    conflict : List F → MergeResult
    applied : E → (merged : Bool) → List F → MergeResult

  -- The entity with the fields assigned and the version after the current one.
  abbrev pub patched : Patch → List F → E → E
  patched patch fields e = c.set_version (c.version e + 1) (assign_all patch fields e)

  abbrev pub decide_stale :
      List EntityPatchLog → Text → (base_version : ℕ) → Patch → List F → E → MergeResult
  decide_stale logs entity_type base_version patch fields e =
      let since = is_log_since entity_type (c.entity_id e) base_version in
      let conflict_fields = select (λ f. contains (changed_since since logs) (c.name f)) fields in
      if not (all_covered base_version (c.version e - base_version) (covered_since since logs))
      then conflict fields
      else if is_nil conflict_fields
      then applied (patched patch fields e) true fields
      else conflict conflict_fields

  -- `merge_patch_or_raise` up to what it writes.
  unfoldable pub merge_patch :
      List EntityPatchLog → Text → (base_version : ℕ) → Patch → E → MergeResult
  unfolding patch_fields assign_all contains changed_since covered_since all_covered select
  merge_patch logs entity_type base_version patch e =
      let fields = patch_fields patch e in
      if is_nil fields
      then unchanged
      else if ltb base_version (c.version e)
      then decide_stale logs entity_type base_version patch fields e
      else if ltb (c.version e) base_version
      then conflict fields
      else applied (patched patch fields e) false fields

  -- The log row that an applied patch adds.
  abbrev pub patch_log :
      (household_id : ℕ) → Text → (base_version : ℕ) → Option ℕ → E → Bool → List F → EntityPatchLog
  patch_log household_id entity_type base_version actor_user_id e merged fields = record {
    household_id = household_id;
    entity_type = entity_type;
    entity_id = c.entity_id e;
    base_version = base_version;
    resulting_version = c.version e;
    changed_fields = map c.name fields;
    merged = merged;
    actor_user_id = actor_user_id;
  }

  -- One request to patch the entity, and its effect on the entity and on the logs.
  pub record Attempt : Type 0 where
    pub household_id : ℕ
    pub base_version : ℕ
    pub actor_user_id : Option ℕ
    pub patch : Patch

  -- An exception leaves both; otherwise `merge_patch_or_raise` writes the entity and a log row.
  abbrev pub write_merge :
      Text → Attempt → E × List EntityPatchLog → MergeResult → E × List EntityPatchLog
  write_merge entity_type a (e, logs) (applied e' merged fields) = (
    e',
    logs
        ++ patch_log a.household_id entity_type a.base_version a.actor_user_id e' merged fields
          ∷ [],
  )
  write_merge entity_type a st unchanged = st
  write_merge entity_type a st (conflict fields) = st

  unfoldable pub attempt : Text → Attempt → E × List EntityPatchLog → E × List EntityPatchLog
  unfolding merge_patch
  attempt entity_type a st =
      write_merge entity_type a st (merge_patch st.1 entity_type a.base_version a.patch st.0)

  unfoldable pub attempts : Text → List Attempt → E × List EntityPatchLog → E × List EntityPatchLog
  unfolding attempt
  attempts entity_type [] st = st
  attempts entity_type (a ∷ rest) st = attempts entity_type rest (attempt entity_type a st)
